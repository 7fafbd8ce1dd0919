-- ===== src/Leases/Registry.antt =====
-- src/wcd/leases.py: LeaseRegistry. Time is a natural number of ticks; the injected clock is the
-- sequence of its readings, of which the registry counts how many it has taken. The reference of a
-- lease stands for the identity of the object that `acquire` makes.
pub mod Exclusion
mod Expiry
mod Handback
mod Tests
use windows_console_driver.Prelude.{
  ℕ, zero, suc, ◌+◌, String, Bool, true, false, Option, none, some, List, [], ◌∷◌, ◌==◌, string_eq,
  nat_eq, ltb, ◌||◌, if◌then◌else◌,
}
use windows_console_driver.Prelude.Int.{ℤ, pos, negsuc, pos_part}
use windows_console_driver.Prelude.Results.{Result, ok, err}
use windows_console_driver.Prelude.Dict.{Dict, lookup, insert, remove}

abbrev pub Clock : Type 0
Clock = ℕ → ℕ

pub record Lease : Type 0 where
  pub ref : ℕ
  pub target_id : String
  pub holder : String
  pub acquired_at : ℕ
  pub expires_at : Option ℕ

-- ValueError, LeaseHeldError and LeaseNotHeldError.
pub data LeaseError : Type 0 where
  empty_target empty_holder ttl_not_positive : LeaseError
  lease_held : String → String → LeaseError
  lease_not_held : String → LeaseError

pub record Registry : Type 0 where
  pub leases : Dict Lease
  pub readings : ℕ
  pub allocated : ℕ

abbrev pub new : Registry
new = record { leases = []; readings = 0; allocated = 0 }

-- Each method returns its result beside the registry as it leaves it.
abbrev pub Method : Type 0 → Type 0
Method A = Registry → Result LeaseError A × Registry

abbrev pub live_at : ℕ → Lease → Bool
live_at now lease = elim lease.expires_at [ none ↦ true | some e ↦ ltb now e ]

-- The clock is read only for a lease that can expire.
unfoldable pub is_live : Clock → Lease → Registry → Bool × Registry
is_live clock lease r = elim lease.expires_at [
  | none ↦ (true, r)
  | some e ↦ (ltb (clock r.readings) e, record r { readings = r.readings + 1 })
]

-- `ttl_seconds is not None and ttl_seconds <= 0`
abbrev pub ttl_is_bad : Option ℤ → Bool
ttl_is_bad (some (pos (suc n))) = false
ttl_is_bad none = false
ttl_is_bad _ = true

abbrev pub expiry : ℕ → Option ℤ → Option ℕ
expiry now none = none
expiry now (some ttl) = some (now + pos_part ttl)

-- The end of `acquire`: the target is free, or its lease has expired.
unfoldable pub grant : Clock → String → String → Option ℤ → Method Lease
grant clock target_id holder ttl r =
    let now = clock r.readings in
    let lease : Lease = record {
      ref = r.allocated;
      target_id = target_id;
      holder = holder;
      acquired_at = now;
      expires_at = expiry now ttl;
    } in
    (
      ok lease,
      record {
        leases = insert target_id lease r.leases;
        readings = r.readings + 1;
        allocated = r.allocated + 1;
      },
    )

unfoldable pub contend : Option Lease → Clock → String → String → Option ℤ → Method Lease
contend none clock target_id holder ttl r = grant clock target_id holder ttl r
contend (some current) clock target_id holder ttl r =
    let (live, r') = is_live clock current r in
    if live
    then (err (lease_held target_id current.holder), r')
    else grant clock target_id holder ttl r'

unfoldable pub acquire : Clock → String → String → Option ℤ → Method Lease
unfolding contend
acquire clock target_id holder ttl r =
    if target_id == ""
    then (err empty_target, r)
    else if holder == ""
    then (err empty_holder, r)
    else if ttl_is_bad ttl
    then (err ttl_not_positive, r)
    else contend (lookup target_id r.leases) clock target_id holder ttl r

-- `current is lease`
abbrev pub is_same : Option Lease → Lease → Bool
is_same none lease = false
is_same (some current) lease = current.ref == lease.ref

unfoldable pub release : Lease → Method (Unit {0})
release lease r =
    if is_same (lookup lease.target_id r.leases) lease
    then (ok tt, record r { leases = remove lease.target_id r.leases })
    else (err (lease_not_held lease.target_id), r)

abbrev pub holder_if_live : Option Lease → Clock → Registry → Option String × Registry
holder_if_live none clock r = (none, r)
holder_if_live (some current) clock r =
    let (live, r') = is_live clock current r in (if live then some current.holder else none, r')

pub holder_of : Clock → String → Registry → Option String × Registry
holder_of clock target_id r = holder_if_live (lookup target_id r.leases) clock r

unfoldable pub is_active : Clock → Lease → Registry → Bool × Registry
is_active clock lease r =
    if is_same (lookup lease.target_id r.leases) lease then is_live clock lease r else (false, r)
