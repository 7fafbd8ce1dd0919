-- ===== src/Leases/Registry/Exclusion.antt =====
-- src/wcd/leases.py, LeaseRegistry: a lease is exclusive until its holder releases it or it expires.
use windows_console_driver.Prelude.{
  ℕ, ◌≤◌, String, ◌≡◌, ◌≢◌, refl, ap, ◌∙◌, true, false, Option, none, some, List, [], ◌∷◌, ◌==◌,
  string_eq, nat_eq, eq_iff, All, Bool-cases, inl, inr, arith,
}
use windows_console_driver.Prelude.Int.{ℤ}
use windows_console_driver.Prelude.Results.{err}
use windows_console_driver.Prelude.Dict.{lookup, lookup-insert, lookup-remove}
use windows_console_driver.Leases.Registry.{
  Clock, Lease, lease_held, Registry, live_at, is_live, ttl_is_bad, grant, contend, acquire,
  release, holder_of, is_active,
}

-- The calls that any client of the registry may make.
pub data Op : Type 0 where
  acquire_op : String → String → Option ℤ → Op
  release_op : Lease → Op
  holder_of_op : String → Op
  is_active_op : Lease → Op

unfoldable pub step : Clock → Op → Registry → Registry
unfolding acquire release holder_of is_active
step clock (acquire_op target_id holder ttl) r = (acquire clock target_id holder ttl r).1
step clock (release_op lease) r = (release lease r).1
step clock (holder_of_op target_id) r = (holder_of clock target_id r).1
step clock (is_active_op lease) r = (is_active clock lease r).1

unfoldable pub run : Clock → List Op → Registry → Registry
run clock [] r = r
run clock (op ∷ ops) r = run clock ops (step clock op r)

-- The operation does not present the lease object for release.
abbrev pub Keeps : Lease → Op → Type 0
Keeps l (release_op m) = m.ref ≢ l.ref
Keeps l _ = Unit

step-readings : (clock : Clock) (op : Op) (r : Registry) → r.readings ≤ (step clock op r).readings
unfolding step contend grant is_live
step-readings clock (acquire_op target_id holder ttl) r = ground arith
step-readings clock (release_op lease) r = ground arith
step-readings clock (holder_of_op target_id) r = ground arith
step-readings clock (is_active_op lease) r = ground arith

-- A lease of another target is not touched by an acquisition.
lookup-grant :
    (clock : Clock) (j target_id holder : String) (ttl : Option ℤ) (r : Registry)
    → (target_id == j) ≡ false
    → lookup j (grant clock target_id holder ttl r).1.leases ≡ lookup j r.leases
unfolding grant
lookup-grant clock j target_id holder ttl r ne = rw lookup-insert (rw ne)

pub is_live-live_at :
    (clock : Clock) (l : Lease) (r : Registry)
    → (is_live clock l r).0 ≡ live_at (clock r.readings) l
unfolding is_live
is_live-live_at clock l r = ground arith

pub leases-is_live :
    (clock : Clock) (l : Lease) (r : Registry) → (is_live clock l r).1.leases ≡ r.leases
unfolding is_live
leases-is_live clock l r = ground arith

contend-other :
    (clock : Clock) (j target_id holder : String) (ttl : Option ℤ) (r : Registry) (o : Option Lease)
    → (target_id == j) ≡ false
    → lookup j (contend o clock target_id holder ttl r).1.leases ≡ lookup j r.leases
unfolding contend
contend-other clock j target_id holder ttl r none ne =
    lookup-grant clock j target_id holder ttl r ne
contend-other clock j target_id holder ttl r (some current) ne =
    elim (Bool-cases (is_live clock current r).0) [
      | inl live ↦ rw live (rw leases-is_live)
      | inr dead ↦ rw dead (
          lookup-grant clock j target_id holder ttl (is_live clock current r).1 ne
          ∙ ap (lookup j) (leases-is_live clock current r))
    ]

contend-live :
    (clock : Clock) (l : Lease) (target_id holder : String) (ttl : Option ℤ) (r : Registry)
    → live_at (clock r.readings) l ≡ true
    → contend (some l) clock target_id holder ttl r
      ≡ (err (lease_held target_id l.holder), (is_live clock l r).1)
unfolding contend
contend-live clock l target_id holder ttl r live = rw (is_live-live_at clock l r ∙ live)

contend-keeps :
    (clock : Clock) (l : Lease) (target_id holder : String) (ttl : Option ℤ) (r : Registry)
    → lookup l.target_id r.leases ≡ some l
    → live_at (clock r.readings) l ≡ true
    → lookup l.target_id (contend (lookup target_id r.leases) clock target_id holder ttl r).1.leases
      ≡ some l
contend-keeps clock l target_id holder ttl r held live =
    elim (Bool-cases (target_id == l.target_id)) [
      | inl same ↦
          let k : target_id ≡ l.target_id = (eq_iff target_id l.target_id).0 same in
          rw k (
            rw held (
              rw (contend-live clock l l.target_id holder ttl r live)
                (ap (lookup l.target_id) (leases-is_live clock l r) ∙ held)))
      | inr other ↦
          contend-other clock l.target_id target_id holder ttl r (lookup target_id r.leases) other
          ∙ held
    ]

step-Keeps :
    (clock : Clock) (l : Lease) (op : Op) (r : Registry)
    → lookup l.target_id r.leases ≡ some l
    → live_at (clock r.readings) l ≡ true
    → Keeps l op
    → lookup l.target_id (step clock op r).leases ≡ some l
unfolding step
step-Keeps clock l (acquire_op target_id holder ttl) r held live k =
    ground (arith, contend-keeps clock l target_id holder ttl r held live)
step-Keeps clock l (release_op m) r held live k =
    ground (arith, lookup-remove m.target_id l.target_id r.leases, eq_iff m.target_id l.target_id)
step-Keeps clock l (holder_of_op target_id) r held live k = unfold is_live in ground arith
step-Keeps clock l (is_active_op lease) r held live k = unfold is_live in ground arith

readings-run :
    (clock : Clock) (ops : List Op) (r : Registry) → r.readings ≤ (run clock ops r).readings
unfolding run
readings-run clock [] r = omega arith
readings-run clock (op ∷ ops) r =
    omega (arith, step-readings clock op r, readings-run clock ops (step clock op r))

run-Keeps :
    (clock : Clock) (l : Lease) (ops : List Op) (r : Registry)
    → lookup l.target_id r.leases ≡ some l
    → ((n : ℕ) → n ≤ (run clock ops r).readings → live_at (clock n) l ≡ true)
    → All (Keeps l) ops
    → lookup l.target_id (run clock ops r).leases ≡ some l
unfolding run
run-Keeps clock l [] r held live k = held
run-Keeps clock l (op ∷ ops) r held live k =
    run-Keeps clock l ops (step clock op r)
      (step-Keeps clock l op r held
        (live r.readings
          (omega (arith, step-readings clock op r, readings-run clock ops (step clock op r))))
        k.0)
      live k.1

acquire-held :
    (clock : Clock) (l : Lease) (holder : String) (ttl : Option ℤ) (r : Registry)
    → lookup l.target_id r.leases ≡ some l
    → live_at (clock r.readings) l ≡ true
    → (l.target_id == "") ≡ false
    → (holder == "") ≡ false
    → ttl_is_bad ttl ≡ false
    → (acquire clock l.target_id holder ttl r).0 ≡ err (lease_held l.target_id l.holder)
unfolding acquire
acquire-held clock l holder ttl r held live t h b =
    rw (t, h, b, held) (rw (contend-live clock l l.target_id holder ttl r live))

is_active-held :
    (clock : Clock) (l : Lease) (r : Registry)
    → lookup l.target_id r.leases ≡ some l
    → live_at (clock r.readings) l ≡ true
    → (is_active clock l r).0 ≡ true
unfolding is_active
is_active-held clock l r held live =
    rw (held, (nat_eq.beq_iff l.ref l.ref).1 refl) (is_live-live_at clock l r ∙ live)

-- A registered lease excludes all others until it is released or expires. Whatever operations follow,
-- if none of them presents that lease object for release and every clock reading that they take, and
-- the next one, lies before its expiry, then it is still active, and an attempt to acquire its target
-- (with a non-empty target and holder, and a TTL that is positive or absent) is refused by naming its
-- holder.
pub exclusive_until_released :
    (clock : Clock) (l : Lease) (ops : List Op) (r : Registry) (holder : String) (ttl : Option ℤ)
    → lookup l.target_id r.leases ≡ some l
    → ((n : ℕ) → n ≤ (run clock ops r).readings → live_at (clock n) l ≡ true)
    → All (Keeps l) ops
    → (l.target_id == "") ≡ false
    → (holder == "") ≡ false
    → ttl_is_bad ttl ≡ false
    → ((is_active clock l (run clock ops r)).0 ≡ true)
      × ((acquire clock l.target_id holder ttl (run clock ops r)).0
          ≡ err (lease_held l.target_id l.holder))
exclusive_until_released clock l ops r holder ttl held live k t h b =
    let still = run-Keeps clock l ops r held live k in
    let now = live (run clock ops r).readings (omega arith) in
    (
      is_active-held clock l (run clock ops r) still now,
      acquire-held clock l holder ttl (run clock ops r) still now t h b,
    )
