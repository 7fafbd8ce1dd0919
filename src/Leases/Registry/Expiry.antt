-- ===== src/Leases/Registry/Expiry.antt =====
-- src/wcd/leases.py, LeaseRegistry: what acquire and release do to the registry.
use windows_console_driver.Prelude.{
  ◌<◌, String, ◌≡◌, ◌≢◌, refl, ◌∙◌, false, Option, none, some, List, [], ◌∷◌, ◌==◌, string_eq,
  nat_eq, eq_iff, Bool-cases, inl, inr, arith,
}
use windows_console_driver.Prelude.Int.{ℤ}
use windows_console_driver.Prelude.Results.{ok, err}
use windows_console_driver.Prelude.Dict.{lookup, lookup-insert, lookup-remove}
use windows_console_driver.Leases.Registry.{
  Clock, Lease, Registry, new, live_at, is_live, ttl_is_bad, grant, contend, acquire, is_same,
  release, holder_of, holder_if_live, is_active, expiry, lease_not_held,
}
use windows_console_driver.Leases.Registry.Exclusion.{
  Op, acquire_op, release_op, holder_of_op, is_active_op, step, run, is_live-live_at,
}

-- Every registered lease stands under its own target, and no two are the same object.
pub record IsValid (r : Registry) : Type 0 where
  pub own_target : (k : String) (l : Lease) → lookup k r.leases ≡ some l → l.target_id ≡ k
  pub made_here : (k : String) (l : Lease) → lookup k r.leases ≡ some l → l.ref < r.allocated

-- The lease that `grant` makes.
abbrev pub granted : Clock → String → String → Option ℤ → Registry → Lease
granted clock target_id holder ttl r = record {
  ref = r.allocated;
  target_id = target_id;
  holder = holder;
  acquired_at = clock r.readings;
  expires_at = expiry (clock r.readings) ttl;
}

grant-IsValid :
    (clock : Clock) (target_id holder : String) (ttl : Option ℤ) (r : Registry)
    → IsValid r
    → IsValid (grant clock target_id holder ttl r).1
unfolding grant
grant-IsValid clock target_id holder ttl r v = record {
  own_target = λ k l h. ground (
    arith,
    lookup-insert target_id k (granted clock target_id holder ttl r) r.leases,
    eq_iff target_id k,
    v.own_target k l,
  );
  made_here = λ k l h. ground (
    arith,
    lookup-insert target_id k (granted clock target_id holder ttl r) r.leases,
    eq_iff target_id k,
    v.made_here k l,
  );
}

is_live-IsValid :
    (clock : Clock) (l : Lease) (r : Registry) → IsValid r → IsValid (is_live clock l r).1
unfolding is_live
is_live-IsValid clock l r v = record {
  own_target = λ k m h. ground (arith, v.own_target k m);
  made_here = λ k m h. ground (arith, v.made_here k m);
}

release-IsValid : (l : Lease) (r : Registry) → IsValid r → IsValid (release l r).1
unfolding release
release-IsValid l r v = record {
  own_target = λ k m h. ground (arith, v.own_target k m, lookup-remove l.target_id k r.leases);
  made_here = λ k m h. ground (arith, v.made_here k m, lookup-remove l.target_id k r.leases);
}

contend-IsValid :
    (o : Option Lease) (clock : Clock) (target_id holder : String) (ttl : Option ℤ) (r : Registry)
    → IsValid r
    → IsValid (contend o clock target_id holder ttl r).1
unfolding contend
contend-IsValid none clock target_id holder ttl r v = grant-IsValid clock target_id holder ttl r v
contend-IsValid (some l) clock target_id holder ttl r v = elim (Bool-cases (is_live clock l r).0) [
  | inl live ↦ rw live (is_live-IsValid clock l r v)
  | inr dead ↦
      rw dead (
        grant-IsValid clock target_id holder ttl (is_live clock l r).1
          (is_live-IsValid clock l r v))
]

acquire-IsValid :
    (clock : Clock) (target_id holder : String) (ttl : Option ℤ) (r : Registry)
    → IsValid r
    → IsValid (acquire clock target_id holder ttl r).1
unfolding acquire
acquire-IsValid clock target_id holder ttl r v = elim (Bool-cases (target_id == "")) [
  | inl e ↦ rw e v
  | inr t ↦ elim (Bool-cases (holder == "")) [
    | inl e ↦ rw (t, e) v
    | inr h ↦ elim (Bool-cases (ttl_is_bad ttl)) [
      | inl e ↦ rw (t, h, e) v
      | inr b ↦
          rw (t, h, b) (contend-IsValid (lookup target_id r.leases) clock target_id holder ttl r v)
    ]
  ]
]

holder_of-IsValid :
    (clock : Clock) (target_id : String) (r : Registry)
    → IsValid r
    → IsValid (holder_of clock target_id r).1
unfolding holder_of
holder_of-IsValid clock target_id r v = go (lookup target_id r.leases)
  where
    go : (o : Option Lease) → IsValid (holder_if_live o clock r).1
    go none = v
    go (some l) = is_live-IsValid clock l r v

is_active-IsValid :
    (clock : Clock) (l : Lease) (r : Registry) → IsValid r → IsValid (is_active clock l r).1
unfolding is_active
is_active-IsValid clock l r v = elim (Bool-cases (is_same (lookup l.target_id r.leases) l)) [
  | inl e ↦ rw e (is_live-IsValid clock l r v)
  | inr e ↦ rw e v
]

step-IsValid : (clock : Clock) (op : Op) (r : Registry) → IsValid r → IsValid (step clock op r)
unfolding step
step-IsValid clock (acquire_op t h ttl) r v = acquire-IsValid clock t h ttl r v
step-IsValid clock (release_op l) r v = release-IsValid l r v
step-IsValid clock (holder_of_op t) r v = holder_of-IsValid clock t r v
step-IsValid clock (is_active_op l) r v = is_active-IsValid clock l r v

run_from-IsValid :
    (clock : Clock) (ops : List Op) (r : Registry) → IsValid r → IsValid (run clock ops r)
unfolding run
run_from-IsValid clock [] r v = v
run_from-IsValid clock (op ∷ ops) r v =
    run_from-IsValid clock ops (step clock op r) (step-IsValid clock op r v)

-- Whatever the operations on a new registry, every registered lease stands under its own target and
-- is one of the objects that the registry has made.
pub registry-IsValid : (clock : Clock) (ops : List Op) → IsValid (run clock ops new)
unfolding lookup
registry-IsValid clock ops =
    run_from-IsValid clock ops new (record { own_target = λ k l h. cc; made_here = λ k l h. cc })

contend-dead :
    (clock : Clock) (l : Lease) (holder : String) (ttl : Option ℤ) (r : Registry)
    → live_at (clock r.readings) l ≡ false
    → contend (some l) clock l.target_id holder ttl r
      ≡ grant clock l.target_id holder ttl (is_live clock l r).1
unfolding contend
contend-dead clock l holder ttl r dead = rw (is_live-live_at clock l r ∙ dead)

allocated-is_live :
    (clock : Clock) (l : Lease) (r : Registry) → (is_live clock l r).1.allocated ≡ r.allocated
unfolding is_live
allocated-is_live clock l r = ground arith

acquire-dead :
    (clock : Clock) (l : Lease) (holder : String) (ttl : Option ℤ) (r : Registry)
    → lookup l.target_id r.leases ≡ some l
    → live_at (clock r.readings) l ≡ false
    → (l.target_id == "") ≡ false
    → (holder == "") ≡ false
    → ttl_is_bad ttl ≡ false
    → acquire clock l.target_id holder ttl r
      ≡ grant clock l.target_id holder ttl (is_live clock l r).1
unfolding acquire
acquire-dead clock l holder ttl r held dead t h b =
    rw (t, h, b, held) (contend-dead clock l holder ttl r dead)

-- What a registry owes the holder of a lease that another object has replaced.
abbrev pub Superseded : Clock → Lease → Lease → Registry → Type 0
Superseded clock old new_lease r =
    (lookup old.target_id r.leases ≡ some new_lease)
    × ((is_active clock old r).0 ≡ false)
    × (release old r ≡ (err (lease_not_held old.target_id), r))

superseded :
    (clock : Clock) (old l : Lease) (r : Registry)
    → lookup old.target_id r.leases ≡ some l
    → l.ref ≢ old.ref
    → Superseded clock old l r
unfolding is_active release
superseded clock old l r held other = (held, ground arith, ground arith)

-- An expired lease does not block its target. In a valid registry, where the lease of the target has
-- expired by the next clock reading, an acquisition (with a non-empty target and holder, and a TTL
-- that is positive or absent) returns a new lease object; the old object is no longer active, and
-- releasing it is refused and leaves the registry as it was.
pub expired_takeover :
    (clock : Clock) (l : Lease) (holder : String) (ttl : Option ℤ) (r : Registry)
    → IsValid r
    → lookup l.target_id r.leases ≡ some l
    → live_at (clock r.readings) l ≡ false
    → (l.target_id == "") ≡ false
    → (holder == "") ≡ false
    → ttl_is_bad ttl ≡ false
    → (m : Lease) × ((acquire clock l.target_id holder ttl r).0 ≡ ok m)
      × (m.holder ≡ holder)
      × Superseded clock l m (acquire clock l.target_id holder ttl r).1
expired_takeover clock l holder ttl r v held dead t h b =
    let asked = (is_live clock l r).1 in
    let m = granted clock l.target_id holder ttl asked in
    rw (acquire-dead clock l holder ttl r held dead t h b) (
      m,
      unfold grant in refl,
      refl,
      superseded clock l m (grant clock l.target_id holder ttl asked).1
          (unfold grant in rw lookup-insert (rw ((eq_iff l.target_id l.target_id).1 refl)))
          (λ e.
            absurd (omega (arith, v.made_here l.target_id l held, allocated-is_live clock l r))),
    )
