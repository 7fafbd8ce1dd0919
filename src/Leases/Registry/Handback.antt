-- ===== src/Leases/Registry/Handback.antt =====
-- src/wcd/leases.py, LeaseRegistry: acquiring a lease and handing it back.
use windows_console_driver.Prelude.{
  String, ◌≡◌, refl, ap, ◌∙◌, Option, none, some, ◌==◌, string_eq, nat_eq, eq_iff, Bool-cases, inl,
  inr, if◌then◌else◌, arith,
}
use windows_console_driver.Prelude.Int.{ℤ}
use windows_console_driver.Prelude.Results.{Result, ok, err}
use windows_console_driver.Prelude.Dict.{lookup, insert, lookup-insert, lookup-remove}
use windows_console_driver.Leases.Registry.{
  Clock, Lease, LeaseError, Registry, is_live, ttl_is_bad, grant, contend, acquire, release,
}
use windows_console_driver.Leases.Registry.Exclusion.{leases-is_live}

err-ne-ok : {e : LeaseError} {l : Lease} → ◌≡◌ {A = Result LeaseError Lease} (err e) (ok l) → ⊥
err-ne-ok p = cc

-- A grant puts the lease under its target, and changes no other entry.
record Granted (target_id : String) (l : Lease) (r r' : Registry) : Type 0 where
  own_target : l.target_id ≡ target_id
  entries : r'.leases ≡ insert target_id l r.leases

module _ (clock : Clock) (target_id holder : String) (ttl : Option ℤ) where
  grant-Granted :
      (r : Registry) (l : Lease)
      → (grant clock target_id holder ttl r).0 ≡ ok l
      → Granted target_id l r (grant clock target_id holder ttl r).1
  unfolding grant
  grant-Granted r l h = record { own_target = cc; entries = cc }

  contend-Granted :
      (o : Option Lease) (r : Registry) (l : Lease)
      → (contend o clock target_id holder ttl r).0 ≡ ok l
      → Granted target_id l r (contend o clock target_id holder ttl r).1
  unfolding contend
  contend-Granted none r l h = grant-Granted r l h
  contend-Granted (some m) r l h = elim (Bool-cases (is_live clock m r).0) [
    | inl live ↦ absurd (err-ne-ok (rw live at h))
    | inr dead ↦
        let g = grant-Granted (is_live clock m r).1 l (rw dead at h) in
        rw dead (record {
          own_target = g.own_target;
          entries = g.entries ∙ ap (insert target_id l) (leases-is_live clock m r);
        })
  ]

  acquire-Granted :
      (r : Registry) (l : Lease)
      → (acquire clock target_id holder ttl r).0 ≡ ok l
      → Granted target_id l r (acquire clock target_id holder ttl r).1
  unfolding acquire
  acquire-Granted r l h = elim (Bool-cases (target_id == "")) [
    | inl e ↦ absurd (err-ne-ok (rw e at h))
    | inr t ↦ elim (Bool-cases (holder == "")) [
      | inl e ↦ absurd (err-ne-ok (rw (t, e) at h))
      | inr n ↦ elim (Bool-cases (ttl_is_bad ttl)) [
        | inl e ↦ absurd (err-ne-ok (rw (t, n, e) at h))
        | inr b ↦ rw (t, n, b) (contend-Granted (lookup target_id r.leases) r l (rw (t, n, b) at h))
      ]
    ]
  ]

release-Granted :
    (target_id j : String) (l : Lease) (r r' : Registry)
    → Granted target_id l r r'
    → ((release l r').0 ≡ ok tt)
      × (lookup j (release l r').1.leases ≡ (if target_id == j then none else lookup j r.leases))
unfolding release
release-Granted target_id j l r r' g =
    let held : lookup l.target_id r'.leases ≡ some l =
      rw (g.entries, lookup-insert, g.own_target, (eq_iff target_id target_id).1 refl) refl in
    rw (held, (nat_eq.beq_iff l.ref l.ref).1 refl)
      (
        refl,
        ground (
          arith,
          g.own_target,
          lookup-remove l.target_id j r'.leases,
          ap (lookup j) g.entries ∙ lookup-insert target_id j l r.leases,
        ),
      )

-- Acquiring a lease and releasing it is a round trip. After an acquisition that returned a lease, its
-- release succeeds and leaves the target free and the lease of every other target as it was before.
pub release-acquire :
    (clock : Clock) (target_id holder : String) (ttl : Option ℤ) (r : Registry) (l : Lease)
    (j : String)
    → (acquire clock target_id holder ttl r).0 ≡ ok l
    → ((release l (acquire clock target_id holder ttl r).1).0 ≡ ok tt)
      × (lookup j (release l (acquire clock target_id holder ttl r).1).1.leases
          ≡ (if target_id == j then none else lookup j r.leases))
release-acquire clock target_id holder ttl r l j h =
    release-Granted target_id j l r (acquire clock target_id holder ttl r).1
      (acquire-Granted clock target_id holder ttl r l h)
