-- ===== src/Leases/Registry/Tests.antt =====
-- LeaseRegistry of src/wcd/leases.py at concrete inputs.
use windows_console_driver.Prelude.{◌*◌, ◌≡◌, refl, true, none, some, List, [], ◌∷◌, string_eq}
use windows_console_driver.Prelude.Int.{pos}
use windows_console_driver.Prelude.Results.{ok, err}
use windows_console_driver.Prelude.Dict.{lookup, insert}
use windows_console_driver.Leases.Registry.{
  Clock, Lease, Registry, new, lease_held, grant, contend, acquire, release, is_active,
}
use windows_console_driver.Leases.Registry.Exclusion.{
  Op, acquire_op, holder_of_op, step, run, exclusive_until_released,
}
use windows_console_driver.Leases.Registry.Expiry.{
  IsValid, Superseded, registry-IsValid, expired_takeover,
}
use windows_console_driver.Leases.Registry.Handback.{release-acquire}

abbrev ticking : Clock
ticking n = n * 10

abbrev ops : List Op
ops =
    acquire_op "vm-1" "bob" none ∷ holder_of_op "vm-1" ∷ acquire_op "vm-2" "bob" (some (pos 5)) ∷ []

-- Alice holds vm-1 with no TTL; vm-1's lease is the first object.
abbrev alice : Lease
alice = record { ref = 0; target_id = "vm-1"; holder = "alice"; acquired_at = 0; expires_at = none }

-- The same with a TTL of 5 ticks.
abbrev brief : Lease
brief = record alice { expires_at = some 5 }

abbrev held_by_alice : Registry
held_by_alice = (acquire ticking "vm-1" "alice" none new).1

abbrev held_briefly : Registry
held_briefly = (acquire ticking "vm-1" "alice" (some (pos 5)) new).1

exclusive_until_released_example :
    ((is_active ticking alice (run ticking ops held_by_alice)).0 ≡ true)
    × ((acquire ticking "vm-1" "carol" none (run ticking ops held_by_alice)).0
        ≡ err (lease_held "vm-1" "alice"))
unfolding acquire contend grant lookup insert
exclusive_until_released_example =
    exclusive_until_released ticking alice ops held_by_alice "carol" none refl (λ n h. refl)
      (tt, (tt, (tt, tt))) refl refl refl

registry-IsValid_example : IsValid (run ticking ops new)
registry-IsValid_example = registry-IsValid ticking ops

-- The registry after one acquisition is valid, by the run of that operation.
held_briefly-IsValid : IsValid held_briefly
unfolding run step
held_briefly-IsValid = registry-IsValid ticking (acquire_op "vm-1" "alice" (some (pos 5)) ∷ [])

expired_takeover_example :
    (m : Lease) × ((acquire ticking "vm-1" "bob" none held_briefly).0 ≡ ok m)
    × (m.holder ≡ "bob")
    × Superseded ticking brief m (acquire ticking "vm-1" "bob" none held_briefly).1
unfolding acquire contend grant lookup insert
expired_takeover_example =
    expired_takeover ticking brief "bob" none held_briefly held_briefly-IsValid refl refl refl refl
      refl

release-acquire_example :
    ((release alice held_by_alice).0 ≡ ok tt)
    × (lookup "vm-1" (release alice held_by_alice).1.leases ≡ none)
unfolding acquire contend grant lookup insert
release-acquire_example = release-acquire ticking "vm-1" "alice" none new alice "vm-1" refl
