-- ===== src/Versions/Tests.antt =====
-- A version of three machine edits and two user edits.
use windows_console_driver.Prelude.{ℕ, ◌≡◌, ◌↔◌, refl}
use windows_console_driver.Prelude.Int.{pos, negsuc}
use windows_console_driver.Prelude.Results.{ok, err}
use windows_console_driver.Versions.{version_out_of_range, machine_out_of_range, unpack, pack}
use windows_console_driver.Versions.Roundtrip.{pack-unpack}

packs : pack (pos 3) (pos 2) ≡ ok 131075
unfolding pack
packs = refl

too_large : pack (pos 65536) (pos 0) ≡ err machine_out_of_range
unfolding pack
too_large = refl

below_zero : unpack (negsuc 0) ≡ err version_out_of_range
unfolding unpack
below_zero = refl

pack-unpack_example :
    ((n : ℕ) × (pos 131075 ≡ pos n) × (pack (pos 3) (pos 2) ≡ ok n))
    ↔ ((m u : ℕ) × (pos 3 ≡ pos m) × (pos 2 ≡ pos u) × (unpack (pos 131075) ≡ ok (m, u)))
pack-unpack_example = pack-unpack (pos 3) (pos 2) (pos 131075)
