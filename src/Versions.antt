-- ===== src/Versions.antt =====
-- src/gpo_observers/version_packing.py: `unpack` and `pack`, the 32-bit version of a policy, with the
-- user half above the machine half. Masks and shifts are divisions by powers of two, and the bits that
-- `|` joins are disjoint, so that it is a sum.
pub mod Roundtrip
mod Tests
use windows_console_driver.Prelude.{ℕ, ◌+◌, ◌-◌, ◌*◌, ◌/◌, ◌%◌, ◌^◌, Bool, ltb, if◌then◌else◌}
use windows_console_driver.Prelude.Int.{ℤ, pos, negsuc}
use windows_console_driver.Prelude.Results.{Result, ok, err}

-- The ValueErrors.
pub data VersionError : Type 0 where
  version_out_of_range machine_out_of_range user_out_of_range : VersionError

abbrev pub version_mask : ℕ
version_mask = 2 ^ 32 - 1

abbrev pub half_mask : ℕ
half_mask = 2 ^ 16 - 1

-- The halves of a version, the machine's first.
unfoldable pub unpack : ℤ → Result VersionError (ℕ × ℕ)
unpack (negsuc n) = err version_out_of_range
unpack (pos version) =
    if ltb version_mask version
    then err version_out_of_range
    else ok (version % 2 ^ 16, version / 2 ^ 16 % 2 ^ 16)

unfoldable pub pack : ℤ → ℤ → Result VersionError ℕ
pack (negsuc m) user = err machine_out_of_range
pack (pos machine) (negsuc u) =
    if ltb half_mask machine then err machine_out_of_range else err user_out_of_range
pack (pos machine) (pos user) =
    if ltb half_mask machine
    then err machine_out_of_range
    else if ltb half_mask user
    then err user_out_of_range
    else ok (user * 2 ^ 16 + machine)
