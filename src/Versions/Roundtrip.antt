-- ===== src/Versions/Roundtrip.antt =====
-- Packing and unpacking are inverse to one another.
use windows_console_driver.Prelude.{ℕ, ◌≡◌, ◌↔◌, refl, arith}
use windows_console_driver.Prelude.Int.{ℤ, pos, negsuc}
use windows_console_driver.Prelude.Results.{ok}
use windows_console_driver.Versions.{unpack, pack}

halves :
    (machine user version : ℕ)
    → (pack (pos machine) (pos user) ≡ ok version) ↔ (unpack (pos version) ≡ ok (machine, user))
unfolding pack unpack
halves machine user version = (λ h. ground arith, λ h. ground arith)

-- Two integers pack to an integer exactly when that unpacks to them, whatever their signs; so neither
-- loses a version or a pair of halves, and each refuses what the other never gives.
pub pack-unpack :
    (machine user version : ℤ)
    → ((n : ℕ) × (version ≡ pos n) × (pack machine user ≡ ok n))
      ↔ ((m u : ℕ) × (machine ≡ pos m) × (user ≡ pos u) × (unpack version ≡ ok (m, u)))
unfolding pack unpack
pack-unpack (pos machine) (pos user) (pos version) = (
  λ (n, same, h). (machine, user, refl, refl, (halves machine user version).0 (cc (h, same))),
  λ (m, u, p, q, h). (version, refl, (halves machine user version).1 (cc (h, p, q))),
)
pack-unpack (pos machine) (pos user) (negsuc version) =
    (λ (n, same, h). absurd (cc same), λ (m, u, p, q, h). absurd (cc h))
pack-unpack (negsuc machine) user version =
    (λ (n, same, h). absurd (cc h), λ (m, u, p, q, h). absurd (cc p))
pack-unpack (pos machine) (negsuc user) version =
    (λ (n, same, h). absurd (ground (arith, h)), λ (m, u, p, q, h). absurd (cc q))
