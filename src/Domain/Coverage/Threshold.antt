-- ===== src/Domain/Coverage/Threshold.antt =====
-- What the integer test of coverage.py decides.
use weather.Common.{ℕ, ◌≤◌, ◌≡◌, ◌↔◌, true, arith}
use weather.Common.Int.{ℤ, pos}
use weather.Domain.Coverage.{is_lead_servable, default_threshold}

-- More members keep a servable lead servable, and so does a lower threshold.
pub servable_mono :
    (available more threshold lower : ℕ) (expected : ℤ)
    → is_lead_servable available expected threshold ≡ true
    → available ≤ more
    → lower ≤ threshold
    → is_lead_servable more expected lower ≡ true
unfolding is_lead_servable
servable_mono a m t l e h p q = grind arith

-- At the default of 85 percent an ensemble of thirty members is servable from 26 members on.
pub servable-gefs_iff :
    (available : ℕ)
    → (is_lead_servable available (pos 30) default_threshold ≡ true) ↔ (26 ≤ available)
unfolding is_lead_servable
servable-gefs_iff a = (λ h. ground arith, λ h. ground arith)
