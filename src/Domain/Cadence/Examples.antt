-- ===== src/Domain/Cadence/Examples.antt =====
-- The theorems about cadence.py at concrete inputs.
use weather.Common.{◌≡◌, refl, some, [], ◌∷◌}
use weather.Common.Int.{negsuc}
use weather.Common.Result.{raises, Error}
use weather.Common.Text.{codes, normalize}
use weather.Domain.Cadence.{CadenceTable, initial_cadences, canonical_cycle_cadence_hours}

bad_default_test :
    canonical_cycle_cadence_hours initial_cadences (codes "nam") (some (negsuc 3))
    ≡ raises Error.bad_cadence
unfolding canonical_cycle_cadence_hours normalize
bad_default_test = refl

abbrev with_nam : CadenceTable
with_nam = (codes "gfs", 6) ∷ (codes "gefs", 6) ∷ (codes "nam", 3) ∷ []
