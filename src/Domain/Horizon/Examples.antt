-- ===== src/Domain/Horizon/Examples.antt =====
-- Tests of horizon.py's functions, and the theorems about them at concrete inputs.
use weather.Common.{◌≡◌, refl, Option, none, some, List, [], ◌∷◌}
use weather.Common.Int.{ℤ, pos, negsuc}
use weather.Common.Result.{ok, raises, Error}
use weather.Common.Text.{Text, codes, normalize}
use weather.Domain.Horizon.{
  Registry, initial_registry, canonical_lead_time_hours, model_max_lead_hours, store_horizon,
  register_canonical_lead_horizon,
}

normalize_test : normalize (codes "  GeFS ") ≡ codes "gefs"
unfolding normalize
normalize_test = refl

longest_test :
    model_max_lead_hours initial_registry (codes "GFS ") (some (codes "v1.0")) none ≡ ok 240
unfolding model_max_lead_hours canonical_lead_time_hours normalize
longest_test = refl

descending_test :
    register_canonical_lead_horizon initial_registry (codes "gfs") (pos 6 ∷ pos 3 ∷ []) none
    ≡ raises Error.not_increasing
unfolding register_canonical_lead_horizon
descending_test = refl

negative_test :
    register_canonical_lead_horizon initial_registry (codes "gfs") (pos 6 ∷ negsuc 2 ∷ []) none
    ≡ raises Error.negative_lead
unfolding register_canonical_lead_horizon
negative_test = refl

abbrev short_leads : List ℤ
short_leads = pos 0 ∷ pos 6 ∷ pos 12 ∷ []

abbrev version : Option Text
version = some (codes "v2.0")

abbrev with_short : Registry
with_short = store_horizon initial_registry (codes "nam") (0 ∷ 6 ∷ 12 ∷ []) version

abbrev both_models : List Text
both_models = codes "gfs" ∷ codes "gefs" ∷ []
