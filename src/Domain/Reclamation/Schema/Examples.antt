-- ===== src/Domain/Reclamation/Schema/Examples.antt =====
-- Tests of the table of expected variables, and the theorem about it at a concrete input.
use weather.Common.{◌≡◌, refl, none, some, [], ◌∷◌}
use weather.Common.Int.{pos, negsuc}
use weather.Common.Result.{ok, raises, Error}
use weather.Common.Text.{codes, normalize}
use weather.Domain.Reclamation.{det, mean, mem, normalize_member_index}
use weather.Domain.Reclamation.Schema.{
  VariableSchema, make_region, default_schema, deterministic_variables,
  register_expected_region_variables, get_expected_region_variables,
}
use weather.Domain.Reclamation.Schema.Registered.{registered_schema}

mean_region :
    make_region (codes "run") 6 (codes " Mean") (pos 3)
    ≡ ok (record {
      region_run = codes "run";
      region_lead = 6;
      region_kind = mean;
      region_member = negsuc 0;
    })
unfolding make_region normalize_member_index normalize
mean_region = refl

-- A version without an entry falls back on the entry without a version.
newer_version :
    get_expected_region_variables default_schema (codes "GFS") det (some (codes "v2")) none
    ≡ ok deterministic_variables
unfolding get_expected_region_variables normalize
newer_version = refl

no_mean_of_gfs :
    get_expected_region_variables default_schema (codes "gfs") mean none none
    ≡ raises Error.no_schema
unfolding get_expected_region_variables normalize
no_mean_of_gfs = refl

abbrev with_v2 : VariableSchema
with_v2 =
    register_expected_region_variables default_schema (codes "gfs") det (codes "crain" ∷ [])
      (some (codes "v2"))

registered_schema_example :
    (get_expected_region_variables with_v2 (codes " GFS") (codes "Det") (some (codes "v2")) none
      ≡ ok (codes "crain" ∷ []))
    × (get_expected_region_variables with_v2 (codes " GFS") (codes "Det") none none
        ≡ ok (codes "crain" ∷ []))
    × (get_expected_region_variables with_v2 (codes "gefs") mem none none
        ≡ get_expected_region_variables default_schema (codes "gefs") mem none none)
unfolding normalize
registered_schema_example =
    registered_schema default_schema (codes "gfs") det (codes " GFS") (codes "Det") (codes "gefs")
      mem (codes "crain" ∷ []) (some (codes "v2")) none none refl refl refl
