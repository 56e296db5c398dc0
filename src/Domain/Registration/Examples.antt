-- ===== src/Domain/Registration/Examples.antt =====
-- model_registration.py: an audit of the two models of the platform and of an unknown one.
use weather.Common.{ℕ, ◌≡◌, refl, true, none, some, List, [], ◌∷◌}
use weather.Common.Int.{pos}
use weather.Common.Result.{ok}
use weather.Common.Text.{Text, codes, normalize}
use weather.Domain.Horizon.{
  initial_registry, is_canonical_lead_horizon_registered, canonical_lead_time_hours,
}
use weather.Domain.Cadence.{
  initial_cadences, is_cycle_cadence_registered, canonical_cycle_cadence_hours,
}
use weather.Domain.Coverage.{initial_members, is_expected_members_registered, get_expected_members}
use weather.Domain.Registration.{is_clean, has_fatal, normalized, audit_model_registration}
use weather.Domain.Registration.Contract.{clean_needs_no_default}

abbrev platform : List Text
platform = codes " GFS" ∷ [] ∷ codes "gefs" ∷ codes "gfs" ∷ []

abbrev with_unknown : List Text
with_unknown = codes "icon" ∷ codes "gfs" ∷ codes "ICON " ∷ []

unknown_audit :
    audit_model_registration initial_registry initial_cadences initial_members with_unknown
    ≡ record {
      missing_horizon = codes "icon" ∷ [];
      missing_cadence = codes "icon" ∷ [];
      missing_expected_members = codes "icon" ∷ [];
    }
unfolding audit_model_registration normalized normalize is_canonical_lead_horizon_registered
    is_cycle_cadence_registered is_expected_members_registered
unknown_audit = refl

unknown_fatal :
    has_fatal (record {
      missing_horizon = codes "icon" ∷ [];
      missing_cadence = [];
      missing_expected_members = [];
    })
    ≡ true
unfolding has_fatal
unknown_fatal = refl

clean_needs_no_default_example :
    ((leads : List ℕ) × (canonical_lead_time_hours initial_registry (codes "gefs") none none
        ≡ ok leads))
    × (canonical_cycle_cadence_hours initial_cadences (codes "gefs") (some (pos 12))
        ≡ canonical_cycle_cadence_hours initial_cadences (codes "gefs") none)
    × (get_expected_members initial_members (codes "gefs") (some (pos 10))
        ≡ get_expected_members initial_members (codes "gefs") none)
unfolding is_clean audit_model_registration normalized normalize
    is_canonical_lead_horizon_registered is_cycle_cadence_registered is_expected_members_registered
clean_needs_no_default_example =
    clean_needs_no_default initial_registry initial_cadences initial_members platform (codes "gefs")
      none (some (pos 12)) (some (pos 10)) refl refl refl
