-- ===== src/Domain/Reclamation/Schema.antt =====
-- reclamation.py: the identity of a region, and the table of the variables that a region of a model
-- has. The dictionary holds keys with a version and keys without one, each in its own field.
use weather.Common.{ℕ, ◌≡◌, ◌↔◌, arith, Bool, true, false, ◌&&◌, Option, none, some, List, [], ◌∷◌}
use weather.Common.Int.{ℤ}
use weather.Common.Result.{Result, ok, raises, Error, ◌>>=◌, or_raise}
use weather.Common.Text.{Text, codes, text_eq, text_eq_iff, normalize}
use weather.Common.Dict.{Dict, Key, lookup, insert, pair_key}
use weather.Domain.Reclamation.{det, mean, mem, normalize_member_index}
pub mod Registered
mod Examples

pub record IngestionRegionIdentity : Type 0 where
  pub region_run : Text
  pub region_lead : ℕ
  pub region_kind : Text
  pub region_member : ℤ

-- The constructor with its `__post_init__`.
unfoldable pub make_region : Text → ℕ → Text → ℤ → Result IngestionRegionIdentity
unfolding normalize_member_index
make_region run lead kind member = do
  member' ← normalize_member_index (normalize kind) (some member)
  ok (record {
    region_run = run;
    region_lead = lead;
    region_kind = normalize kind;
    region_member = member';
  })

abbrev pub version_eq : Text × Text × Text → Text × Text × Text → Bool
version_eq (a, b, c) (d, e, f) = text_eq a d && (text_eq b e && text_eq c f)

pub version_eq_iff : (p q : Text × Text × Text) → (version_eq p q ≡ true) ↔ (p ≡ q)
version_eq_iff (a, b, c) (d, e, f) =
    ground (arith, text_eq_iff a d, text_eq_iff b e, text_eq_iff c f)

instance abbrev pub version_key : Key (Text × Text × Text)
version_key = record { eq = version_eq; eq_iff = version_eq_iff }

pub record VariableSchema : Type 0 where
  pub versioned : Dict (Text × Text × Text) (List Text)
  pub unversioned : Dict (Text × Text) (List Text)

abbrev pub ensemble_variables : List Text
ensemble_variables =
    codes "temperature_2m"
    ∷ codes "precipitation_amount_3h"
    ∷ codes "crain"
    ∷ codes "csnow"
    ∷ codes "cfrzr"
    ∷ codes "cicep"
    ∷ codes "relative_humidity_2m"
    ∷ codes "wind_gust"
    ∷ codes "visibility"
    ∷ codes "snow_depth"
    ∷ codes "wind_u_10m"
    ∷ codes "wind_v_10m"
    ∷ codes "cloud_cover_3h"
    ∷ codes "cloud_ceiling"
    ∷ []

abbrev pub deterministic_variables : List Text
deterministic_variables =
    codes "temperature_2m"
    ∷ codes "precipitation_rate"
    ∷ codes "precipitation_amount_3h"
    ∷ codes "crain"
    ∷ codes "csnow"
    ∷ codes "cfrzr"
    ∷ codes "cicep"
    ∷ codes "relative_humidity_2m"
    ∷ codes "wind_gust"
    ∷ codes "visibility"
    ∷ codes "snow_depth"
    ∷ codes "wind_u_10m"
    ∷ codes "wind_v_10m"
    ∷ codes "cloud_cover_3h"
    ∷ codes "cloud_ceiling"
    ∷ []

-- The table before any registration.
abbrev pub default_schema : VariableSchema
default_schema = record {
  versioned =
      ((codes "gfs", codes "v1.0", det), deterministic_variables)
      ∷ ((codes "gefs", codes "v1.0", mean), ensemble_variables)
      ∷ ((codes "gefs", codes "v1.0", mem), ensemble_variables)
      ∷ [];
  unversioned =
      ((codes "gfs", det), deterministic_variables)
      ∷ ((codes "gefs", mean), ensemble_variables)
      ∷ ((codes "gefs", mem), ensemble_variables)
      ∷ [];
}

-- The version under which a registration stands.
abbrev pub stored_version : Option Text → Text
stored_version none = codes "v1.0"
stored_version (some version) = normalize version

unfoldable pub register_expected_region_variables :
    VariableSchema → Text → Text → List Text → Option Text → VariableSchema
register_expected_region_variables s model kind variables version = record {
  versioned =
      insert (normalize model, stored_version version, normalize kind) variables s.versioned;
  unversioned = insert (normalize model, normalize kind) variables s.unversioned;
}

-- The entry of the version that is asked for.
abbrev pub versioned_entry : VariableSchema → Text → Text → Option Text → Option (List Text)
versioned_entry s model kind none = none
versioned_entry s model kind (some version) =
    lookup (normalize model, normalize version, normalize kind) s.versioned

-- A found entry, or else the rest of the search.
abbrev pub found_or {ℓ} : {A : Type ℓ} → Option A → Result A → Result A
found_or none rest = rest
found_or (some a) rest = ok a

unfoldable pub get_expected_region_variables :
    VariableSchema → Text → Text → Option Text → Option (List Text) → Result (List Text)
get_expected_region_variables s model kind version fallback =
    found_or (versioned_entry s model kind version) (
      found_or (lookup (normalize model, normalize kind) s.unversioned)
        (or_raise fallback Error.no_schema))
