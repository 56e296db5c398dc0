-- ===== src/Domain/Horizon.antt =====
-- packages/domain/src/domain/horizon.py: the canonical lead horizon of each model.
use weather.Common.{
  ℕ, zero, suc, ◌+◌, ◌-◌, ◌*◌, ◌/◌, ◌≡◌, refl, Bool, true, false, ◌||◌, Option, none, some, List,
  [], ◌∷◌, map, max, ltb, leb, get_last?, if◌then◌else◌,
}
pub mod Contract
pub mod Longest
mod Examples
use weather.Common.Int.{ℤ, pos, negsuc}
use weather.Common.Result.{Result, ok, raises, Error, ◌>>=◌, ◌>>◌, raise_if, or_raise}
use weather.Common.Text.{Text, codes, normalize}
use weather.Common.Dict.{Dict, lookup, insert, contains, text_key, pair_key}

abbrev pub canonical_lead_cadence_hours : ℕ
canonical_lead_cadence_hours = 3

abbrev pub canonical_max_lead_hours : ℕ
canonical_max_lead_hours = 240

-- `count` leads from `start` on, `cadence` apart.
abbrev pub leads_from : ℕ → ℕ → ℕ → List ℕ
leads_from start cadence zero = []
leads_from start cadence (suc n) = start ∷ leads_from (start + cadence) cadence n

-- `range(start, max + 1, cadence)` for a positive step.
abbrev pub build_lead_sequence : ℕ → ℕ → ℕ → List ℕ
build_lead_sequence start cadence max = leads_from start cadence ((max + cadence - start) / cadence)

pub record Registry : Type 0 where
  pub canonical_horizons : Dict Text (List ℕ)
  pub version_horizons : Dict (Text × Text) (List ℕ)

abbrev pub platform_horizon : List ℕ
platform_horizon = build_lead_sequence 0 canonical_lead_cadence_hours canonical_max_lead_hours

-- The module's own state, before any registration.
abbrev pub initial_registry : Registry
initial_registry = record {
  canonical_horizons = (codes "gfs", platform_horizon) ∷ (codes "gefs", platform_horizon) ∷ [];
  version_horizons =
      ((codes "gfs", codes "v1.0"), platform_horizon)
      ∷ ((codes "gefs", codes "v1.0"), platform_horizon)
      ∷ [];
}

-- The leads as naturals, unless one of them is negative.
abbrev pub naturals : List ℤ → Option (List ℕ)
naturals [] = some []
naturals (pos n ∷ xs) = elim (naturals xs) [ none ↦ none | some ns ↦ some (n ∷ ns) ]
naturals (negsuc n ∷ xs) = none

-- `any(b <= a for a, b in zip(leads, leads[1:]))`
abbrev pub has_descent : List ℕ → Bool
has_descent [] = false
has_descent (a ∷ []) = false
has_descent (a ∷ b ∷ xs) = leb b a || has_descent (b ∷ xs)

abbrev pub is_empty {ℓ} : {A : Type ℓ} → List A → Bool
is_empty [] = true
is_empty (x ∷ xs) = false

-- The registry after the assignments of a call that passed its checks.
abbrev pub store_horizon : Registry → Text → List ℕ → Option Text → Registry
store_horizon r model leads none = record r {
  canonical_horizons = insert (normalize model) leads r.canonical_horizons;
}
store_horizon r model leads (some version) = record {
  canonical_horizons = insert (normalize model) leads r.canonical_horizons;
  version_horizons = insert (normalize model, normalize version) leads r.version_horizons;
}

pub register_canonical_lead_horizon : Registry → Text → List ℤ → Option Text → Result Registry
register_canonical_lead_horizon r model leads version = do
  raise_if (is_empty leads) Error.empty_horizon
  ns ← or_raise (naturals leads) Error.negative_lead
  raise_if (has_descent ns) Error.not_increasing
  ok (store_horizon r model ns version)

unfoldable pub is_canonical_lead_horizon_registered : Registry → Text → Bool
is_canonical_lead_horizon_registered r model = contains (normalize model) r.canonical_horizons

-- The version's own horizon, where a version is given and has one.
abbrev pub version_horizon : Registry → Text → Option Text → Option (List ℕ)
version_horizon r model none = none
version_horizon r model (some version) =
    lookup (normalize model, normalize version) r.version_horizons

unfoldable pub canonical_lead_time_hours :
    Registry → Text → Option Text → Option (List ℕ) → Result (List ℕ)
canonical_lead_time_hours r model version default_if_unknown =
    elim (version_horizon r model version) [
      | some leads ↦ ok leads
      | none ↦ elim (lookup (normalize model) r.canonical_horizons) [
        | some leads ↦ ok leads
        | none ↦ or_raise default_if_unknown Error.unknown_model
      ]
    ]

-- `(0, default) if default is not None else None`
abbrev pub default_leads : Option ℕ → Option (List ℕ)
default_leads none = none
default_leads (some d) = some (0 ∷ d ∷ [])

unfoldable pub model_max_lead_hours : Registry → Text → Option Text → Option ℕ → Result ℕ
model_max_lead_hours r model version default_if_unknown = do
  leads ← canonical_lead_time_hours r model version (default_leads default_if_unknown)
  or_raise (get_last? leads) Error.index_error

-- The list comprehension of `max_model_lead_hours`.
pub max_leads : Registry → List Text → Option Text → Option ℕ → Result (List ℕ)
max_leads r [] version default_if_unknown = ok []
max_leads r (m ∷ ms) version default_if_unknown = do
  lead ← model_max_lead_hours r m version default_if_unknown
  rest ← max_leads r ms version default_if_unknown
  ok (lead ∷ rest)

-- `max` of a list that is not empty.
abbrev pub maximum : ℕ → List ℕ → ℕ
maximum best [] = best
maximum best (x ∷ xs) = maximum (max best x) xs

-- `max` of the list, with the error for an empty one.
abbrev pub greatest : List ℕ → Result ℕ
greatest [] = raises Error.empty_models
greatest (lead ∷ rest) = ok (maximum lead rest)

pub max_model_lead_hours : Registry → List Text → Option Text → Option ℕ → Result ℕ
max_model_lead_hours r models version default_if_unknown = do
  leads ← max_leads r models version default_if_unknown
  greatest leads
