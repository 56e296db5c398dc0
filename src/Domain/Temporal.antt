-- ===== src/Domain/Temporal.antt =====
-- packages/domain/src/domain/temporal.py: the serving window and its grid.
pub mod Boundary
pub mod Protected
pub mod Enumeration
mod Examples
use weather.Common.{
  ℕ, zero, suc, ◌+◌, ◌-◌, ◌*◌, ◌/◌, ◌%◌, ◌≡◌, Bool, true, false, ◌&&◌, ◌||◌, not, Option, none,
  some, List, [], ◌∷◌, ltb, leb, ◌==◌, if◌then◌else◌, get_last?, any,
}
use weather.Common.Int.{ℤ, pos, negsuc, sub_ℕ, leb_ℤ, ltb_ℤ, pos_part}
use weather.Common.Result.{Result, ok, raises, Error, ◌>>=◌, ◌>>◌, raise_if, or_raise}
use weather.Common.Text.{Text, codes, text_eq, strip_lower}
use weather.Common.Dict.{Dict, lookup, text_key}
use weather.Domain.Time.{
  DateTime, naive, aware, is_naive, ensure_utc, add_time, hour, hour_of, minute_of, second_of,
  microsecond_of, midnight,
}
use weather.Domain.Horizon.{
  Registry, canonical_lead_cadence_hours, canonical_lead_time_hours, build_lead_sequence,
}

-- The start of the cadence step of the UTC day that `t` lies in.
pub floor_to_cadence : ℕ → ℕ → ℕ
floor_to_cadence c t = midnight t + hour_of t / c * c * hour

unfoldable pub serving_start_valid_time : DateTime → ℤ → Result ℕ
unfolding floor_to_cadence
serving_start_valid_time now cadence_hours = do
  raise_if (is_naive now) Error.naive_datetime
  raise_if (leb_ℤ cadence_hours (pos 0)) Error.bad_cadence
  ok (floor_to_cadence (pos_part cadence_hours) (ensure_utc now))

-- `leads[1] - leads[0] if len(leads) > 1 else CANONICAL_LEAD_CADENCE_HOURS`
abbrev pub horizon_cadence : List ℕ → ℤ
horizon_cadence [] = pos canonical_lead_cadence_hours
horizon_cadence (a ∷ []) = pos canonical_lead_cadence_hours
horizon_cadence (a ∷ b ∷ leads) = sub_ℕ b a

pub model_serving_start_valid_time : Registry → Text → DateTime → Result ℕ
unfolding serving_start_valid_time
model_serving_start_valid_time r model now = do
  leads ← canonical_lead_time_hours r model none none
  serving_start_valid_time now (horizon_cadence leads)

-- `h % c == 0` for an integer `c`; by zero it raises.
abbrev pub divides_hour : ℕ → ℤ → Result Bool
divides_hour h (pos zero) = raises Error.zero_division
divides_hour h (pos (suc c)) = ok (h % suc c == 0)
divides_hour h (negsuc c) = ok (h % suc c == 0)

-- The cadence that `is_valid_time_on_horizon_grid` tests by.
abbrev pub grid_cadence : Registry → Option Text → Option ℤ → Result ℤ
grid_cadence r model (some cadence) = ok cadence
grid_cadence r (some model) none = do
  leads ← canonical_lead_time_hours r model none none
  ok (horizon_cadence leads)
grid_cadence r none none = ok (pos canonical_lead_cadence_hours)

abbrev pub is_whole_hour : ℕ → Bool
is_whole_hour t = minute_of t == 0 && (second_of t == 0 && microsecond_of t == 0)

unfoldable pub is_valid_time_on_horizon_grid :
    Registry → DateTime → Option Text → Option ℤ → Result Bool
is_valid_time_on_horizon_grid r valid_time model cadence_hours = do
  raise_if (is_naive valid_time) Error.naive_datetime
  cadence ← grid_cadence r model cadence_hours
  let t = ensure_utc valid_time
  let aligned = divides_hour (hour_of t) cadence
  if is_whole_hour t then aligned else ok false

-- Whether the grid of the given model, if one is given, has the time.
abbrev pub is_on_model_grid : Registry → DateTime → Option Text → Result Bool
is_on_model_grid r valid_time none = ok true
is_on_model_grid r valid_time (some model) =
    is_valid_time_on_horizon_grid r valid_time (some model) none

unfoldable pub is_valid_time_protected :
    Registry → DateTime → DateTime → Option Text → ℤ → Result Bool
unfolding is_valid_time_on_horizon_grid serving_start_valid_time
is_valid_time_protected r valid_time now model cadence_hours = do
  raise_if (is_naive valid_time) Error.naive_datetime
  on_grid ← is_on_model_grid r valid_time model
  let boundary = serving_start_valid_time now cadence_hours
  if on_grid then (do start ← boundary; ok (leb start (ensure_utc valid_time))) else ok false

-- `start + timedelta(hours=lead)` for each lead of a list.
abbrev pub valid_times : ℕ → List ℕ → Result (List ℕ)
valid_times start [] = ok []
valid_times start (lead ∷ leads) = do
  t ← add_time start (lead * hour)
  ts ← valid_times start leads
  ok (t ∷ ts)

unfoldable pub protected_valid_times : Registry → Text → DateTime → Option Text → Result (List ℕ)
unfolding serving_start_valid_time
protected_valid_times r model now version = do
  leads ← canonical_lead_time_hours r model version none
  let cadence = horizon_cadence leads
  start ← serving_start_valid_time now cadence
  max_lead ← or_raise (get_last? leads) Error.index_error
  valid_times start (build_lead_sequence 0 (pos_part cadence) max_lead)

abbrev pub interval_lead0_fallback_variables : List Text
interval_lead0_fallback_variables = codes "precipitation_amount_3h" ∷ codes "cloud_cover_3h" ∷ []

abbrev pub precipitation_companion_variables : List Text
precipitation_companion_variables =
    codes "crain" ∷ codes "csnow" ∷ codes "cfrzr" ∷ codes "cicep" ∷ []

unfoldable pub requires_lead0_display_fallback : Option Text → Bool
requires_lead0_display_fallback none = false
requires_lead0_display_fallback (some v) =
    any (text_eq (strip_lower v)) interval_lead0_fallback_variables

unfoldable pub is_precipitation_companion : Option Text → Bool
is_precipitation_companion none = false
is_precipitation_companion (some v) =
    any (text_eq (strip_lower v)) precipitation_companion_variables

pub record VariableTemporalMetadata : Type 0 where
  pub interval_width_hours : ℕ
  pub reset_period_hours : ℕ

abbrev pub variable_temporal_metadata : Dict Text VariableTemporalMetadata
variable_temporal_metadata =
    (codes "precipitation_amount_3h", record { interval_width_hours = 3; reset_period_hours = 6 })
    ∷ (codes "cloud_cover_3h", record { interval_width_hours = 3; reset_period_hours = 6 })
    ∷ []

pub get_variable_temporal_metadata : Option Text → Result VariableTemporalMetadata
get_variable_temporal_metadata none = raises Error.unknown_variable
get_variable_temporal_metadata (some v) =
    or_raise (lookup (strip_lower v) variable_temporal_metadata) Error.unknown_variable
