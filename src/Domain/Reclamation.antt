-- ===== src/Domain/Reclamation.antt =====
-- packages/domain/src/domain/reclamation.py: the units of physical deletion, their object keys,
-- the predecessor rule and the clean-up of region markers.
use weather.Common.{
  ℕ, zero, suc, ◌+◌, ◌-◌, ◌%◌, Bool, true, false, not, ◌&&◌, ◌||◌, Option, none, some, List, [],
  ◌∷◌, ◌++◌, leb, ltb, ◌==◌, if◌then◌else◌, all, any,
}
use weather.Common.Int.{ℤ, pos, negsuc, sub_ℕ, pos_part, leb_ℤ, ltb_ℤ}
use weather.Common.Result.{Result, ok, raises, Error, ◌>>=◌, ◌>>◌, raise_if, or_raise}
use weather.Common.Text.{Text, codes, text_eq, normalize, strip_lower}
use weather.Common.Decimal.{padded}
use weather.Common.Dict.{Dict, lookup, insert, text_key, pair_key}
use weather.Domain.Time.{DateTime, ensure_utc}
pub mod Predecessor
pub mod Markers
pub mod Schema
mod Examples

abbrev pub det : Text
det = codes "det"

abbrev pub mean : Text
mean = codes "mean"

abbrev pub mem : Text
mem = codes "mem"

unfoldable pub normalize_member_index : Text → Option ℤ → Result ℤ
normalize_member_index target_kind member_index =
    let kind = normalize target_kind in
    if text_eq kind det
    then ok (pos 0)
    else if text_eq kind mean
    then ok (negsuc 0)
    else if text_eq kind mem
    then ok (elim member_index [ none ↦ pos 1 | some m ↦ m ])
    else raises Error.unknown_kind

pub record PhysicalShardTarget : Type 0 where
  pub run_id : Text
  pub model_id : Text
  pub cycle_time : ℕ
  pub lead_time_hours : ℕ
  pub variable_code : Text
  pub target_kind : Text
  pub member_index : ℤ
  pub valid_time : ℕ
  pub store_path : Text
  pub physical_key : Text

-- The constructor with its `__post_init__`; the times are kept in UTC.
unfoldable pub make_target :
    Text
    → Text
    → DateTime
    → ℕ
    → Text
    → Text
    → ℤ
    → DateTime
    → Text
    → Text
    → Result PhysicalShardTarget
unfolding normalize_member_index
make_target run model cycle lead variable kind member valid store key = do
  member' ← normalize_member_index (normalize kind) (some member)
  ok (record {
    run_id = run;
    model_id = normalize model;
    cycle_time = ensure_utc cycle;
    lead_time_hours = lead;
    variable_code = variable;
    target_kind = normalize kind;
    member_index = member';
    valid_time = ensure_utc valid;
    store_path = store;
    physical_key = key;
  })

-- `f"{n:03d}"`, in which a sign takes one of the three places.
abbrev pub padded_member : ℤ → Text
padded_member (pos n) = padded 3 n
padded_member (negsuc n) = b'-' ∷ padded 2 (suc n)

-- The part of a key that names the region, such as `mem003_L0006`.
unfoldable pub region_token : Text → ℕ → ℤ → Result Text
unfolding normalize_member_index
region_token target_kind lead member =
    let kind = normalize target_kind in
    if text_eq kind det
    then ok (codes "det_L" ++ padded 4 lead)
    else if text_eq kind mean
    then ok (codes "mean_L" ++ padded 4 lead)
    else if text_eq kind mem
    then (do
      m ← normalize_member_index kind (some member)
      ok (codes "mem" ++ (padded_member m ++ (codes "_L" ++ padded 4 lead))))
    else raises Error.unknown_kind

unfoldable pub make_shard_relative_key : Text → Text → ℕ → ℤ → Result Text
unfolding region_token
make_shard_relative_key variable target_kind lead member = do
  token ← region_token target_kind lead member
  ok (variable ++ (codes "/shard." ++ (token ++ codes ".shard")))

unfoldable pub make_region_marker_relative_key : Text → ℕ → ℤ → Result Text
unfolding region_token
make_region_marker_relative_key target_kind lead member = do
  token ← region_token target_kind lead member
  ok (codes "__commit__/v1/regions/" ++ (token ++ codes ".json"))

pub is_predecessor_dependent_lead : ℕ → ℕ → Bool
is_predecessor_dependent_lead lead reset_period = ltb 0 lead && lead % reset_period == 0

-- The interval and the period are checked before the remainder is taken.
pub get_predecessor_lead : ℕ → ℤ → ℤ → Result ℤ
unfolding is_predecessor_dependent_lead
get_predecessor_lead lead width period = do
  raise_if (leb_ℤ period (pos 0) || leb_ℤ width (pos 0)) Error.bad_interval
  raise_if (ltb_ℤ period width) Error.bad_interval
  raise_if (not (is_predecessor_dependent_lead lead (pos_part period))) Error.not_reset_lead
  ok (sub_ℕ lead (pos_part width))

abbrev pub predecessor_variables : List Text
predecessor_variables = codes "precipitation_amount_3h" ∷ codes "cloud_cover_3h" ∷ []

pub is_predecessor_variable : Option Text → Bool
is_predecessor_variable none = false
is_predecessor_variable (some v) = any (text_eq (strip_lower v)) predecessor_variables

-- Membership in a set of texts.
abbrev pub has : List Text → Text → Bool
has xs v = any (text_eq v) xs

abbrev pub is_subset : List Text → List Text → Bool
is_subset xs ys = all (has ys) xs

pub can_delete_region_marker : List Text → List Text → Bool
can_delete_region_marker [] deleted = false
can_delete_region_marker (v ∷ expected) deleted = is_subset (v ∷ expected) deleted
