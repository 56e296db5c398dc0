-- ===== src/Domain/Canonical.antt =====
-- packages/domain/src/domain/canonical.py: which forecast cycle serves a valid time and each of
-- its variables, and how candidates whose physical shards are fenced are narrowed. Sets are
-- lists, read only by membership; the keys of a dictionary of candidates are UTC instants.
pub mod Source
pub mod Bulk
pub mod Fence
mod Examples
use weather.Common.{
  ℕ, zero, suc, ◌*◌, Bool, true, false, not, ◌&&◌, ◌||◌, Option, none, some, List, [], ◌∷◌, ltb,
  leb, ◌==◌, if◌then◌else◌, length, first, any, keep,
}
use weather.Common.Int.{ℤ, leb_ℤ}
use weather.Common.Result.{Result}
use weather.Common.Text.{Text, codes, text_eq}
use weather.Common.Dict.{Dict, insert, Key}
use weather.Domain.Time.{DateTime, ensure_utc, add_time, hour}
use weather.Domain.Temporal.{is_precipitation_companion, requires_lead0_display_fallback}
use weather.Domain.Coverage.{is_lead_servable, default_threshold}
use weather.Domain.Reclamation.{has, is_subset, det, mean, mem}

pub record CanonicalCandidate : Type 0 where
  pub cycle_time : ℕ
  pub lead_time_hours : ℕ
  pub run_id : Text
  pub store_path : Text
  pub product_types : List Text
  pub variables : List Text
  pub member_indices : Option (List ℤ)
  pub status : Text

-- The constructor with its `__post_init__`.
pub make_candidate :
    DateTime → ℕ → Text → Text → List Text → List Text → Option (List ℤ) → Text → CanonicalCandidate
make_candidate cycle lead run store products vars members state = record {
  cycle_time = ensure_utc cycle;
  lead_time_hours = lead;
  run_id = run;
  store_path = store;
  product_types = products;
  variables = vars;
  member_indices = members;
  status = state;
}

abbrev pub valid_time : CanonicalCandidate → Result ℕ
valid_time c = add_time c.cycle_time (c.lead_time_hours * hour)

unfoldable pub select_canonical_anchor : List CanonicalCandidate → Option CanonicalCandidate
select_canonical_anchor candidates = first candidates

-- `for cand in candidates: if test: return cand`, and None at the end.
abbrev pub find {ℓ} : {A : Type ℓ} → (A → Bool) → List A → Option A
find p [] = none
find p (x ∷ xs) = if p x then some x else find p xs

abbrev pub is_empty_set : List Text → Bool
is_empty_set [] = true
is_empty_set (x ∷ xs) = false

-- `not cand.variables or variable in cand.variables`
abbrev pub carries : Text → CanonicalCandidate → Bool
carries v c = is_empty_set c.variables || has c.variables v

abbrev pub wind_components : List Text
wind_components = codes "wind_u_10m" ∷ codes "wind_v_10m" ∷ []

abbrev pub carries_wind : CanonicalCandidate → Bool
carries_wind c = is_empty_set c.variables || is_subset wind_components c.variables

abbrev pub precipitation : Text
precipitation = codes "precipitation_amount_3h"

-- `anchor if anchor is not None else candidates[0]`, for a head of the candidates.
abbrev pub effective_anchor : Option CanonicalCandidate → CanonicalCandidate → CanonicalCandidate
effective_anchor none head = head
effective_anchor (some a) head = a

-- What follows the test for a companion, for candidates that are not empty.
unfoldable pub select_own :
    List CanonicalCandidate → Text → CanonicalCandidate → Option CanonicalCandidate
select_own cands v a =
    if requires_lead0_display_fallback (some v)
    then (if ltb 0 a.lead_time_hours
        then find (carries v) cands
        else find (λ c. ltb 0 c.lead_time_hours && carries v c) cands)
    else (if text_eq v (codes "wind_10m") then find carries_wind cands else find (carries v) cands)

-- The function and its recursive call for a companion, to a depth of calls; none when the depth
-- is reached before it returns.
unfoldable pub select_within :
    ℕ
    → List CanonicalCandidate
    → Text
    → Option CanonicalCandidate
    → Option (Option CanonicalCandidate)
unfolding select_own
select_within zero cands v anchor = none
select_within (suc depth) [] v anchor = some none
select_within (suc depth) (c ∷ cands) v anchor =
    let coupled = select_within depth (c ∷ cands) precipitation anchor in
    if is_precipitation_companion (some v)
    then coupled
    else some (select_own (c ∷ cands) v (effective_anchor anchor c))

-- The call with the depth that it needs.
unfoldable pub select_variable_source :
    List CanonicalCandidate → Text → Option CanonicalCandidate → Option CanonicalCandidate
unfolding select_within
select_variable_source cands v anchor = elim (select_within 2 cands v anchor) [
  | none ↦ none
  | some source ↦ source
]
