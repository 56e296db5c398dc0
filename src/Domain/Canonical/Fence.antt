-- ===== src/Domain/Canonical/Fence.antt =====
-- packages/domain/src/domain/canonical.py: the index of fenced keys and the filters on candidates.
pub mod Index
pub mod Narrowing
pub mod Unchanged
use weather.Common.{
  ℕ, zero, map, ◌≡◌, ◌↔◌, arith, suc, ◌*◌, Bool, true, false, not, ◌&&◌, ◌||◌, Option, none, some,
  List, [], ◌∷◌, ltb, leb, ◌==◌, if◌then◌else◌, length, first, any, keep,
}
use weather.Common.Int.{ℤ, leb_ℤ}
use weather.Common.Result.{Result}
use weather.Common.Text.{Text, codes, text_eq, text_eq_iff}
use weather.Common.Dict.{Dict, insert, Key}
use weather.Domain.Time.{DateTime, ensure_utc, add_time, hour}
use weather.Domain.Temporal.{is_precipitation_companion, requires_lead0_display_fallback}
use weather.Domain.Coverage.{is_lead_servable, default_threshold}
use weather.Domain.Reclamation.{has, is_subset, det, mean, mem}
use weather.Domain.Canonical.{CanonicalCandidate, is_empty_set}

-- (run_id, lead_time_hours, variable_code, target_kind, member_index)
abbrev pub FenceKey : Type 0
FenceKey = Text × ℕ × Text × Text × ℤ

pub record FenceIndex : Type 0 where
  pub variable_keys : List (Text × ℕ × Text)
  pub member_keys : List (Text × ℕ × ℤ)
  pub mean_run_leads : List (Text × ℕ)
  pub has_keys : Bool

abbrev pub eq_ℤ : ℤ → ℤ → Bool
eq_ℤ a b = leb_ℤ a b && leb_ℤ b a

abbrev pub is_run_lead : Text → ℕ → Text → ℕ → Bool
is_run_lead run lead r l = text_eq r run && (l == lead)

-- `(run, lead, v) in variable_keys`
abbrev pub in_variables : FenceIndex → Text → ℕ → Text → Bool
in_variables idx run lead v =
    any (λ k. is_run_lead run lead k.0 k.1 && text_eq k.2 v) idx.variable_keys

abbrev pub in_members : FenceIndex → Text → ℕ → ℤ → Bool
in_members idx run lead m = any (λ k. is_run_lead run lead k.0 k.1 && eq_ℤ k.2 m) idx.member_keys

abbrev pub in_means : FenceIndex → Text → ℕ → Bool
in_means idx run lead = any (λ k. is_run_lead run lead k.0 k.1) idx.mean_run_leads

-- The loop body; `memo` only shares equal texts.
unfoldable pub add_key : FenceKey → FenceIndex → FenceIndex
add_key (run, lead, v, kind, m) idx =
    if text_eq kind mean
    then record idx {
      has_keys = true;
      variable_keys = (run, lead, v) ∷ idx.variable_keys;
      mean_run_leads = (run, lead) ∷ idx.mean_run_leads;
    }
    else if text_eq kind det
    then record idx { has_keys = true; variable_keys = (run, lead, v) ∷ idx.variable_keys }
    else if text_eq kind mem
    then record idx { has_keys = true; member_keys = (run, lead, m) ∷ idx.member_keys }
    else record idx { has_keys = true }

abbrev pub empty_index : FenceIndex
empty_index = record { variable_keys = []; member_keys = []; mean_run_leads = []; has_keys = false }

-- The loop over the stream, from the index so far.
unfoldable pub add_keys : List FenceKey → FenceIndex → FenceIndex
unfolding add_key
add_keys [] idx = idx
add_keys (k ∷ ks) idx = add_keys ks (add_key k idx)

pub build_fence_index : List FenceKey → FenceIndex
unfolding add_keys
build_fence_index keys = add_keys keys empty_index

-- The members that are not fenced, for a candidate of an ensemble.
abbrev pub available_members : FenceIndex → CanonicalCandidate → List ℤ → List ℤ
available_members idx c ms = keep (λ m. not (in_members idx c.run_id c.lead_time_hours m)) ms

abbrev pub active_variables : FenceIndex → CanonicalCandidate → List Text
active_variables idx c = keep (λ v. not (in_variables idx c.run_id c.lead_time_hours v)) c.variables

abbrev pub active_products : FenceIndex → CanonicalCandidate → List Text
active_products idx c =
    if in_means idx c.run_id c.lead_time_hours
    then keep (λ p. not (text_eq p (codes "ensemble_mean"))) c.product_types
    else c.product_types

-- The branch for an ensemble candidate with its members.
abbrev pub narrow_ensemble :
    FenceIndex → ℤ → CanonicalCandidate → List ℤ → Option CanonicalCandidate
narrow_ensemble idx expected c ms =
    let members = available_members idx c ms in
    if is_lead_servable (length members) expected default_threshold
    then some (record c {
      product_types = active_products idx c;
      variables = active_variables idx c;
      member_indices = some members;
    })
    else none

abbrev pub narrow_plain : FenceIndex → CanonicalCandidate → Option CanonicalCandidate
narrow_plain idx c =
    let active = active_variables idx c in
    if not (is_empty_set c.variables) && is_empty_set active
    then none
    else some (record c { variables = active })

-- The body of the inner loop, by the members; none for `continue`.
abbrev pub narrow_by :
    FenceIndex → Bool → ℤ → CanonicalCandidate → Option (List ℤ) → Option CanonicalCandidate
narrow_by idx is_ensemble expected c none = narrow_plain idx c
narrow_by idx is_ensemble expected c (some ms) =
    if is_ensemble then narrow_ensemble idx expected c ms else narrow_plain idx c

unfoldable pub narrow : FenceIndex → Bool → ℤ → CanonicalCandidate → Option CanonicalCandidate
narrow idx is_ensemble expected c = narrow_by idx is_ensemble expected c c.member_indices

-- `filtered_cands.append(cand)`, unless the body continued.
abbrev pub append_kept :
    Option CanonicalCandidate → List CanonicalCandidate → List CanonicalCandidate
append_kept none rest = rest
append_kept (some c) rest = c ∷ rest

-- `if filtered_cands: out[v_time] = filtered_cands`
abbrev pub set_time :
    ℕ
    → List CanonicalCandidate
    → Dict ℕ (List CanonicalCandidate)
    → Dict ℕ (List CanonicalCandidate)
set_time t [] rest = rest
set_time t (c ∷ cs) rest = (t, c ∷ cs) ∷ rest

unfoldable pub narrow_all :
    FenceIndex → Bool → ℤ → List CanonicalCandidate → List CanonicalCandidate
unfolding narrow
narrow_all idx ens expected [] = []
narrow_all idx ens expected (c ∷ cs) =
    append_kept (narrow idx ens expected c) (narrow_all idx ens expected cs)

-- The outer loop; the keys of a dictionary are distinct, so that each is added at the end.
unfoldable pub narrow_times :
    FenceIndex → Bool → ℤ → Dict ℕ (List CanonicalCandidate) → Dict ℕ (List CanonicalCandidate)
unfolding narrow_all
narrow_times idx ens expected [] = []
narrow_times idx ens expected ((t, cands) ∷ d) =
    set_time t (narrow_all idx ens expected cands) (narrow_times idx ens expected d)

unfoldable pub filter_candidates_by_fence_index :
    Dict ℕ (List CanonicalCandidate) → FenceIndex → Bool → ℤ → Dict ℕ (List CanonicalCandidate)
unfolding narrow_times
filter_candidates_by_fence_index d idx ens expected =
    if idx.has_keys then narrow_times idx ens expected d else d

unfoldable pub filter_candidates_by_physical_fence :
    Dict ℕ (List CanonicalCandidate) → List FenceKey → Bool → ℤ → Dict ℕ (List CanonicalCandidate)
unfolding filter_candidates_by_fence_index build_fence_index
filter_candidates_by_physical_fence d [] ens expected = d
filter_candidates_by_physical_fence d (k ∷ ks) ens expected =
    filter_candidates_by_fence_index d (build_fence_index (k ∷ ks)) ens expected
