-- ===== src/Domain/Canonical/Fence/Unchanged.antt =====
-- canonical.py, the filters: what no key fences stays as it is.
use weather.Common.{
  ℕ, subst, ◌≡◌, ◌≢◌, refl, sym, ◌∙◌, Bool, true, false, not, Option, none, some, List, [], ◌∷◌,
  any, arith, All, All-map, keep, length, ◌&&◌,
}
use weather.Common.Int.{ℤ, pos}
use weather.Common.Dict.{Dict}
use weather.Domain.Coverage.{is_lead_servable, default_threshold}
use weather.Domain.Canonical.{CanonicalCandidate, is_empty_set}
use weather.Domain.Canonical.Fence.{
  FenceKey, build_fence_index, narrow, narrow_all, narrow_by, narrow_plain, narrow_ensemble,
  narrow_times, available_members, active_variables, active_products, set_time,
  filter_candidates_by_fence_index, filter_candidates_by_physical_fence,
}
use weather.Domain.Canonical.Fence.Index.{
  fences_variable, fences_member, fences_mean, index_refines_scan, build_fence_index-has_keys,
}

keep-All : {A : Type 0} (p : A → Bool) (xs : List A) → All (λ x. p x ≡ true) xs → keep p xs ≡ xs
keep-All p [] h = refl
keep-All p (x ∷ xs) h = rw (h.0, keep-All p xs h.1) refl

-- The members of a candidate are all unfenced, with its mean, and enough to serve its lead.
unfoldable pub MembersFree : List FenceKey → ℤ → CanonicalCandidate → Option (List ℤ) → Type 0
MembersFree keys expected c none = Unit
MembersFree keys expected c (some ms) =
    All (λ m. any (fences_member c.run_id c.lead_time_hours m) keys ≡ false) ms
    × (any (fences_mean c.run_id c.lead_time_hours) keys ≡ false)
    × (is_lead_servable (length ms) expected default_threshold ≡ true)

-- No key fences anything of a candidate.
unfoldable pub IsFree : List FenceKey → Bool → ℤ → CanonicalCandidate → Type 0
unfolding MembersFree
IsFree keys ens expected c =
    All (λ v. any (fences_variable c.run_id c.lead_time_hours v) keys ≡ false) c.variables
    × (ens ≡ true → MembersFree keys expected c c.member_indices)

free-variables :
    (keys : List FenceKey) (ens : Bool) (expected : ℤ) (c : CanonicalCandidate)
    → IsFree keys ens expected c
    → active_variables (build_fence_index keys) c ≡ c.variables
unfolding IsFree
free-variables keys ens expected c h = keep-All _ c.variables (
    All-map _ _
      (λ v e. ground (arith, e, (index_refines_scan keys c.run_id c.lead_time_hours v (pos 0)).0)) _
      h.0)

free-members :
    (keys : List FenceKey) (expected : ℤ) (c : CanonicalCandidate) (ms : List ℤ)
    → MembersFree keys expected c (some ms)
    → available_members (build_fence_index keys) c ms ≡ ms
unfolding MembersFree
free-members keys expected c ms h = keep-All _ ms (
    All-map _ _
      (λ m e. ground (arith, e, (index_refines_scan keys c.run_id c.lead_time_hours [] m).1)) _ h.0)

free-products :
    (keys : List FenceKey) (expected : ℤ) (c : CanonicalCandidate) (ms : List ℤ)
    → MembersFree keys expected c (some ms)
    → active_products (build_fence_index keys) c ≡ c.product_types
unfolding MembersFree
free-products keys expected c ms h =
    rw ((index_refines_scan keys c.run_id c.lead_time_hours [] (pos 0)).2 ∙ h.1) refl

empty-or_not : (b : Bool) → (not b && b) ≡ false
empty-or_not true = refl
empty-or_not false = refl

free-plain :
    (keys : List FenceKey) (ens : Bool) (expected : ℤ) (c : CanonicalCandidate)
    → IsFree keys ens expected c
    → narrow_plain (build_fence_index keys) c ≡ some c
free-plain keys ens expected c h =
    rw (narrow_plain, free-variables keys ens expected c h, empty-or_not (is_empty_set c.variables))
      refl

free-ensemble :
    (keys : List FenceKey) (expected : ℤ) (c : CanonicalCandidate) (ms : List ℤ)
    → IsFree keys true expected c
    → c.member_indices ≡ some ms
    → narrow_ensemble (build_fence_index keys) expected c ms ≡ some c
unfolding IsFree MembersFree
free-ensemble keys expected c ms h e =
    let m : MembersFree keys expected c (some ms) =
      subst (MembersFree keys expected c) e (h.1 refl) in
    rw
      (
        narrow_ensemble,
        free-members keys expected c ms m,
        free-products keys expected c ms m,
        free-variables keys true expected c h,
        m.2,
        sym e,
      )
      refl

free-narrow_by :
    (keys : List FenceKey) (ens : Bool) (expected : ℤ) (c : CanonicalCandidate)
    (members : Option (List ℤ))
    → IsFree keys ens expected c
    → c.member_indices ≡ members
    → narrow_by (build_fence_index keys) ens expected c members ≡ some c
free-narrow_by keys ens expected c none h e = free-plain keys ens expected c h
free-narrow_by keys true expected c (some ms) h e = free-ensemble keys expected c ms h e
free-narrow_by keys false expected c (some ms) h e = free-plain keys false expected c h

free-narrow :
    (keys : List FenceKey) (ens : Bool) (expected : ℤ) (c : CanonicalCandidate)
    → IsFree keys ens expected c
    → narrow (build_fence_index keys) ens expected c ≡ some c
unfolding narrow
free-narrow keys ens expected c h = free-narrow_by keys ens expected c c.member_indices h refl

free-narrow_all :
    (keys : List FenceKey) (ens : Bool) (expected : ℤ) (cs : List CanonicalCandidate)
    → All (IsFree keys ens expected) cs
    → narrow_all (build_fence_index keys) ens expected cs ≡ cs
unfolding narrow_all
free-narrow_all keys ens expected [] h = refl
free-narrow_all keys ens expected (c ∷ cs) h =
    rw (free-narrow keys ens expected c h.0, free-narrow_all keys ens expected cs h.1) refl

-- A valid time with candidates, of which nothing is fenced.
unfoldable pub TimeFree : List FenceKey → Bool → ℤ → ℕ × List CanonicalCandidate → Type 0
TimeFree keys ens expected (t, cs) = (cs ≢ []) × All (IsFree keys ens expected) cs

set_time-lem :
    (t : ℕ) (cs : List CanonicalCandidate) (rest : Dict ℕ (List CanonicalCandidate))
    → cs ≢ []
    → set_time t cs rest ≡ (t, cs) ∷ rest
set_time-lem t [] rest h = absurd (h refl)
set_time-lem t (c ∷ cs) rest h = refl

free-narrow_times :
    (keys : List FenceKey) (ens : Bool) (expected : ℤ) (d : Dict ℕ (List CanonicalCandidate))
    → All (TimeFree keys ens expected) d
    → narrow_times (build_fence_index keys) ens expected d ≡ d
unfolding narrow_times TimeFree
free-narrow_times keys ens expected [] h = refl
free-narrow_times keys ens expected ((t, cs) ∷ d) h =
    rw (free-narrow_all keys ens expected cs h.0.1, free-narrow_times keys ens expected d h.1)
      (set_time-lem t cs d h.0.0)

-- A dictionary of candidates, each of its times with one, of which no key fences anything, and
-- whose ensembles are servable, passes the filter unchanged.
pub free_unchanged :
    (d : Dict ℕ (List CanonicalCandidate)) (keys : List FenceKey) (ens : Bool) (expected : ℤ)
    → All (TimeFree keys ens expected) d
    → filter_candidates_by_physical_fence d keys ens expected ≡ d
unfolding filter_candidates_by_physical_fence filter_candidates_by_fence_index
free_unchanged d [] ens expected h = refl
free_unchanged d (key ∷ keys) ens expected h =
    rw (build_fence_index-has_keys key keys) (free-narrow_times (key ∷ keys) ens expected d h)
