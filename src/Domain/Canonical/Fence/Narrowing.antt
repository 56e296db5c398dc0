-- ===== src/Domain/Canonical/Fence/Narrowing.antt =====
-- canonical.py, the filters: what is left of the candidates under a set of fenced keys.
use weather.Common.{
  ℕ, subst, ◌≡◌, ◌≢◌, refl, sym, ◌∙◌, Bool, true, false, not, Option, none, some, List, [], ◌∷◌,
  any, ◌&&◌, ◌||◌, Bool-cases, inl, inr, arith, All, All-map, All-keep, length,
}
use weather.Common.Int.{ℤ, pos}
use weather.Common.Text.{Text, codes, text_eq, text_eq_iff}
use weather.Common.Dict.{Dict}
use weather.Domain.Coverage.{is_lead_servable, default_threshold}
use weather.Domain.Reclamation.{has}
use weather.Domain.Canonical.{CanonicalCandidate, carries, is_empty_set}
use weather.Domain.Canonical.Fence.{
  FenceKey, FenceIndex, in_variables, in_members, build_fence_index, narrow, narrow_all, narrow_by,
  narrow_times, narrow_ensemble, narrow_plain, available_members, active_variables, active_products,
  append_kept, set_time, filter_candidates_by_fence_index, filter_candidates_by_physical_fence,
}
use weather.Domain.Canonical.Fence.Index.{
  fences_variable, fences_member, fences_mean, index_refines_scan, build_fence_index-has_keys,
}

-- The members of a candidate hold no fenced one and are enough to serve its lead.
unfoldable pub MembersServe : List FenceKey → ℤ → CanonicalCandidate → Option (List ℤ) → Type 0
MembersServe keys expected c none = Unit
MembersServe keys expected c (some ms) =
    All (λ m. any (fences_member c.run_id c.lead_time_hours m) keys ≡ false) ms
    × (is_lead_servable (length ms) expected default_threshold ≡ true)
    × (any (fences_mean c.run_id c.lead_time_hours) keys ≡ true
        → All (λ p. text_eq p (codes "ensemble_mean") ≡ false) c.product_types)

-- A candidate that lists variables carries no fenced one, in the sense of the selection, in which
-- an empty list stands for all variables; and of an ensemble the members serve.
unfoldable pub IsUnfenced : List FenceKey → Bool → ℤ → CanonicalCandidate → Type 0
unfolding MembersServe
IsUnfenced keys ens expected c =
    ((v : Text)
      → any (fences_variable c.run_id c.lead_time_hours v) keys ≡ true
      → c.variables ≢ []
      → carries v c ≡ false)
    × (ens ≡ false → c.variables ≢ [])
    × (ens ≡ true → MembersServe keys expected c c.member_indices)

-- What the index does not hold, no key fences.
unfenced-variable :
    (keys : List FenceKey) (run : Text) (lead : ℕ) (v : Text)
    → not (in_variables (build_fence_index keys) run lead v) ≡ true
    → any (fences_variable run lead v) keys ≡ false
unfenced-variable keys run lead v h = ground (arith, (index_refines_scan keys run lead v (pos 0)).0)

unfenced-member :
    (keys : List FenceKey) (run : Text) (lead : ℕ) (m : ℤ)
    → not (in_members (build_fence_index keys) run lead m) ≡ true
    → any (fences_member run lead m) keys ≡ false
unfenced-member keys run lead m h = ground (arith, (index_refines_scan keys run lead [] m).1)

active-All :
    (keys : List FenceKey) (c : CanonicalCandidate)
    → All
        (λ v. any (fences_variable c.run_id c.lead_time_hours v) keys ≡ false)
        (active_variables (build_fence_index keys) c)
active-All keys c =
    All-map _ _ (unfenced-variable keys c.run_id c.lead_time_hours) _ (All-keep _ c.variables)

available-All :
    (keys : List FenceKey) (c : CanonicalCandidate) (ms : List ℤ)
    → All
        (λ m. any (fences_member c.run_id c.lead_time_hours m) keys ≡ false)
        (available_members (build_fence_index keys) c ms)
available-All keys c ms =
    All-map _ _ (unfenced-member keys c.run_id c.lead_time_hours) _ (All-keep _ ms)

products-All :
    (keys : List FenceKey) (c : CanonicalCandidate)
    → any (fences_mean c.run_id c.lead_time_hours) keys ≡ true
    → All
        (λ p. text_eq p (codes "ensemble_mean") ≡ false)
        (active_products (build_fence_index keys) c)
products-All keys c fenced =
    rw ((index_refines_scan keys c.run_id c.lead_time_hours [] (pos 0)).2 ∙ fenced) (
      All-map _ _ (λ p h. ground arith) _
        (All-keep (λ p. not (text_eq p (codes "ensemble_mean"))) c.product_types))

-- A list without a fenced variable does not carry one, unless it is empty.
uncarried :
    (keys : List FenceKey) (run : Text) (lead : ℕ) (v : Text) (vs : List Text)
    → All (λ w. any (fences_variable run lead w) keys ≡ false) vs
    → any (fences_variable run lead v) keys ≡ true
    → has vs v ≡ false
uncarried keys run lead v [] h e = refl
uncarried keys run lead v (w ∷ vs) h e = elim (Bool-cases (text_eq v w)) [
  | inl same ↦
      let not_fenced =
        subst (λ (u : Text). any (fences_variable run lead u) keys ≡ false)
          (sym ((text_eq_iff v w).0 same)) h.0 in
      absurd (ground (arith, e, not_fenced))
  | inr other ↦ rw other (uncarried keys run lead v vs h.1 e)
]

listed : (vs : List Text) (b : Bool) → vs ≢ [] → b ≡ false → (is_empty_set vs || b) ≡ false
listed [] b n e = absurd (n refl)
listed (v ∷ vs) b n e = e

kept_listed :
    (vs active : List Text)
    → vs ≢ []
    → (not (is_empty_set vs) && is_empty_set active) ≡ false
    → active ≢ []
kept_listed [] active n e = absurd (n refl)
kept_listed (v ∷ vs) [] n e = cc
kept_listed (v ∷ vs) (w ∷ active) n e = λ z. cc

some-inj : {A : Type 0} {a b : A} → some a ≡ some b → a ≡ b
some-inj e = cc

plain-kept :
    (idx : FenceIndex) (c : CanonicalCandidate)
    → (not (is_empty_set c.variables) && is_empty_set (active_variables idx c)) ≡ false
    → narrow_plain idx c ≡ some (record c { variables = active_variables idx c })
plain-kept idx c kept = rw (narrow_plain, kept) refl

plain-listed :
    (idx : FenceIndex) (c c' : CanonicalCandidate)
    → c.variables ≢ []
    → narrow_plain idx c ≡ some c'
    → c'.variables ≢ []
plain-listed idx c c' n e =
    elim (Bool-cases (not (is_empty_set c.variables) && is_empty_set (active_variables idx c))) [
      | inl dropped ↦ absurd (ground (arith, e, dropped))
      | inr kept ↦
          subst (λ (b : CanonicalCandidate). b.variables ≢ [])
            (some-inj (sym (plain-kept idx c kept) ∙ e))
            (kept_listed c.variables (active_variables idx c) n kept)
    ]

plain-variables :
    (keys : List FenceKey) (c c' : CanonicalCandidate)
    → narrow_plain (build_fence_index keys) c ≡ some c'
    → (c' ≡ record c { variables = active_variables (build_fence_index keys) c })
plain-variables keys c c' e = ground arith

abbrev plain_narrowed : FenceIndex → CanonicalCandidate → CanonicalCandidate
plain_narrowed idx c = record c { variables = active_variables idx c }

plain-IsUnfenced :
    (keys : List FenceKey) (ens : Bool) (expected : ℤ) (c c' : CanonicalCandidate)
    → c.variables ≢ []
    → (ens ≡ true → c.member_indices ≡ none)
    → narrow_plain (build_fence_index keys) c ≡ some c'
    → IsUnfenced keys ens expected c'
unfolding IsUnfenced MembersServe
plain-IsUnfenced keys ens expected c c' n alone e =
    subst (IsUnfenced keys ens expected) (sym (plain-variables keys c c' e)) (
      λ v f m.
          listed (active_variables (build_fence_index keys) c) _ m
            (uncarried keys c.run_id c.lead_time_hours v _ (active-All keys c) f),
      λ t.
          subst (λ (b : CanonicalCandidate). b.variables ≢ []) (plain-variables keys c c' e)
            (plain-listed (build_fence_index keys) c c' n e),
      λ t.
          subst (MembersServe keys expected (plain_narrowed (build_fence_index keys) c))
            (sym (alone t)) tt,
    )

abbrev narrowed : FenceIndex → CanonicalCandidate → List ℤ → CanonicalCandidate
narrowed idx c ms = record c {
  product_types = active_products idx c;
  variables = active_variables idx c;
  member_indices = some (available_members idx c ms);
}

ensemble-narrowed :
    (idx : FenceIndex) (expected : ℤ) (c c' : CanonicalCandidate) (ms : List ℤ)
    → narrow_ensemble idx expected c ms ≡ some c'
    → (is_lead_servable (length (available_members idx c ms)) expected default_threshold ≡ true)
      × (c' ≡ narrowed idx c ms)
ensemble-narrowed idx expected c c' ms e = ground arith

ensemble-IsUnfenced :
    (keys : List FenceKey) (expected : ℤ) (c c' : CanonicalCandidate) (ms : List ℤ)
    → narrow_ensemble (build_fence_index keys) expected c ms ≡ some c'
    → IsUnfenced keys true expected c'
unfolding IsUnfenced MembersServe
ensemble-IsUnfenced keys expected c c' ms e =
    let (served, same) = ensemble-narrowed (build_fence_index keys) expected c c' ms e in
    subst (IsUnfenced keys true expected) (sym same) (
      λ v f m.
          listed (active_variables (build_fence_index keys) c) _ m
            (uncarried keys c.run_id c.lead_time_hours v _ (active-All keys c) f),
      λ t. cc,
      λ t. (available-All keys c ms, served, products-All keys c),
    )

narrow_by-IsUnfenced :
    (keys : List FenceKey) (ens : Bool) (expected : ℤ) (c c' : CanonicalCandidate)
    (members : Option (List ℤ))
    → c.variables ≢ []
    → c.member_indices ≡ members
    → narrow_by (build_fence_index keys) ens expected c members ≡ some c'
    → IsUnfenced keys ens expected c'
narrow_by-IsUnfenced keys ens expected c c' none l e n =
    plain-IsUnfenced keys ens expected c c' l (λ t. e) n
narrow_by-IsUnfenced keys true expected c c' (some ms) l e n =
    ensemble-IsUnfenced keys expected c c' ms n
narrow_by-IsUnfenced keys false expected c c' (some ms) l e n =
    plain-IsUnfenced keys false expected c c' l (λ t. absurd (ground arith)) n

narrow-IsUnfenced :
    (keys : List FenceKey) (ens : Bool) (expected : ℤ) (c c' : CanonicalCandidate)
    → c.variables ≢ []
    → narrow (build_fence_index keys) ens expected c ≡ some c'
    → IsUnfenced keys ens expected c'
unfolding narrow
narrow-IsUnfenced keys ens expected c c' l n =
    narrow_by-IsUnfenced keys ens expected c c' c.member_indices l refl n

append_kept-All :
    (P : CanonicalCandidate → Type 0) (kept : Option CanonicalCandidate)
    (rest : List CanonicalCandidate)
    → ((c : CanonicalCandidate) → kept ≡ some c → P c)
    → All P rest
    → All P (append_kept kept rest)
append_kept-All P none rest f h = h
append_kept-All P (some c) rest f h = (f c refl, h)

-- A candidate that says which variables it has.
abbrev pub Lists : CanonicalCandidate → Type 0
Lists c = c.variables ≢ []

narrow_all-All :
    (keys : List FenceKey) (ens : Bool) (expected : ℤ) (cs : List CanonicalCandidate)
    → All Lists cs
    → All (IsUnfenced keys ens expected) (narrow_all (build_fence_index keys) ens expected cs)
unfolding narrow_all
narrow_all-All keys ens expected [] l = tt
narrow_all-All keys ens expected (c ∷ cs) l =
    append_kept-All _ (narrow (build_fence_index keys) ens expected c) _
      (λ c'. narrow-IsUnfenced keys ens expected c c' l.0) (narrow_all-All keys ens expected cs l.1)

-- A valid time with candidates that are left unfenced.
unfoldable pub Served : List FenceKey → Bool → ℤ → ℕ × List CanonicalCandidate → Type 0
Served keys ens expected (t, cs) = (cs ≢ []) × All (IsUnfenced keys ens expected) cs

set_time-All :
    (keys : List FenceKey) (ens : Bool) (expected : ℤ) (t : ℕ) (left : List CanonicalCandidate)
    (rest : Dict ℕ (List CanonicalCandidate))
    → All (IsUnfenced keys ens expected) left
    → All (Served keys ens expected) rest
    → All (Served keys ens expected) (set_time t left rest)
unfolding Served
set_time-All keys ens expected t [] rest h k = k
set_time-All keys ens expected t (c ∷ cs) rest h k = (((λ z. cc), h), k)

-- Every candidate of every valid time says which variables it has.
abbrev pub AllList : Dict ℕ (List CanonicalCandidate) → Type 0
AllList [] = Unit
AllList ((t, cs) ∷ d) = All Lists cs × AllList d

narrow_times-All :
    (keys : List FenceKey) (ens : Bool) (expected : ℤ) (d : Dict ℕ (List CanonicalCandidate))
    → AllList d
    → All (Served keys ens expected) (narrow_times (build_fence_index keys) ens expected d)
unfolding narrow_times Served
narrow_times-All keys ens expected [] l = tt
narrow_times-All keys ens expected ((t, cs) ∷ d) l =
    set_time-All keys ens expected t (narrow_all (build_fence_index keys) ens expected cs) _
      (narrow_all-All keys ens expected cs l.0) (narrow_times-All keys ens expected d l.1)

-- Under a set of fenced keys that is not empty, and for candidates each of which lists a variable:
-- every valid time that is left has a candidate, and a candidate that is left and lists a variable
-- carries no fenced one, in the sense of the selection, which reads an empty list as all
-- variables. A candidate that is left of a model that is no ensemble lists a variable; one of an
-- ensemble may list none, but the members that are left to it are unfenced and enough to serve
-- the lead, and a fenced mean is no longer among its products.
pub filtered-Served :
    (d : Dict ℕ (List CanonicalCandidate)) (key : FenceKey) (keys : List FenceKey) (ens : Bool)
    (expected : ℤ)
    → AllList d
    → All
        (Served (key ∷ keys) ens expected)
        (filter_candidates_by_physical_fence d (key ∷ keys) ens expected)
unfolding filter_candidates_by_physical_fence filter_candidates_by_fence_index
filtered-Served d key keys ens expected l =
    rw (build_fence_index-has_keys key keys) (narrow_times-All (key ∷ keys) ens expected d l)
