-- ===== src/Domain/Horizon/Longest.antt =====
-- The longest lead of one model and of several.
use weather.Common.{
  ℕ, ◌≤◌, ◌≡◌, ◌≢◌, refl, sym, subst, true, Option, none, some, List, [], ◌∷◌, max, arith, All,
  elem, get_last?, Option-cases, inl, inr,
}
use weather.Common.Result.{ok, >>=-eq-ok}
use weather.Common.Text.{Text, normalize}
use weather.Common.Dict.{lookup, text_key, pair_key}
use weather.Domain.Horizon.{
  Registry, canonical_lead_time_hours, model_max_lead_hours, max_leads, maximum, greatest,
  max_model_lead_hours,
}
use weather.Domain.Horizon.Contract.{IsIncreasing, IsHorizon, IsValid, lookup-All}

query-IsHorizon :
    (r : Registry) (m : Text) (version : Option Text) (leads : List ℕ)
    → IsValid r
    → canonical_lead_time_hours r m version none ≡ ok leads
    → IsHorizon leads
unfolding canonical_lead_time_hours
query-IsHorizon r m none leads h e =
    lookup-All IsHorizon (normalize m) leads r.canonical_horizons h.canonical_valid (ground arith)
query-IsHorizon r m (some v) leads h e =
    elim (Option-cases (lookup (normalize m, normalize v) r.version_horizons)) [
      | inl missing ↦
          lookup-All IsHorizon (normalize m) leads r.canonical_horizons h.canonical_valid
            (ground arith)
      | inr (found, eq) ↦
          lookup-All IsHorizon (normalize m, normalize v) leads r.version_horizons h.version_valid
            (ground arith)
    ]

-- The last of an ascending list is its greatest.
last_greatest :
    (x : ℕ) (xs : List ℕ)
    → IsIncreasing (x ∷ xs)
    → (last : ℕ) × (get_last? (x ∷ xs) ≡ some last)
      × (elem last (x ∷ xs) ≡ true)
      × All (λ l. l ≤ last) (x ∷ xs)
last_greatest x [] h = (x, refl, ground arith, (omega arith, tt))
last_greatest x (y ∷ xs) h =
    let (last, e, found, below) = last_greatest y xs h.1 in
    (last, e, ground arith, (omega (arith, h.0.0, below.0), below))

-- In a valid registry the longest lead of a known model is the greatest of its horizon, and the
-- call never fails on an empty sequence: without a default it raises only for an unknown model.
pub model_max_lead-IsGreatest :
    (r : Registry) (m : Text) (version : Option Text) (leads : List ℕ)
    → IsValid r
    → canonical_lead_time_hours r m version none ≡ ok leads
    → (last : ℕ) × (model_max_lead_hours r m version none ≡ ok last)
      × (elem last leads ≡ true)
      × All (λ l. l ≤ last) leads
unfolding model_max_lead_hours
model_max_lead-IsGreatest r m version [] h e = absurd ((query-IsHorizon r m version [] h e).0 refl)
model_max_lead-IsGreatest r m version (x ∷ xs) h e =
    let (last, found, member, below) =
      last_greatest x xs (query-IsHorizon r m version (x ∷ xs) h e).1 in
    (last, rw (e, found) refl, member, below)

maximum-ge : (best : ℕ) (xs : List ℕ) → (best ≤ maximum best xs) × All (λ x. x ≤ maximum best xs) xs
maximum-ge best [] = (omega arith, tt)
maximum-ge best (x ∷ xs) =
    let (a, b) = maximum-ge (max best x) xs in (omega arith, (omega arith, b))

-- Each model's own longest lead is at most `top`.
abbrev pub AllWithin : Registry → Option Text → Option ℕ → ℕ → List Text → Type 0
AllWithin r version d top models =
    All (λ m. (lead : ℕ) × (model_max_lead_hours r m version d ≡ ok lead) × (lead ≤ top)) models

max_leads-AllWithin :
    (r : Registry) (models : List Text) (version : Option Text) (d : Option ℕ) (leads : List ℕ)
    (top : ℕ)
    → max_leads r models version d ≡ ok leads
    → All (λ l. l ≤ top) leads
    → AllWithin r version d top models
unfolding max_leads
max_leads-AllWithin r [] version d leads top e h = tt
max_leads-AllWithin r (m ∷ ms) version d leads top e h =
    let (lead, p, q) = >>=-eq-ok (model_max_lead_hours r m version d) _ e in
    let (rest, p', q') = >>=-eq-ok (max_leads r ms version d) _ q in
    let eq : leads ≡ lead ∷ rest = cc in
    let h' : All (λ l. l ≤ top) (lead ∷ rest) = rw eq at h in
    ((lead, p, h'.0), max_leads-AllWithin r ms version d rest top p' h'.1)

within-max_leads :
    (r : Registry) (models : List Text) (version : Option Text) (d : Option ℕ) (leads : List ℕ)
    (top : ℕ)
    → max_leads r models version d ≡ ok leads
    → AllWithin r version d top models
    → All (λ l. l ≤ top) leads
unfolding max_leads
within-max_leads r [] version d [] top e h = tt
within-max_leads r [] version d (x ∷ leads) top e h = cc
within-max_leads r (m ∷ ms) version d leads top e h =
    let (lead, p, q) = >>=-eq-ok (model_max_lead_hours r m version d) _ e in
    let (rest, p', q') = >>=-eq-ok (max_leads r ms version d) _ q in
    let eq : leads ≡ lead ∷ rest = cc in
    let (lead', p'', le) = h.0 in
    let same : lead ≡ lead' = cc in
    rw eq (omega arith, within-max_leads r ms version d rest top p' h.1)

maximum-le :
    (best top : ℕ) (xs : List ℕ) → best ≤ top → All (λ x. x ≤ top) xs → maximum best xs ≤ top
maximum-le best top [] h k = h
maximum-le best top (x ∷ xs) h k = maximum-le (max best x) top xs (omega (arith, k.0)) k.1

greatest-bounds :
    (leads : List ℕ) (top : ℕ)
    → greatest leads ≡ ok top
    → All (λ l. l ≤ top) leads × ((bound : ℕ) → All (λ l. l ≤ bound) leads → top ≤ bound)
greatest-bounds [] top e = cc
greatest-bounds (x ∷ xs) top e =
    let eq : top ≡ maximum x xs = cc in
    subst
      (λ t. All (λ l. l ≤ t) (x ∷ xs) × ((bound : ℕ) → All (λ l. l ≤ bound) (x ∷ xs) → t ≤ bound))
      (sym eq) (maximum-ge x xs, λ bound h. maximum-le x bound xs h.0 h.1)

-- When `max_model_lead_hours` answers, some model was named, every model named has a longest
-- lead, and the answer is the least number that no longest lead exceeds.
pub max_model_lead-IsLeast :
    (r : Registry) (models : List Text) (version : Option Text) (d : Option ℕ) (top : ℕ)
    → max_model_lead_hours r models version d ≡ ok top
    → (models ≢ [])
      × AllWithin r version d top models
      × ((bound : ℕ) → AllWithin r version d bound models → top ≤ bound)
unfolding max_model_lead_hours max_leads
max_model_lead-IsLeast r [] version d top e = cc
max_model_lead-IsLeast r (m ∷ ms) version d top e =
    let (leads, p, q) = >>=-eq-ok (max_leads r (m ∷ ms) version d) _ e in
    let (above, least) = greatest-bounds leads top q in
    (
      λ h. cc,
      max_leads-AllWithin r (m ∷ ms) version d leads top p above,
      λ bound h. least bound (within-max_leads r (m ∷ ms) version d leads bound p h),
    )
