-- ===== src/Domain/Canonical/Source.antt =====
-- canonical.py, `select_variable_source`: its recursion ends, and it takes the newest candidate
-- that can represent the variable.
use weather.Common.{
  subst, ℕ, suc, ◌≡◌, refl, sym, ap, ◌∙◌, inl, inr, Bool, true, false, ◌&&◌, ◌||◌, Option, none,
  some, List, [], ◌∷◌, ◌++◌, ltb, if◌then◌else◌, All, Bool-cases,
}
use weather.Common.Text.{Text, codes, text_eq, strip_lower}
use weather.Domain.Temporal.{is_precipitation_companion, requires_lead0_display_fallback}
use weather.Domain.Canonical.{
  CanonicalCandidate, find, carries, carries_wind, precipitation, effective_anchor, select_own,
  select_within, select_variable_source,
}

-- The first element with a test: none before it has it.
unfoldable pub IsFirst : {A : Type 0} → (A → Bool) → List A → A → Type 0
IsFirst {A = A} p xs x =
    (before : List A) × (after : List A) × (xs ≡ before ++ x ∷ after)
    × All (λ y. p y ≡ false) before
    × (p x ≡ true)

-- What a search over a list answers.
unfoldable pub IsSearch : {A : Type 0} → (A → Bool) → List A → Option A → Type 0
unfolding IsFirst
IsSearch p xs none = All (λ y. p y ≡ false) xs
IsSearch p xs (some x) = IsFirst p xs x

IsSearch-cons :
    {A : Type 0} (p : A → Bool) (y : A) (xs : List A) (found : Option A)
    → p y ≡ false
    → IsSearch p xs found
    → IsSearch p (y ∷ xs) found
unfolding IsSearch IsFirst
IsSearch-cons p y xs none n s = (n, s)
IsSearch-cons p y xs (some x) n s = (y ∷ s.0, s.1, ap (◌∷◌ y) s.2, (n, s.3), s.4)

pub find-IsSearch : {A : Type 0} (p : A → Bool) (xs : List A) → IsSearch p xs (find p xs)
unfolding IsSearch IsFirst
find-IsSearch p [] = tt
find-IsSearch p (y ∷ xs) = elim (Bool-cases (p y)) [
  | inl here ↦ rw here ([], xs, refl, tt, here)
  | inr gone ↦ rw gone (IsSearch-cons p y xs (find p xs) gone (find-IsSearch p xs))
]

-- Precipitation is no companion of itself.
pub precipitation-own : is_precipitation_companion (some precipitation) ≡ false
unfolding is_precipitation_companion strip_lower
precipitation-own = refl

within-own :
    (n : ℕ) (c : CanonicalCandidate) (cands : List CanonicalCandidate) (v : Text)
    (anchor : Option CanonicalCandidate)
    → is_precipitation_companion (some v) ≡ false
    → select_within (suc n) (c ∷ cands) v anchor
      ≡ some (select_own (c ∷ cands) v (effective_anchor anchor c))
unfolding select_within
within-own n c cands v anchor alone = rw alone refl

within-coupled :
    (n : ℕ) (c : CanonicalCandidate) (cands : List CanonicalCandidate) (v : Text)
    (anchor : Option CanonicalCandidate)
    → is_precipitation_companion (some v) ≡ true
    → select_within (suc (suc n)) (c ∷ cands) v anchor
      ≡ some (select_own (c ∷ cands) precipitation (effective_anchor anchor c))
unfolding select_within
within-coupled n c cands v anchor coupled =
    rw coupled (within-own n c cands precipitation anchor precipitation-own)

source-within :
    (cands : List CanonicalCandidate) (v : Text) (anchor source : Option CanonicalCandidate)
    → select_within 2 cands v anchor ≡ some source
    → select_variable_source cands v anchor ≡ source
unfolding select_variable_source
source-within cands v anchor source e = rw (select_variable_source, e) refl

-- The recursion is at most one call deep: a depth of two, or more, always ends with the result.
pub select_within_lem :
    (n : ℕ) (cands : List CanonicalCandidate) (v : Text) (anchor : Option CanonicalCandidate)
    → select_within (suc (suc n)) cands v anchor ≡ some (select_variable_source cands v anchor)
select_within_lem n [] v anchor = unfold select_within select_variable_source in refl
select_within_lem n (c ∷ cands) v anchor = elim (Bool-cases (is_precipitation_companion (some v))) [
  | inl y ↦
      within-coupled n c cands v anchor y
      ∙ ap some (sym (source-within _ v anchor _ (within-coupled 0 c cands v anchor y)))
  | inr n' ↦
      within-own (suc n) c cands v anchor n'
      ∙ ap some (sym (source-within _ v anchor _ (within-own 1 c cands v anchor n')))
]

-- Whether a candidate can represent a variable, for the anchor of its valid time: an interval
-- variable, or a companion of precipitation, needs a positive lead when the anchor is an analysis.
unfoldable pub represents : Text → CanonicalCandidate → CanonicalCandidate → Bool
represents v a c =
    let positive = ltb 0 a.lead_time_hours || ltb 0 c.lead_time_hours in
    if is_precipitation_companion (some v)
    then positive && carries precipitation c
    else if requires_lead0_display_fallback (some v)
    then positive && carries v c
    else if text_eq v (codes "wind_10m")
    then carries_wind c
    else carries v c

find-same :
    {A : Type 0} (p q : A → Bool) (xs : List A) → ((x : A) → p x ≡ q x) → find p xs ≡ find q xs
find-same p q [] e = refl
find-same p q (x ∷ xs) e = rw (e x, find-same p q xs e) refl

-- For a variable that is no companion, the body searches by `represents`.
own-search :
    (cands : List CanonicalCandidate) (v : Text) (a : CanonicalCandidate)
    → is_precipitation_companion (some v) ≡ false
    → select_own cands v a ≡ find (represents v a) cands
unfolding select_own represents
own-search cands v a alone = elim (Bool-cases (requires_lead0_display_fallback (some v))) [
  | inl interval ↦ elim (Bool-cases (ltb 0 a.lead_time_hours)) [
    | inl far ↦ rw (interval, far) (find-same _ _ cands (λ c. rw (alone, interval, far) refl))
    | inr near ↦ rw (interval, near) (find-same _ _ cands (λ c. rw (alone, interval, near) refl))
  ]
  | inr plain ↦ elim (Bool-cases (text_eq v (codes "wind_10m"))) [
    | inl wind ↦ rw (plain, wind) (find-same _ _ cands (λ c. rw (alone, plain, wind) refl))
    | inr other ↦ rw (plain, other) (find-same _ _ cands (λ c. rw (alone, plain, other) refl))
  ]
]

precipitation-interval : requires_lead0_display_fallback (some precipitation) ≡ true
unfolding requires_lead0_display_fallback strip_lower
precipitation-interval = refl

-- What represents a companion is what represents precipitation.
represents-companion :
    (v : Text) (a c : CanonicalCandidate)
    → is_precipitation_companion (some v) ≡ true
    → represents precipitation a c ≡ represents v a c
unfolding represents
represents-companion v a c coupled = rw (precipitation-own, precipitation-interval, coupled) refl

pub source-find :
    (c : CanonicalCandidate) (cands : List CanonicalCandidate) (v : Text)
    (anchor : Option CanonicalCandidate)
    → select_variable_source (c ∷ cands) v anchor
      ≡ find (represents v (effective_anchor anchor c)) (c ∷ cands)
source-find c cands v anchor = elim (Bool-cases (is_precipitation_companion (some v))) [
  | inl y ↦
      source-within _ v anchor _ (within-coupled 0 c cands v anchor y)
      ∙ own-search (c ∷ cands) precipitation _ precipitation-own
      ∙ find-same _ _ (c ∷ cands) (λ d. represents-companion v (effective_anchor anchor c) d y)
  | inr n ↦
      source-within _ v anchor _ (within-own 1 c cands v anchor n) ∙ own-search (c ∷ cands) v _ n
]

pub companion-source :
    (c : CanonicalCandidate) (cands : List CanonicalCandidate) (v : Text)
    (anchor : Option CanonicalCandidate)
    → is_precipitation_companion (some v) ≡ true
    → select_variable_source (c ∷ cands) v anchor
      ≡ select_variable_source (c ∷ cands) precipitation anchor
companion-source c cands v anchor y =
    source-within _ v anchor _ (within-coupled 0 c cands v anchor y)
    ∙ sym (
        source-within _ precipitation anchor _
          (within-own 1 c cands precipitation anchor precipitation-own))

-- The source of a variable at a valid time is the newest candidate that can represent it, and
-- there is none exactly when no candidate can: a companion of precipitation follows
-- precipitation, an interval variable of an analysis comes from a positive lead, and synthetic
-- wind has both of its components in the one source.
pub source-IsSearch :
    (c : CanonicalCandidate) (cands : List CanonicalCandidate) (v : Text)
    (anchor : Option CanonicalCandidate)
    → IsSearch
        (represents v (effective_anchor anchor c))
        (c ∷ cands)
        (select_variable_source (c ∷ cands) v anchor)
source-IsSearch c cands v anchor =
    let a = effective_anchor anchor c in
    subst (IsSearch (represents v a) (c ∷ cands)) (sym (source-find c cands v anchor))
      (find-IsSearch (represents v a) (c ∷ cands))
