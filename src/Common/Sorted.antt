-- ===== src/Common/Sorted.antt =====
-- `sorted` of a set, for a test of the order and one of equality, and the order of texts.
use mathlib.Core.Path.{◌≡◌, refl, sym, ap, ◌∙◌, subst}
use mathlib.Core.Logic.{inl, inr}
use mathlib.Core.Bool.{Bool, true, false, ◌&&◌, ◌||◌}
use mathlib.Core.List.{List, [], ◌∷◌}
use native.Mathlib.Omega.{arith}
use weather.Common.Tests.{ltb, ◌==◌, if◌then◌else◌, Bool-cases}
use weather.Common.Lists.{any}
use weather.Common.Text.{Text, text_eq}

-- `<` on texts.
abbrev pub text_ltb : Text → Text → Bool
text_ltb s [] = false
text_ltb [] (d ∷ t) = true
text_ltb (c ∷ s) (d ∷ t) = ltb c d || (c == d && text_ltb s t)

-- `sorted(set(items))`, for a test of the order and one of equality.
abbrev pub insert_distinct {ℓ} :
    {A : Type ℓ} → (A → A → Bool) → (A → A → Bool) → A → List A → List A
insert_distinct less same x [] = x ∷ []
insert_distinct less same x (y ∷ ys) =
    if same x y then y ∷ ys else if less x y then x ∷ y ∷ ys else y ∷ insert_distinct less same x ys

abbrev pub sorted_set {ℓ} : {A : Type ℓ} → (A → A → Bool) → (A → A → Bool) → List A → List A
sorted_set less same [] = []
sorted_set less same (x ∷ xs) = insert_distinct less same x (sorted_set less same xs)

-- A test of some member of a set, where the test does not tell equal items apart.
pub any-insert_distinct {ℓ} :
    {A : Type ℓ} (less same : A → A → Bool) (p : A → Bool) (x : A) (xs : List A)
    → ((y : A) → same x y ≡ true → x ≡ y)
    → any p (insert_distinct less same x xs) ≡ (p x || any p xs)
any-insert_distinct less same p x [] s = refl
any-insert_distinct less same p x (y ∷ ys) s = elim (Bool-cases (same x y)) [
  | inl e ↦ rw e (let q : p x ≡ p y = ap p (s y e) in ground (arith, q))
  | inr n ↦ rw n (elim (Bool-cases (less x y)) [
    | inl before ↦ rw before refl
    | inr after ↦ rw after (ground (arith, any-insert_distinct less same p x ys s))
  ])
]

pub any-sorted_set {ℓ} :
    {A : Type ℓ} (less same : A → A → Bool) (p : A → Bool) (xs : List A)
    → ((x y : A) → same x y ≡ true → x ≡ y)
    → any p (sorted_set less same xs) ≡ any p xs
any-sorted_set less same p [] s = refl
any-sorted_set less same p (x ∷ xs) s =
    any-insert_distinct less same p x (sorted_set less same xs) (s x)
    ∙ ap (λ b. p x || b) (any-sorted_set less same p xs s)

-- Each item is less than the next one, so that none occurs twice.
abbrev pub Ascending {ℓ} : {A : Type ℓ} → (A → A → Bool) → List A → Type 0
Ascending less [] = Unit
Ascending less (x ∷ []) = Unit
Ascending less (x ∷ y ∷ ys) = (less x y ≡ true) × Ascending less (y ∷ ys)

module _ {ℓ} {A : Type ℓ} (less same : A → A → Bool)
    (total : (x y : A) → same x y ≡ false → less x y ≡ false → less y x ≡ true) where
  insert_after :
      (x y : A) (ys : List A)
      → same x y ≡ false
      → less x y ≡ false
      → insert_distinct less same x (y ∷ ys) ≡ y ∷ insert_distinct less same x ys
  insert_after x y ys n after = rw (n, after) refl

  insert_distinct-below :
      (z x : A) (ys : List A)
      → less z x ≡ true
      → Ascending less (z ∷ ys)
      → Ascending less (insert_distinct less same x ys)
      → Ascending less (z ∷ insert_distinct less same x ys)
  insert_distinct-below z x [] l h k = (l, k)
  insert_distinct-below z x (y ∷ ys) l h k = elim (Bool-cases (same x y)) [
    | inl e ↦ rw e h
    | inr n ↦ elim (Bool-cases (less x y)) [
      | inl before ↦ rw (n, before) (l, (before, h.1))
      | inr after ↦
          subst (λ (zs : List A). Ascending less (z ∷ zs)) (sym (insert_after x y ys n after))
            (h.0, subst (Ascending less) (insert_after x y ys n after) k)
    ]
  ]

  insert_distinct-Ascending :
      (x : A) (ys : List A) → Ascending less ys → Ascending less (insert_distinct less same x ys)
  insert_distinct-Ascending x [] h = tt
  insert_distinct-Ascending x (y ∷ ys) h = elim (Bool-cases (same x y)) [
    | inl e ↦ rw e h
    | inr n ↦ elim (Bool-cases (less x y)) [
      | inl before ↦ rw (n, before) (before, h)
      | inr after ↦
          rw (n, after)
            (insert_distinct-below y x ys (total x y n after) h
              (insert_distinct-Ascending x ys (tail y ys h)))
    ]
  ]
    where
      tail : (y : A) (ys : List A) → Ascending less (y ∷ ys) → Ascending less ys
      tail y [] h = tt
      tail y (z ∷ zs) h = h.1

  pub sorted_set-Ascending : (xs : List A) → Ascending less (sorted_set less same xs)
  sorted_set-Ascending [] = tt
  sorted_set-Ascending (x ∷ xs) =
      insert_distinct-Ascending x (sorted_set less same xs) (sorted_set-Ascending xs)

pub text_total : (s t : Text) → text_eq s t ≡ false → text_ltb s t ≡ false → text_ltb t s ≡ true
text_total [] [] e l = cc
text_total [] (d ∷ t) e l = cc
text_total (c ∷ s) [] e l = refl
text_total (c ∷ s) (d ∷ t) e l = ground (arith, e, l, text_total s t)
