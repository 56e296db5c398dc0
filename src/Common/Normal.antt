-- ===== src/Common/Normal.antt =====
-- The normal form of a registry's keys, `s.lower().strip()`, is its own normal form.
use Prim.Native.Nat.{ℕ}
use mathlib.Core.Path.{◌≡◌, refl, sym, ap, ◌∙◌, subst}
use mathlib.Core.Logic.{inl, inr}
use mathlib.Core.Bool.{false}
use mathlib.Core.List.{[], ◌∷◌}
use native.Mathlib.Omega.{arith}
use weather.Common.Tests.{if◌then◌else◌, Bool-cases}
use weather.Common.Text.{Text, is_space, lower_code, lower, lstrip, rstrip, normalize}

lower_code_idem : (c : ℕ) → lower_code (lower_code c) ≡ lower_code c
lower_code_idem c = ground arith

lower_idem : (s : Text) → lower (lower s) ≡ lower s
unfolding lower
lower_idem [] = refl
lower_idem (c ∷ s) = rw (lower_code_idem c) (ap (λ (t : Text). lower_code c ∷ t) (lower_idem s))

-- Lowering a text that is stripped strips it in the same places where it was low before.
IsLower : Text → Type 0
IsLower s = lower s ≡ s

low-tail : (c : ℕ) (s : Text) → IsLower (c ∷ s) → IsLower s
unfolding lower IsLower
low-tail c s h = cc

low-head : (c : ℕ) (s : Text) → IsLower (c ∷ s) → lower_code c ≡ c
unfolding lower IsLower
low-head c s h = cc

low-cons : (c : ℕ) (s : Text) → lower_code c ≡ c → IsLower s → IsLower (c ∷ s)
unfolding lower IsLower
low-cons c s e h = cc

lstrip-IsLower : (s : Text) → IsLower s → IsLower (lstrip s)
unfolding lstrip
lstrip-IsLower [] h = h
lstrip-IsLower (c ∷ s) h = elim (Bool-cases (is_space c)) [
  | inl space ↦ rw space (lstrip-IsLower s (low-tail c s h))
  | inr other ↦ rw other h
]

-- A text with one more character before a stripped one.
abbrev before : ℕ → Text → Text
before c [] = if is_space c then [] else c ∷ []
before c (d ∷ r) = c ∷ d ∷ r

before-kept : (c : ℕ) → is_space c ≡ false → before c [] ≡ c ∷ []
before-kept c other = rw other refl

rstrip-kept : (c : ℕ) → is_space c ≡ false → rstrip (c ∷ []) ≡ c ∷ []
unfolding rstrip
rstrip-kept c other = before-kept c other

lstrip-kept : (c : ℕ) (s : Text) → is_space c ≡ false → lstrip (c ∷ s) ≡ c ∷ s
unfolding lstrip
lstrip-kept c s other = rw other refl

before-IsLower : (c : ℕ) (s : Text) → lower_code c ≡ c → IsLower s → IsLower (before c s)
unfolding lower IsLower
before-IsLower c [] e h = elim (Bool-cases (is_space c)) [
  | inl space ↦ rw space refl
  | inr other ↦ rw other (low-cons c [] e refl)
]
before-IsLower c (d ∷ r) e h = low-cons c (d ∷ r) e h

rstrip-IsLower : (s : Text) → IsLower s → IsLower (rstrip s)
unfolding lower rstrip IsLower
rstrip-IsLower [] h = refl
rstrip-IsLower (c ∷ s) h =
    before-IsLower c (rstrip s) (low-head c s h) (rstrip-IsLower s (low-tail c s h))

rstrip-before_stripped : (c : ℕ) (s : Text) → rstrip s ≡ s → rstrip (before c s) ≡ before c s
unfolding rstrip
rstrip-before_stripped c [] h = elim (Bool-cases (is_space c)) [
  | inl space ↦ rw space refl
  | inr other ↦ subst (λ (t : Text). rstrip t ≡ t) (sym (before-kept c other)) (rstrip-kept c other)
]
rstrip-before_stripped c (d ∷ r) h = ap (before c) h

rstrip_idem : (s : Text) → rstrip (rstrip s) ≡ rstrip s
unfolding rstrip
rstrip_idem [] = refl
rstrip_idem (c ∷ s) = rstrip-before_stripped c (rstrip s) (rstrip_idem s)

-- A text that begins with no space, and keeps its first character when it loses its last spaces.
lstrip-before : (c : ℕ) (s : Text) → is_space c ≡ false → lstrip (before c s) ≡ before c s
lstrip-before c [] other =
    subst (λ (t : Text). lstrip t ≡ t) (sym (before-kept c other)) (lstrip-kept c [] other)
lstrip-before c (d ∷ r) other = lstrip-kept c (d ∷ r) other

lstrip-rstrip-lstrip : (s : Text) → lstrip (rstrip (lstrip s)) ≡ rstrip (lstrip s)
unfolding lstrip rstrip
lstrip-rstrip-lstrip [] = refl
lstrip-rstrip-lstrip (c ∷ s) = elim (Bool-cases (is_space c)) [
  | inl space ↦ rw space (lstrip-rstrip-lstrip s)
  | inr other ↦ rw other (lstrip-before c (rstrip s) other)
]

pub normalize_idem : (s : Text) → normalize (normalize s) ≡ normalize s
unfolding normalize IsLower
normalize_idem s =
    let low : IsLower (rstrip (lstrip (lower s))) =
      rstrip-IsLower (lstrip (lower s)) (lstrip-IsLower (lower s) (lower_idem s)) in
    ap (λ (t : Text). rstrip (lstrip t)) low
    ∙ ap rstrip (lstrip-rstrip-lstrip (lower s))
    ∙ rstrip_idem (lstrip (lower s))
