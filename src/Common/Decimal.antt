-- ===== src/Common/Decimal.antt =====
-- Decimal numbers in text: `str`, the format `0Nd`, and `int`.
use native.Mathlib.Nat.{pow-suc}
use Prim.Native.Nat.{ℕ, zero, suc, ◌+◌, ◌-◌, ◌*◌, ◌/◌, ◌%◌, ◌^◌, ◌≤◌, ◌<◌}
use mathlib.Core.Path.{◌≡◌, refl, ◌∙◌}
use mathlib.Core.Logic.{inl, inr}
use mathlib.Core.Bool.{Bool, true, ◌&&◌}
use mathlib.Core.Option.{Option, none, some}
use mathlib.Core.List.{[], ◌∷◌, ◌++◌}
use native.Mathlib.Omega.{arith}
use weather.Common.Tests.{leb, ltb, if◌then◌else◌, Bool-cases}
use weather.Common.Lists.{length, replicate, All, All-append, length-append}
use weather.Common.Text.{Text}

-- The digits of `n`, most significant first, for a fuel above `n`.
pub digits : ℕ → ℕ → Text
digits zero n = []
digits (suc fuel) n =
    let rest = digits fuel (n / 10) in
    if ltb n 10 then (48 + n) ∷ [] else rest ++ (48 + n % 10) ∷ []

unfoldable pub decimal : ℕ → Text
unfolding digits
decimal n = digits (suc n) n

-- `f"{n:0wd}"`
unfoldable pub padded : ℕ → ℕ → Text
unfolding decimal
padded w n = replicate (w - length (decimal n)) 48 ++ decimal n

abbrev pub is_digit : ℕ → Bool
is_digit c = leb 48 c && leb c 57

pub parse_from : ℕ → Text → Option ℕ
parse_from acc [] = some acc
parse_from acc (c ∷ cs) =
    let rest = parse_from (acc * 10 + (c - 48)) cs in if is_digit c then rest else none

-- `int(text)` of a text of digits; the signs, spaces and underscores that `int` also takes do not
-- occur in what the code passes to it.
unfoldable pub parse_int : Text → Option ℕ
unfolding parse_from
parse_int [] = none
parse_int (c ∷ cs) = parse_from 0 (c ∷ cs)

parse_from-snoc :
    (acc v c : ℕ) (xs : Text)
    → parse_from acc xs ≡ some v
    → is_digit c ≡ true
    → parse_from acc (xs ++ c ∷ []) ≡ some (v * 10 + (c - 48))
unfolding parse_from
parse_from-snoc acc v c [] e d = ground arith
parse_from-snoc acc v c (x ∷ xs) e d = elim (Bool-cases (is_digit x)) [
  | inl y ↦ rw y (parse_from-snoc (acc * 10 + (x - 48)) v c xs (ground arith) d)
  | inr n ↦ absurd (ground arith)
]

parse_from-digits : (f n : ℕ) → n < f → parse_from 0 (digits f n) ≡ some n
unfolding digits
parse_from-digits zero n h = absurd (omega arith)
parse_from-digits (suc f) n h = elim (Bool-cases (ltb n 10)) [
  | inl small ↦ rw small (unfold parse_from in (ground arith))
  | inr big ↦ rw big (
      parse_from-snoc 0 (n / 10) (48 + n % 10) (digits f (n / 10))
        (parse_from-digits f (n / 10) (ground arith)) (ground arith)
      ∙ ground arith)
]

parse_from-zeros : (k : ℕ) (xs : Text) → parse_from 0 (replicate k 48 ++ xs) ≡ parse_from 0 xs
unfolding parse_from
parse_from-zeros zero xs = refl
parse_from-zeros (suc k) xs = parse_from-zeros k xs

parse_int-eq : (xs : Text) → 0 < length xs → parse_int xs ≡ parse_from 0 xs
unfolding parse_int
parse_int-eq [] h = absurd (omega arith)
parse_int-eq (c ∷ cs) h = refl

length-digits :
    (f n k : ℕ) → n < f → n < 10 ^ suc k → (1 ≤ length (digits f n)) × (length (digits f n) ≤ suc k)
unfolding digits
length-digits zero n k h b = absurd (omega arith)
length-digits (suc f) n zero h b = ground (arith, pow-suc 10 zero)
length-digits (suc f) n (suc k) h b = elim (Bool-cases (ltb n 10)) [
  | inl small ↦ rw small (omega arith)
  | inr big ↦
      let p = pow-suc 10 (suc k) in
      let (a, c) = length-digits f (n / 10) k (ground arith) (omega (arith, p)) in
      rw big (omega (arith, length-append (digits f (n / 10)) ((48 + n % 10) ∷ [])))
]

pub length-replicate : (k c : ℕ) → length (replicate k c) ≡ k
length-replicate zero c = refl
length-replicate (suc k) c = omega (arith, length-replicate k c)

-- What is printed with padding is read back.
pub parse_int-padded : (w n : ℕ) → parse_int (padded (suc w) n) ≡ some n
unfolding padded decimal
parse_int-padded w n =
    parse_int-eq _ (
      omega (
        arith,
        length-append (replicate (suc w - length (decimal n)) 48) (decimal n),
        length-replicate (suc w - length (decimal n)) 48,
      ))
    ∙ parse_from-zeros (suc w - length (decimal n)) (decimal n)
    ∙ parse_from-digits (suc n) n (omega arith)

-- A number below the power of the width fills exactly the width.
pub length-padded : (w n : ℕ) → n < 10 ^ suc w → length (padded (suc w) n) ≡ suc w
unfolding padded decimal
length-padded w n h =
    let (a, b) = length-digits (suc n) n w (omega arith) h in
    omega (
      arith,
      length-append (replicate (suc w - length (decimal n)) 48) (decimal n),
      length-replicate (suc w - length (decimal n)) 48,
    )

-- Only digits are printed.
digits-All : (f n : ℕ) → All (λ c. is_digit c ≡ true) (digits f n)
unfolding digits
digits-All zero n = tt
digits-All (suc f) n = elim (Bool-cases (ltb n 10)) [
  | inl small ↦ rw small (ground arith, tt)
  | inr big ↦ rw big (All-append _ (digits f (n / 10)) _ (digits-All f (n / 10)) (ground arith, tt))
]

replicate-All : (k : ℕ) → All (λ c. is_digit c ≡ true) (replicate k 48)
replicate-All zero = tt
replicate-All (suc k) = (refl, replicate-All k)

pub padded-All : (w n : ℕ) → All (λ c. is_digit c ≡ true) (padded w n)
unfolding padded decimal
padded-All w n =
    All-append _ (replicate (w - length (decimal n)) 48) _ (replicate-All _) (digits-All (suc n) n)
