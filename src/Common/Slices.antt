-- ===== src/Common/Slices.antt =====
-- Slices of lists: what `take` and `drop` give on an appended list.
use Prim.Native.Nat.{ℕ, zero, suc, ◌+◌, ◌-◌}
use mathlib.Core.Path.{◌≡◌, refl, sym, ap, ◌∙◌, subst}
use mathlib.Core.List.{List, [], ◌∷◌, ◌++◌}
use native.Mathlib.Omega.{arith}
use weather.Common.Lists.{length, take, drop, length-append}

module _ {ℓ} {A : Type ℓ} where
  pub drop-length : (xs ys : List A) → drop (length xs) (xs ++ ys) ≡ ys
  drop-length [] ys = refl
  drop-length (x ∷ xs) ys = drop-length xs ys

  pub take-length : (xs ys : List A) → take (length xs) (xs ++ ys) ≡ xs
  take-length [] ys = refl
  take-length (x ∷ xs) ys = ap (◌∷◌ x) (take-length xs ys)

  pub drop-append : (n : ℕ) (xs ys : List A) → n ≡ length xs → drop n (xs ++ ys) ≡ ys
  drop-append n xs ys e = subst (λ k. drop k (xs ++ ys) ≡ ys) (sym e) (drop-length xs ys)

  pub take-append : (n : ℕ) (xs ys : List A) → n ≡ length xs → take n (xs ++ ys) ≡ xs
  take-append n xs ys e = subst (λ k. take k (xs ++ ys) ≡ xs) (sym e) (take-length xs ys)

  drop_nil : (n : ℕ) → let nil : List A = [] in drop n nil ≡ nil
  drop_nil zero = refl
  drop_nil (suc n) = refl

  pub drop-drop : (a b : ℕ) (xs : List A) → drop b (drop a xs) ≡ drop (a + b) xs
  drop-drop zero b xs = ap (λ k. drop k xs) (omega arith)
  drop-drop (suc a) b [] = drop_nil b ∙ sym (drop_nil (suc a + b))
  drop-drop (suc a) b (x ∷ xs) =
      drop-drop a b xs ∙ ap (λ k. drop k (x ∷ xs)) {x = suc (a + b)} (omega arith)

  -- `xs[-n:]` for a positive `n`.
  abbrev pub last_part : ℕ → List A → List A
  last_part n xs = drop (length xs - n) xs

  pub last_part-append : (n : ℕ) (xs ys : List A) → n ≡ length ys → last_part n (xs ++ ys) ≡ ys
  last_part-append n xs ys e =
      drop-append (length (xs ++ ys) - n) xs ys (omega (arith, length-append xs ys))
