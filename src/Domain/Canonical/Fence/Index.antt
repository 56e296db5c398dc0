-- ===== src/Domain/Canonical/Fence/Index.antt =====
-- canonical.py, `build_fence_index`: its sets answer as the tests of the single keys do.
use weather.Common.{
  ℕ, subst, ◌≡◌, refl, sym, inl, inr, Bool, true, false, ◌&&◌, ◌||◌, List, [], ◌∷◌, any, arith,
  Bool-cases,
}
use weather.Common.Int.{ℤ, pos}
use weather.Common.Text.{Text, text_eq, text_eq_iff}
use weather.Domain.Reclamation.{det, mean, mem}
use weather.Domain.Canonical.Fence.{
  FenceKey, FenceIndex, eq_ℤ, is_run_lead, in_variables, in_members, in_means, add_key, add_keys,
  build_fence_index, empty_index,
}

-- The tests by which the filter once scanned the raw keys.
abbrev pub fences_variable : Text → ℕ → Text → FenceKey → Bool
fences_variable run lead v (r, l, w, kind, m) =
    (text_eq kind mean || text_eq kind det) && (is_run_lead run lead r l && text_eq w v)

abbrev pub fences_member : Text → ℕ → ℤ → FenceKey → Bool
fences_member run lead n (r, l, w, kind, m) =
    text_eq kind mem && (is_run_lead run lead r l && eq_ℤ m n)

abbrev pub fences_mean : Text → ℕ → FenceKey → Bool
fences_mean run lead (r, l, w, kind, m) = text_eq kind mean && is_run_lead run lead r l

or_assoc : (a b c : Bool) → ((a || b) || c) ≡ (b || (a || c))
or_assoc a b c = ground arith

-- A kind is one of three, or none of them.
Kind-cases :
    (P : Text → Type 0) (kind : Text)
    → P mean
    → P det
    → P mem
    → (text_eq kind mean ≡ false → text_eq kind det ≡ false → text_eq kind mem ≡ false → P kind)
    → P kind
Kind-cases P kind a b c d = elim (Bool-cases (text_eq kind mean)) [
  | inl h ↦ subst P (sym ((text_eq_iff kind mean).0 h)) a
  | inr h ↦ elim (Bool-cases (text_eq kind det)) [
    | inl i ↦ subst P (sym ((text_eq_iff kind det).0 i)) b
    | inr i ↦ elim (Bool-cases (text_eq kind mem)) [
      | inl j ↦ subst P (sym ((text_eq_iff kind mem).0 j)) c
      | inr j ↦ d h i j
    ]
  ]
]

-- What one more key adds to the three tests, and to the flag.
Added : FenceIndex → Text → ℕ → Text → ℤ → FenceKey → Type 0
unfolding add_key
Added idx run lead v n k =
    (in_variables (add_key k idx) run lead v
      ≡ (fences_variable run lead v k || in_variables idx run lead v))
    × (in_members (add_key k idx) run lead n
        ≡ (fences_member run lead n k || in_members idx run lead n))
    × (in_means (add_key k idx) run lead ≡ (fences_mean run lead k || in_means idx run lead))
    × ((add_key k idx).has_keys ≡ true)

add_key-Added :
    (idx : FenceIndex) (run : Text) (lead : ℕ) (v : Text) (n : ℤ) (k : FenceKey)
    → Added idx run lead v n k
unfolding Added add_key
add_key-Added idx run lead v n (r, l, w, kind, m) =
    Kind-cases (λ k. Added idx run lead v n (r, l, w, k, m)) kind (refl, refl, refl, refl)
      (refl, refl, refl, refl) (refl, refl, refl, refl)
      (λ h i j. rw (h, i, j) (refl, refl, refl, refl))

add_keys-lem :
    (keys : List FenceKey) (idx : FenceIndex) (run : Text) (lead : ℕ) (v : Text) (n : ℤ)
    → (in_variables (add_keys keys idx) run lead v
        ≡ (any (fences_variable run lead v) keys || in_variables idx run lead v))
      × (in_members (add_keys keys idx) run lead n
          ≡ (any (fences_member run lead n) keys || in_members idx run lead n))
      × (in_means (add_keys keys idx) run lead
          ≡ (any (fences_mean run lead) keys || in_means idx run lead))
unfolding add_keys Added
add_keys-lem [] idx run lead v n = (refl, refl, refl)
add_keys-lem (k ∷ keys) idx run lead v n =
    let (a, b, c) = add_keys-lem keys (add_key k idx) run lead v n in
    let (p, q, r, s) = add_key-Added idx run lead v n k in
    (ground (arith, a, p), ground (arith, b, q), ground (arith, c, r))

-- The index answers each of the three tests as a scan of all the keys does.
pub index_refines_scan :
    (keys : List FenceKey) (run : Text) (lead : ℕ) (v : Text) (n : ℤ)
    → (in_variables (build_fence_index keys) run lead v ≡ any (fences_variable run lead v) keys)
      × (in_members (build_fence_index keys) run lead n ≡ any (fences_member run lead n) keys)
      × (in_means (build_fence_index keys) run lead ≡ any (fences_mean run lead) keys)
unfolding build_fence_index
index_refines_scan keys run lead v n =
    let (a, b, c) = add_keys-lem keys empty_index run lead v n in
    (ground (arith, a), ground (arith, b), ground (arith, c))

add_keys-has_keys :
    (keys : List FenceKey) (idx : FenceIndex)
    → idx.has_keys ≡ true
    → (add_keys keys idx).has_keys ≡ true
unfolding add_keys Added
add_keys-has_keys [] idx h = h
add_keys-has_keys (k ∷ keys) idx h =
    add_keys-has_keys keys (add_key k idx) (add_key-Added idx [] 0 [] (pos 0) k).3

pub build_fence_index-has_keys :
    (k : FenceKey) (keys : List FenceKey) → (build_fence_index (k ∷ keys)).has_keys ≡ true
unfolding build_fence_index add_keys Added
build_fence_index-has_keys k keys =
    add_keys-has_keys keys (add_key k empty_index) (add_key-Added empty_index [] 0 [] (pos 0) k).3
