-- ===== src/Serving/StoreCache/Entries.antt =====
-- store_cache.py: the entries of the cache, each under the key that it was opened for.
use weather.Common.{
  ℕ, suc, ◌≡◌, ◌≤◌, ◌<◌, sym, ap, ◌∙◌, some, [], ◌∷◌, ltb, length, length-append, All, All-append,
  Bool-cases, inl, inr, arith,
}
use weather.Common.Dict.{Dict, lookup, erase, pair_key, pair_eq, pair_eq_iff}
use weather.Serving.StoreCache.{StoreKey, Dataset, to_end, evict}

abbrev pub IsEntry : StoreKey × Dataset → Type 0
IsEntry (key, d) = d.opened_for ≡ key

erase-IsEntry :
    (key : StoreKey) (d : Dict StoreKey Dataset) → All IsEntry d → All IsEntry (erase key d)
erase-IsEntry key [] h = tt
erase-IsEntry key ((k, v) ∷ d) h = elim (Bool-cases (pair_eq k key)) [
  | inl same ↦ rw same (erase-IsEntry key d h.1)
  | inr other ↦ rw other (h.0, erase-IsEntry key d h.1)
]

pub to_end-IsEntry :
    (key : StoreKey) (v : Dataset) (d : Dict StoreKey Dataset)
    → v.opened_for ≡ key
    → All IsEntry d
    → All IsEntry (to_end key v d)
to_end-IsEntry key v d e h = All-append IsEntry (erase key d) _ (erase-IsEntry key d h) (e, tt)

pub evict-IsEntry :
    (bound : ℕ) (d : Dict StoreKey Dataset) → All IsEntry d → All IsEntry (evict bound d)
unfolding evict
evict-IsEntry bound [] h = tt
evict-IsEntry bound (e ∷ d) h = elim (Bool-cases (ltb bound (suc (length d)))) [
  | inl full ↦ rw full (evict-IsEntry bound d h.1)
  | inr fits ↦ rw fits h
]

pub length-evict : (bound : ℕ) (d : Dict StoreKey Dataset) → length (evict bound d) ≤ bound
unfolding evict
length-evict bound [] = omega arith
length-evict bound (e ∷ d) = elim (Bool-cases (ltb bound (suc (length d)))) [
  | inl full ↦ rw full (length-evict bound d)
  | inr fits ↦ rw fits (ground arith)
]

length-erase : (key : StoreKey) (d : Dict StoreKey Dataset) → length (erase key d) ≤ length d
length-erase key [] = omega arith
length-erase key ((k, v) ∷ d) = elim (Bool-cases (pair_eq k key)) [
  | inl same ↦ rw same (omega (arith, length-erase key d))
  | inr other ↦ rw other (omega (arith, length-erase key d))
]

length-erase_found :
    (key : StoreKey) (v : Dataset) (d : Dict StoreKey Dataset)
    → lookup key d ≡ some v
    → length (erase key d) < length d
length-erase_found key v [] e = cc
length-erase_found key v ((k, w) ∷ d) e = elim (Bool-cases (pair_eq k key)) [
  | inl same ↦ rw same (omega (arith, length-erase key d))
  | inr other ↦ rw other (omega (arith, length-erase_found key v d (ground (arith, e, other))))
]

pub length-to_end :
    (key : StoreKey) (v : Dataset) (d : Dict StoreKey Dataset)
    → lookup key d ≡ some v
    → length (to_end key v d) ≤ length d
length-to_end key v d e =
    omega (arith, length-append (erase key d) ((key, v) ∷ []), length-erase_found key v d e)

pub lookup-IsEntry :
    (key : StoreKey) (v : Dataset) (d : Dict StoreKey Dataset)
    → All IsEntry d
    → lookup key d ≡ some v
    → v.opened_for ≡ key
lookup-IsEntry key v [] h e = cc
lookup-IsEntry key v ((k, w) ∷ d) h e = elim (Bool-cases (pair_eq k key)) [
  | inl same ↦
      let w-is : w ≡ v = ground (arith, e, same) in
      ap (λ (d : Dataset). d.opened_for) (sym w-is) ∙ h.0 ∙ (pair_eq_iff k key).0 same
  | inr other ↦ lookup-IsEntry key v d h.1 (ground (arith, e, other))
]
