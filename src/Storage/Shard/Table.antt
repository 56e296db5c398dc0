-- ===== src/Storage/Shard/Table.antt =====
-- The index table of a shard container: its bounds, and how it is read back.
use weather.Common.{
  ℕ, suc, ◌+◌, ◌*◌, ◌<◌, ◌≤◌, ◌≡◌, refl, sym, ap, ◌∙◌, true, false, List, [], ◌∷◌, length, drop,
  All, All-map, length-append, arith, ltb, Bool-cases, inl, inr,
}
use weather.Common.Slices.{drop-drop}
use weather.Common.Result.{ok}
use weather.Storage.Shard.{
  Buffer, capacity, index_entries, payload, unpack_entry, unpack_entries, all_within,
}
use weather.Storage.Shard.Bytes.{Fits, index_bytes, head_entry-eq}

pub length-index_entries :
    (current : ℕ) (chunks : List Buffer) → length (index_entries current chunks) ≡ length chunks
unfolding index_entries
length-index_entries current [] = refl
length-index_entries current (c ∷ chunks) = elim (Bool-cases (ltb 0 (length c))) [
  | inl h ↦ rw h (ap suc (length-index_entries (current + length c) chunks))
  | inr h ↦ rw h (ap suc (length-index_entries current chunks))
]

-- Every entry ends inside of the payload.
pub index_entries-within :
    (current bound : ℕ) (chunks : List Buffer)
    → current + length (payload chunks) ≤ bound
    → All (λ e. e.0 + e.1 ≤ bound) (index_entries current chunks)
unfolding index_entries
index_entries-within current bound [] h = tt
index_entries-within current bound (c ∷ chunks) h =
    let len = length-append c (payload chunks) in
    elim (Bool-cases (ltb 0 (length c))) [
      | inl k ↦ rw k (
        omega (arith, len),
        index_entries-within (current + length c) bound chunks (omega (arith, len)),
      )
      | inr k ↦ rw k (omega arith, index_entries-within current bound chunks (omega (arith, len)))
    ]

pub index_entries-Fits :
    (chunks : List Buffer)
    → length (payload chunks) < capacity 8
    → All Fits (index_entries 0 chunks)
index_entries-Fits chunks h =
    All-map (λ e. e.0 + e.1 ≤ length (payload chunks)) Fits (λ e k. (omega arith, omega arith)) _
      (index_entries-within 0 (length (payload chunks)) chunks (omega arith))

-- A buffer whose part from entry `i` on is the table of `es`.
pub record Holds (bs : Buffer) (i : ℕ) (es : List (ℕ × ℕ)) : Type 0 where
  pub part : drop (i * 16) bs ≡ index_bytes es
  pub size : length bs ≡ (i + length es) * 16

Holds-next :
    (bs : Buffer) (i : ℕ) (e : ℕ × ℕ) (es : List (ℕ × ℕ))
    → Holds bs i (e ∷ es)
    → Holds bs (suc i) es
Holds-next bs i e es h = record {
  part =
      ap (λ k. drop k bs) {x = suc i * 16} {y = i * 16 + 16} (omega arith)
      ∙ sym (drop-drop (i * 16) 16 bs)
      ∙ ap (drop 16) h.part;
  size = omega (arith, h.size);
}

unpack_entry-eq :
    (bs : Buffer) (i : ℕ) (e : ℕ × ℕ) (es : List (ℕ × ℕ))
    → Holds bs i (e ∷ es)
    → Fits e
    → unpack_entry bs (i * 16) ≡ ok e
unpack_entry-eq bs i (off, size) es h fits =
    let long : ltb (length bs) (i * 16 + 16) ≡ false = ground (arith, h.size) in
    rw (long, h.part) (ap ok (head_entry-eq off size (index_bytes es) fits))

pub unpack_entries-eq :
    (bs : Buffer) (i : ℕ) (es : List (ℕ × ℕ))
    → Holds bs i es
    → All Fits es
    → unpack_entries bs i (length es) ≡ ok es
unfolding unpack_entries
unpack_entries-eq bs i [] h fits = refl
unpack_entries-eq bs i (e ∷ es) h fits =
    rw (unpack_entry-eq bs i e es h fits.0)
      (rw (unpack_entries-eq bs (suc i) es (Holds-next bs i e es h) fits.1) refl)

pub all_within-eq :
    (bs : Buffer) (bound i : ℕ) (es : List (ℕ × ℕ))
    → Holds bs i es
    → All Fits es
    → All (λ e. e.0 + e.1 ≤ bound) es
    → all_within bs bound i (length es) ≡ ok true
unfolding all_within
all_within-eq bs bound i [] h fits within = refl
all_within-eq bs bound i (e ∷ es) h fits within =
    let inside : ltb bound (e.0 + e.1) ≡ false = ground (arith, within.0) in
    rw (unpack_entry-eq bs i e es h fits.0)
      (rw inside (all_within-eq bs bound (suc i) es (Holds-next bs i e es h) fits.1 within.1))
