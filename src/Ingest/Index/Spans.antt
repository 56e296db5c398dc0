-- ===== src/Ingest/Index/Spans.antt =====
-- idx_parser.py, `merge_adjacent_records`: how the records are grouped.
use mathlib.Core.List.{append_assoc, append-nil}
use weather.Common.{
  ℕ, suc, ◌+◌, Option, none, some, leb, arith, ◌≡◌, ◌≢◌, refl, ap, sym, ◌∙◌, Bool, true, false,
  List, [], ◌∷◌, ◌++◌, All, Bool-cases, inl, inr,
}
use weather.Common.Int.{ℤ, pos, pos_part, neg_part, sub_ℕ, leb_ℤ, ltb_ℤ}
use weather.Ingest.Index.{IdxRecord, gap, groups_from, merge_adjacent_records}

abbrev pub flatten {ℓ} : {A : Type ℓ} → List (List A) → List A
flatten [] = []
flatten (xs ∷ xss) = xs ++ flatten xss

-- Whether at most `max_gap` bytes lie between the last byte of a record, if it is known, and the
-- first one of the next record: `start ≤ end + 1 + max_gap`.
abbrev pub is_near : ℤ → Option ℕ → ℕ → Bool
is_near max_gap none start = false
is_near max_gap (some end) start = leb (start + neg_part max_gap) (suc end + pos_part max_gap)

bytes-is_near :
    (max_gap : ℤ) (o : Option ℕ) (start : ℕ)
    → ltb_ℤ max_gap (pos 999_999_999_999) ≡ true
    → leb_ℤ (elim o [ none ↦ pos 999_999_999_999 | some e ↦ sub_ℕ start (suc e) ]) max_gap
      ≡ is_near max_gap o start
bytes-is_near max_gap none start small = ground arith
bytes-is_near max_gap (some e) start small = elim (Bool-cases (leb (suc e) start)) [
  | inl after ↦ rw after (ground arith)
  | inr before ↦ rw before (ground arith)
]

gap-is_near :
    (max_gap : ℤ) (p r : IdxRecord)
    → ltb_ℤ max_gap (pos 999_999_999_999) ≡ true
    → leb_ℤ (gap p r) max_gap ≡ is_near max_gap p.end_offset r.start_offset
gap-is_near max_gap p r small = bytes-is_near max_gap p.end_offset r.start_offset small

-- For each record and the next one, whether the bytes between them are few enough.
unfoldable pub near_flags : ℤ → List IdxRecord → List Bool
near_flags max_gap [] = []
near_flags max_gap (r ∷ []) = []
near_flags max_gap (r ∷ s ∷ rs) =
    is_near max_gap r.end_offset s.start_offset ∷ near_flags max_gap (s ∷ rs)

unfoldable pub inside_flags : List IdxRecord → List Bool
inside_flags [] = []
inside_flags (r ∷ []) = []
inside_flags (r ∷ s ∷ rs) = true ∷ inside_flags (s ∷ rs)

-- For each record of some groups and the next one, whether they are in the same group.
unfoldable pub same_group_flags : List (List IdxRecord) → List Bool
unfolding inside_flags
same_group_flags [] = []
same_group_flags (g ∷ []) = inside_flags g
same_group_flags (g ∷ h ∷ gs) = inside_flags g ++ (false ∷ same_group_flags (h ∷ gs))

inside_flags-snoc :
    (g : List IdxRecord) (p r : IdxRecord)
    → inside_flags ((g ++ p ∷ []) ++ r ∷ []) ≡ inside_flags (g ++ p ∷ []) ++ true ∷ []
unfolding inside_flags
inside_flags-snoc [] p r = refl
inside_flags-snoc (a ∷ []) p r = refl
inside_flags-snoc (a ∷ b ∷ g) p r = ap (◌∷◌ true) (inside_flags-snoc (b ∷ g) p r)

same_group_flags-cons :
    (g : List IdxRecord) (gs : List (List IdxRecord))
    → gs ≢ []
    → same_group_flags (g ∷ gs) ≡ inside_flags g ++ (false ∷ same_group_flags gs)
unfolding same_group_flags
same_group_flags-cons g [] n = absurd (n refl)
same_group_flags-cons g (h ∷ gs) n = refl

snoc≢[] : {A : Type 0} (xs : List A) (x : A) → (xs ++ x ∷ []) ≢ []
snoc≢[] [] x e = cc
snoc≢[] (y ∷ xs) x e = cc

groups_from≢[] :
    (max_gap : ℤ) (g : List IdxRecord) (p : IdxRecord) (rs : List IdxRecord)
    → groups_from max_gap g p rs ≢ []
unfolding groups_from
groups_from≢[] max_gap g p [] = λ e. cc
groups_from≢[] max_gap g p (r ∷ rs) = elim (Bool-cases (leb_ℤ (gap p r) max_gap)) [
  | inl near ↦ rw near (groups_from≢[] max_gap (g ++ p ∷ []) r rs)
  | inr far ↦ rw far (λ e. cc)
]

near_flags-cons :
    (max_gap : ℤ) (p r : IdxRecord) (rs : List IdxRecord) (b : Bool)
    → ltb_ℤ max_gap (pos 999_999_999_999) ≡ true
    → leb_ℤ (gap p r) max_gap ≡ b
    → near_flags max_gap (p ∷ r ∷ rs) ≡ b ∷ near_flags max_gap (r ∷ rs)
unfolding near_flags
near_flags-cons max_gap p r rs b small e =
    ap (λ (x : Bool). x ∷ near_flags max_gap (r ∷ rs)) (sym (gap-is_near max_gap p r small) ∙ e)

-- The groups that the loop makes, by the record and the next one.
record Grouped (max_gap : ℤ) (g : List IdxRecord) (p : IdxRecord) (rs : List IdxRecord)
    (groups : List (List IdxRecord)) : Type 0 where
  whole : flatten groups ≡ (g ++ p ∷ []) ++ rs
  flags : same_group_flags groups ≡ inside_flags (g ++ p ∷ []) ++ near_flags max_gap (p ∷ rs)
  full : All (λ h. h ≢ []) groups

groups_from-Grouped :
    (max_gap : ℤ) (g : List IdxRecord) (p : IdxRecord) (rs : List IdxRecord)
    → ltb_ℤ max_gap (pos 999_999_999_999) ≡ true
    → Grouped max_gap g p rs (groups_from max_gap g p rs)
unfolding groups_from same_group_flags near_flags inside_flags
groups_from-Grouped max_gap g p [] small = record {
  whole = refl;
  flags = sym (append-nil _);
  full = (snoc≢[] g p, tt);
}
groups_from-Grouped max_gap g p (r ∷ rs) small = elim (Bool-cases (leb_ℤ (gap p r) max_gap)) [
  | inl near ↦
      let rest = groups_from-Grouped max_gap (g ++ p ∷ []) r rs small in
      rw near (record {
        whole = rest.whole ∙ append_assoc (g ++ p ∷ []) (r ∷ []) rs;
        flags =
            rest.flags
            ∙ ap (λ (f : List Bool). f ++ near_flags max_gap (r ∷ rs)) (inside_flags-snoc g p r)
            ∙ append_assoc (inside_flags (g ++ p ∷ [])) (true ∷ []) (near_flags max_gap (r ∷ rs))
            ∙ ap (λ (f : List Bool). inside_flags (g ++ p ∷ []) ++ f)
                (sym (near_flags-cons max_gap p r rs true small near));
        full = rest.full;
      })
  | inr far ↦
      let rest = groups_from-Grouped max_gap [] r rs small in
      rw far (record {
        whole = ap (λ (f : List IdxRecord). (g ++ p ∷ []) ++ f) rest.whole;
        flags =
            same_group_flags-cons (g ++ p ∷ []) _ (groups_from≢[] max_gap [] r rs)
            ∙ ap (λ (f : List Bool). inside_flags (g ++ p ∷ []) ++ (false ∷ f)) rest.flags
            ∙ ap (λ (f : List Bool). inside_flags (g ++ p ∷ []) ++ f)
                (sym (near_flags-cons max_gap p r rs false small far));
        full = (snoc≢[] g p, rest.full);
      })
]

-- For a `max_gap` below 999,999,999,999 bytes, the groups, none of which is empty, hold the records
-- in their order, and a record and the next one are in the same group exactly when the first one
-- has an end and at most `max_gap` bytes lie between the two.
pub merged-Groups :
    (records : List IdxRecord) (max_gap : ℤ)
    → ltb_ℤ max_gap (pos 999_999_999_999) ≡ true
    → (flatten (merge_adjacent_records records max_gap) ≡ records)
      × (same_group_flags (merge_adjacent_records records max_gap) ≡ near_flags max_gap records)
      × All (λ g. g ≢ []) (merge_adjacent_records records max_gap)
unfolding merge_adjacent_records same_group_flags near_flags inside_flags
merged-Groups [] max_gap small = (refl, refl, tt)
merged-Groups (r ∷ rs) max_gap small =
    let made = groups_from-Grouped max_gap [] r rs small in (made.whole, made.flags, made.full)
