-- ===== src/Ingest/Index/Tiling.antt =====
-- idx_parser.py, `parse_idx`: the records of an accepted index tile the file.
use weather.Common.{
  subst, ℕ, suc, ◌-◌, ◌≡◌, ◌≤◌, ◌<◌, refl, sym, true, false, not, none, some, List, [], ◌∷◌, keep,
  map, arith,
}
use weather.Common.Int.{ℤ, pos, negsuc, ltb_ℤ}
use weather.Common.Result.{
  ok, Error, raise_if, or_raise, >>=-eq-ok, >>-eq-ok, raise_if-eq-ok, ok-inj,
}
use weather.Common.Text.{Text}
use weather.Common.Strings.{strip, split_on, split_lines, int_of}
use weather.Ingest.Index.{
  IdxRecord, RawRecord, is_number, check_offset, check_numbers, read_fields, read_lines, with_ends,
  is_blank, has_no_line, parse_idx,
}

-- Records that are numbered from `n` and cover the file from the offset `o` on: each begins where
-- the one before it ends, none is empty, and only the last one has no end.
unfoldable pub Tiles : ℕ → ℕ → List IdxRecord → Type 0
Tiles n o [] = ⊥
Tiles n o (r ∷ []) = (r.record_number ≡ n) × (r.start_offset ≡ o) × (r.end_offset ≡ none)
Tiles n o (r ∷ s ∷ rs) =
    (r.record_number ≡ n)
    × (r.start_offset ≡ o)
    × ((e : ℕ) × (r.end_offset ≡ some e) × (o ≤ e) × Tiles (suc n) (suc e) (s ∷ rs))

-- Raw records that are numbered from `n`, with offsets that increase from above `o`.
unfoldable pub Follows : ℕ → ℕ → List RawRecord → Type 0
Follows n o [] = Unit
Follows n o (r ∷ rs) = (r.rec_num ≡ n) × (o < r.start) × Follows (suc n) r.start rs

with_ends-Tiles :
    (n : ℕ) (r : RawRecord) (rs : List RawRecord)
    → r.rec_num ≡ n
    → Follows (suc n) r.start rs
    → Tiles n r.start (with_ends (r ∷ rs))
unfolding Tiles Follows with_ends
with_ends-Tiles n r [] e h = (e, refl, refl)
with_ends-Tiles n r (s ∷ []) e h =
    (e, refl, (s.start - 1, refl, omega (arith, h.1), (h.0, omega (arith, h.1), refl)))
with_ends-Tiles n r (s ∷ t ∷ rs) e h = (
  e,
  refl,
  (
    s.start - 1,
    refl,
    omega (arith, h.1),
    subst (λ k. Tiles (suc n) k (with_ends (s ∷ t ∷ rs))) (omega (arith, h.1))
        (with_ends-Tiles (suc n) s (t ∷ rs) h.0 h.2),
  ),
)

check_offset-bounds :
    (idx : ℕ) (prev start : ℤ) (n : ℕ)
    → check_offset idx prev start ≡ ok n
    → (start ≡ pos n) × (idx ≡ 0 → n ≡ 0) × (0 < idx → ltb_ℤ prev (pos n) ≡ true)
unfolding check_offset
check_offset-bounds idx prev (pos m) n h = ground arith
check_offset-bounds idx prev (negsuc m) n h = ground arith

check_numbers-offset :
    (idx : ℕ) (prev : ℤ) (a b : Text) (n : ℕ)
    → check_numbers idx prev a b ≡ ok n
    → (start : ℤ) × (check_offset idx prev start ≡ ok n)
unfolding check_numbers
check_numbers-offset idx prev a b n h =
    let (number, x, y) = >>=-eq-ok (or_raise (int_of a) Error.bad_record_number) _ h in
    let z = >>-eq-ok (raise_if (not (is_number number (suc idx))) Error.non_sequential) _ y in
    let (start, u, v) = >>=-eq-ok (or_raise (int_of b) Error.bad_offset) _ z in (start, v)

check_numbers-bounds :
    (idx : ℕ) (prev : ℤ) (a b : Text) (n : ℕ)
    → check_numbers idx prev a b ≡ ok n
    → (idx ≡ 0 → n ≡ 0) × (0 < idx → ltb_ℤ prev (pos n) ≡ true)
check_numbers-bounds idx prev a b n h =
    let (start, k) = check_numbers-offset idx prev a b n h in
    let (a, b, c) = check_offset-bounds idx prev start n k in (b, c)

read_fields-bounds :
    (idx : ℕ) (prev : ℤ) (line : Text) (fields : List Text) (r : RawRecord)
    → read_fields idx prev line fields ≡ ok r
    → (r.rec_num ≡ suc idx) × (idx ≡ 0 → r.start ≡ 0) × (0 < idx → ltb_ℤ prev (pos r.start) ≡ true)
unfolding read_fields
read_fields-bounds idx prev line (a ∷ b ∷ c ∷ d ∷ e ∷ f ∷ extra) r h =
    let (n, k, l) = >>=-eq-ok (check_numbers idx prev a b) _ h in
    let (p, q) = check_numbers-bounds idx prev a b n k in
    let m : _ ≡ r = ok-inj l in
    subst
      (λ (r : RawRecord).
        (r.rec_num ≡ suc idx)
        × (idx ≡ 0 → r.start ≡ 0)
        × (0 < idx → ltb_ℤ prev (pos r.start) ≡ true))
      m (refl, p, q)
read_fields-bounds idx prev line _ r h = cc

-- What the loop over the lines returns: the first record, and those of the other lines.
read_lines-cons :
    (idx : ℕ) (prev : ℤ) (line : Text) (lines : List Text) (raws : List RawRecord)
    → read_lines idx prev (line ∷ lines) ≡ ok raws
    → (r : RawRecord) × (rs : List RawRecord) × (raws ≡ r ∷ rs)
      × (r.rec_num ≡ suc idx)
      × (idx ≡ 0 → r.start ≡ 0)
      × (0 < idx → ltb_ℤ prev (pos r.start) ≡ true)
      × (read_lines (suc idx) (pos r.start) lines ≡ ok rs)
unfolding read_lines
read_lines-cons idx prev line lines raws h =
    let (r, k, l) = >>=-eq-ok (read_fields idx prev line (split_on b':' line)) _ h in
    let (rs, m, n) = >>=-eq-ok (read_lines (suc idx) (pos r.start) lines) _ l in
    let (a, b, c) = read_fields-bounds idx prev line (split_on b':' line) r k in
    (r, rs, sym (ok-inj n), a, b, c, m)

ltb_ℤ→lt : (a b : ℕ) → ltb_ℤ (pos a) (pos b) ≡ true → a < b
ltb_ℤ→lt a b h = ground arith

read_lines-Follows :
    (idx o : ℕ) (lines : List Text) (raws : List RawRecord)
    → read_lines (suc idx) (pos o) lines ≡ ok raws
    → Follows (suc (suc idx)) o raws
unfolding Follows read_lines
read_lines-Follows idx o [] raws h = subst (Follows (suc (suc idx)) o) (ok-inj h) tt
read_lines-Follows idx o (line ∷ lines) raws h =
    let (r, rs, e, a, b, c, m) = read_lines-cons (suc idx) (pos o) line lines raws h in
    subst (Follows (suc (suc idx)) o) (sym e)
      (a, ltb_ℤ→lt o r.start (c (omega arith)), read_lines-Follows (suc idx) r.start lines rs m)

lines-Tiles :
    (lines : List Text) (raws : List RawRecord)
    → has_no_line lines ≡ false
    → read_lines 0 (negsuc 0) lines ≡ ok raws
    → Tiles 1 0 (with_ends raws)
lines-Tiles [] raws n h = cc
lines-Tiles (line ∷ lines) raws n h =
    let (r, rs, e, a, b, c, m) = read_lines-cons 0 (negsuc 0) line lines raws h in
    subst (λ q. Tiles 1 0 (with_ends q)) (sym e)
      (subst (λ k. Tiles 1 k (with_ends (r ∷ rs))) (b refl)
        (with_ends-Tiles 1 r rs a (read_lines-Follows 0 r.start lines rs m)))

-- The records of an accepted index are numbered from one and tile the file from its first byte
-- on: each begins where the one before it ends, none is empty, and the last one alone has no end.
pub parse_idx-Tiles :
    (text : Text) (records : List IdxRecord) → parse_idx text ≡ ok records → Tiles 1 0 records
unfolding parse_idx
parse_idx-Tiles text records h =
    let lines = keep (λ line. not (is_blank line)) (map strip (split_lines (strip text))) in
    let k = >>-eq-ok (raise_if (is_blank (strip text)) Error.empty_index) _ h in
    let some_line = raise_if-eq-ok (has_no_line lines) Error.no_record_lines _ k in
    let (raws, m, n) =
      >>=-eq-ok (read_lines 0 (negsuc 0) lines) _
        (>>-eq-ok (raise_if (has_no_line lines) Error.no_record_lines) _ k) in
    subst (Tiles 1 0) (ok-inj n) (lines-Tiles lines raws some_line m)
