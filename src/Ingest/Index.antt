-- ===== src/Ingest/Index.antt =====
-- services/ingestion/src/ingestion/providers/noaa/idx_parser.py: the records of an index file,
-- its parser, and the grouping of records into byte spans.
pub mod Tiling
pub mod Spans
mod Examples
use weather.Common.{
  ℕ, zero, suc, ◌+◌, ◌-◌, ◌≡◌, Bool, true, false, not, ◌&&◌, ◌||◌, Option, none, some, List, [],
  ◌∷◌, ◌++◌, map, ltb, leb, ◌==◌, if◌then◌else◌, keep,
}
use weather.Common.Int.{ℤ, pos, negsuc, pos_part, sub_ℕ, leb_ℤ, ltb_ℤ}
use weather.Common.Result.{Result, ok, raises, Error, ◌>>=◌, ◌>>◌, raise_if, or_raise}
use weather.Common.Text.{Text}
use weather.Common.Strings.{strip, split_on, join, split_lines, int_of}

pub record IdxRecord : Type 0 where
  pub record_number : ℕ
  pub start_offset : ℕ
  pub end_offset : Option ℕ
  pub date_token : Text
  pub parameter : Text
  pub level_description : Text
  pub forecast_description : Text
  pub ensemble_description : Text
  pub raw_line : Text

unfoldable pub byte_length : IdxRecord → Option ℤ
byte_length r = elim r.end_offset [ none ↦ none | some e ↦ some (sub_ℕ (suc e) r.start_offset) ]

-- The tuples that the first loop collects.
pub record RawRecord : Type 0 where
  pub rec_num : ℕ
  pub start : ℕ
  pub date_tok : Text
  pub param : Text
  pub lvl : Text
  pub fcst : Text
  pub ext : Text
  pub raw : Text

-- `0 ≤ n` and `n == k` for an integer and a natural.
abbrev pub is_number : ℤ → ℕ → Bool
is_number n k = leb_ℤ n (pos k) && leb_ℤ (pos k) n

-- The checks of the offset, when it is an integer.
unfoldable pub check_offset : ℕ → ℤ → ℤ → Result ℕ
check_offset idx prev start = do
  raise_if (ltb_ℤ start (pos 0)) Error.negative_offset
  raise_if (idx == 0 && not (is_number start 0)) Error.first_offset
  raise_if (ltb 0 idx && leb_ℤ start prev) Error.non_increasing
  ok (pos_part start)

-- The checks of the two numbers of a line, with the number of the line and the offset before.
unfoldable pub check_numbers : ℕ → ℤ → Text → Text → Result ℕ
unfolding int_of check_offset
check_numbers idx prev number offset = do
  rec_num ← or_raise (int_of number) Error.bad_record_number
  raise_if (not (is_number rec_num (suc idx))) Error.non_sequential
  start ← or_raise (int_of offset) Error.bad_offset
  check_offset idx prev start

-- The body of the loop for a line that is split into its fields.
unfoldable pub read_fields : ℕ → ℤ → Text → List Text → Result RawRecord
unfolding check_numbers strip join
read_fields idx prev line (a ∷ b ∷ c ∷ d ∷ e ∷ f ∷ extra) = do
  start' ← check_numbers idx prev a b
  ok (record {
    rec_num = suc idx;
    start = start';
    date_tok = strip c;
    param = strip d;
    lvl = strip e;
    fcst = strip f;
    ext = strip (join (b':' ∷ []) extra);
    raw = line;
  })
read_fields idx prev line _ = raises Error.malformed_line

-- The loop over the lines.
unfoldable pub read_lines : ℕ → ℤ → List Text → Result (List RawRecord)
unfolding read_fields split_on
read_lines idx prev [] = ok []
read_lines idx prev (line ∷ lines) = do
  r ← read_fields idx prev line (split_on b':' line)
  rs ← read_lines (suc idx) (pos r.start) lines
  ok (r ∷ rs)

abbrev pub with_end : RawRecord → Option ℕ → IdxRecord
with_end r end = record {
  record_number = r.rec_num;
  start_offset = r.start;
  end_offset = end;
  date_token = r.date_tok;
  parameter = r.param;
  level_description = r.lvl;
  forecast_description = r.fcst;
  ensemble_description = r.ext;
  raw_line = r.raw;
}

-- The second loop: a record ends before the next one, and the last has no end.
unfoldable pub with_ends : List RawRecord → List IdxRecord
with_ends [] = []
with_ends (r ∷ []) = with_end r none ∷ []
with_ends (r ∷ s ∷ rs) = with_end r (some (s.start - 1)) ∷ with_ends (s ∷ rs)

abbrev pub is_blank : Text → Bool
is_blank [] = true
is_blank (c ∷ s) = false

abbrev pub has_no_line : List Text → Bool
has_no_line [] = true
has_no_line (line ∷ lines) = false

pub parse_idx : Text → Result (List IdxRecord)
unfolding strip read_lines with_ends
parse_idx text = do
  let stripped = strip text
  raise_if (is_blank stripped) Error.empty_index
  let lines = keep (λ line. not (is_blank line)) (map strip (split_lines stripped))
  raise_if (has_no_line lines) Error.no_record_lines
  raws ← read_lines 0 (negsuc 0) lines
  ok (with_ends raws)

-- The bytes between a record and the next one; a record without an end is far from any other.
abbrev pub gap : IdxRecord → IdxRecord → ℤ
gap prev r = elim prev.end_offset [
  | none ↦ pos 999_999_999_999
  | some e ↦ sub_ℕ r.start_offset (suc e)
]

-- The loop over the records after the first: the groups, the current one begins with the
-- records that it has, in reverse, the last of them apart.
unfoldable pub groups_from : ℤ → List IdxRecord → IdxRecord → List IdxRecord → List (List IdxRecord)
groups_from max_gap group prev [] = (group ++ prev ∷ []) ∷ []
groups_from max_gap group prev (r ∷ rs) =
    let together = groups_from max_gap (group ++ prev ∷ []) r rs in
    let apart = groups_from max_gap [] r rs in
    if leb_ℤ (gap prev r) max_gap then together else (group ++ prev ∷ []) ∷ apart

unfoldable pub merge_adjacent_records : List IdxRecord → ℤ → List (List IdxRecord)
unfolding groups_from
merge_adjacent_records [] max_gap = []
merge_adjacent_records (r ∷ rs) max_gap = groups_from max_gap [] r rs
