-- ===== src/Ingest/Index/Examples.antt =====
-- Tests of idx_parser.py's parser and grouping, and the theorems about them at concrete inputs.
use weather.Common.{ℕ, ◌≡◌, ◌≢◌, refl, Option, none, some, List, [], ◌∷◌, ◌++◌, All}
use weather.Common.Int.{pos}
use weather.Common.Result.{ok, raises, Error}
use weather.Common.Text.{Text, codes, lstrip, rstrip}
use weather.Common.Strings.{strip, split_on, join, split_lines, lines_from, int_of, digits_from}
use weather.Ingest.Index.{
  IdxRecord, parse_idx, check_numbers, check_offset, read_fields, read_lines, with_ends,
  merge_adjacent_records,
}
use weather.Ingest.Index.Tiling.{Tiles, parse_idx-Tiles}
use weather.Ingest.Index.Spans.{flatten, same_group_flags, near_flags, merged-Groups}

abbrev entry : ℕ → ℕ → Option ℕ → Text → IdxRecord
entry n start end line = record {
  record_number = n;
  start_offset = start;
  end_offset = end;
  date_token = codes "d";
  parameter = codes "TMP";
  level_description = codes "surface";
  forecast_description = codes "anl";
  ensemble_description = [];
  raw_line = line;
}

abbrev line1 : Text
line1 = codes "1:0:d:TMP:surface:anl:"

abbrev line2 : Text
line2 = codes "2:+7:d:TMP:surface: anl"

abbrev index_text : Text
index_text = (b' ' ∷ line1) ++ (13 ∷ 10 ∷ 10 ∷ line2)

abbrev entries : List IdxRecord
entries = entry 1 0 (some 6) line1 ∷ entry 2 7 none line2 ∷ []

parse_test : parse_idx index_text ≡ ok entries
unfolding parse_idx strip lstrip rstrip split_lines lines_from split_on join int_of digits_from
    check_numbers check_offset read_fields read_lines with_ends
parse_test = refl

gap_test : parse_idx (codes "1:3:d:TMP:surface:anl") ≡ raises Error.first_offset
unfolding parse_idx strip lstrip rstrip split_lines lines_from split_on join int_of digits_from
    check_numbers check_offset read_fields read_lines with_ends
gap_test = refl

parse_idx-Tiles_example : Tiles 1 0 entries
parse_idx-Tiles_example = parse_idx-Tiles index_text entries parse_test

abbrev three : List IdxRecord
three = entry 1 0 (some 6) line1 ∷ entry 2 7 (some 9) line2 ∷ entry 3 15 none line2 ∷ []

merged-Groups_example :
    (flatten (merge_adjacent_records three (pos 0)) ≡ three)
    × (same_group_flags (merge_adjacent_records three (pos 0)) ≡ near_flags (pos 0) three)
    × All (λ g. g ≢ []) (merge_adjacent_records three (pos 0))
merged-Groups_example = merged-Groups three (pos 0) refl
