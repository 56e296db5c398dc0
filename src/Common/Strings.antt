-- ===== src/Common/Strings.antt =====
-- More string methods of the language, on texts of ASCII codes: `strip`, `upper`, `split`, `join`,
-- `splitlines`, the substring test, and `int`.
use Prim.Native.Nat.{ℕ, zero, suc, ◌+◌, ◌-◌, ◌*◌}
use mathlib.Core.Bool.{Bool, true, false, ◌&&◌, ◌||◌}
use mathlib.Core.List.{List, [], ◌∷◌, ◌++◌, map}
use mathlib.Core.Option.{Option, none, some}
use weather.Common.Tests.{leb, ltb, ◌==◌, if◌then◌else◌}
use weather.Common.Int.{ℤ, pos, negsuc}
use weather.Common.Text.{Text, lstrip, rstrip}
use weather.Common.Decimal.{is_digit}

unfoldable pub strip : Text → Text
unfolding lstrip rstrip
strip s = rstrip (lstrip s)

abbrev pub upper_code : ℕ → ℕ
upper_code c = if leb b'a' c && leb c b'z' then c - 32 else c

unfoldable pub upper : Text → Text
upper = map upper_code

-- The first part grows by a code.
abbrev pub on_head : ℕ → List Text → List Text
on_head c [] = (c ∷ []) ∷ []
on_head c (part ∷ parts) = (c ∷ part) ∷ parts

-- `s.split(sep)` for a separator of one character.
unfoldable pub split_on : ℕ → Text → List Text
split_on sep [] = [] ∷ []
split_on sep (c ∷ s) =
    let parts = split_on sep s in if c == sep then [] ∷ parts else on_head c parts

-- `sep.join(parts)`
unfoldable pub join : Text → List Text → Text
join sep [] = []
join sep (part ∷ []) = part
join sep (part ∷ next ∷ parts) = part ++ (sep ++ join sep (next ∷ parts))

-- The line boundaries among the ASCII codes.
abbrev pub is_break : ℕ → Bool
is_break c = (leb 10 c && leb c 13) || (leb 28 c && leb c 30)

abbrev pub last_line : Text → List Text
last_line [] = []
last_line (c ∷ s) = (c ∷ s) ∷ []

-- The lines of a text after a part of the first one; a line feed after a carriage return ends
-- no further line.
unfoldable pub lines_from : Bool → Text → Text → List Text
lines_from after_cr line [] = last_line line
lines_from after_cr line (c ∷ s) =
    let skipped = lines_from false line s in
    let next = lines_from (c == 13) [] s in
    let longer = lines_from false (line ++ c ∷ []) s in
    if c == 10 && after_cr then skipped else if is_break c then line ∷ next else longer

unfoldable pub split_lines : Text → List Text
unfolding lines_from
split_lines s = lines_from false [] s

abbrev pub starts_with : Text → Text → Bool
starts_with [] s = true
starts_with (p ∷ ps) [] = false
starts_with (p ∷ ps) (c ∷ s) = p == c && starts_with ps s

-- `part in s`
abbrev pub contains_text : Text → Text → Bool
contains_text part [] = starts_with part []
contains_text part (c ∷ s) = starts_with part (c ∷ s) || contains_text part s

-- Digits with single underscores between them, after a digit or not.
unfoldable pub digits_from : Bool → ℕ → Text → Option ℕ
digits_from after_digit n [] = if after_digit then some n else none
digits_from after_digit n (c ∷ s) =
    let digit = digits_from true (n * 10 + (c - 48)) s in
    let underscore = digits_from false n s in
    if is_digit c then digit else if c == b'_' && after_digit then underscore else none

abbrev pub count_digits : Text → ℕ
count_digits [] = 0
count_digits (c ∷ s) = if is_digit c then suc (count_digits s) else count_digits s

abbrev pub negate : ℕ → ℤ
negate zero = pos zero
negate (suc n) = negsuc n

abbrev pub signed : Text → Option ℤ
signed [] = none
signed (c ∷ s) =
    if c == b'-'
    then elim (digits_from false 0 s) [ none ↦ none | some n ↦ some (negate n) ]
    else if c == b'+'
    then elim (digits_from false 0 s) [ none ↦ none | some n ↦ some (pos n) ]
    else elim (digits_from false 0 (c ∷ s)) [ none ↦ none | some n ↦ some (pos n) ]

-- `int(s)`: none for its ValueError, which it also raises for more than 4,300 digits.
unfoldable pub int_of : Text → Option ℤ
unfolding strip digits_from
int_of s = if ltb 4_300 (count_digits s) then none else signed (strip s)
