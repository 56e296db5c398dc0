-- ===== src/Storage/Region.antt =====
-- The identities of logical regions and their object keys: `logical_region_encoding` of
-- packages/domain/src/domain/locks.py, `marker_key` of services/ingestion/src/ingestion/core/
-- markers.py, and the parsers of core/coordinator.py and core/zarr_writer.py.
pub mod Roundtrip
pub mod Keys
mod Examples
use weather.Common.{
  ℕ, zero, suc, ◌+◌, Bool, true, false, ◌&&◌, Option, none, some, List, [], ◌∷◌, ◌++◌, ◌==◌,
  if◌then◌else◌, take, drop,
}
use weather.Common.Text.{Text, codes, text_eq}
use weather.Common.Decimal.{padded, parse_int}

abbrev pub lead_token : ℕ → Text
lead_token lead = b'L' ∷ padded 4 lead

unfoldable pub logical_region_encoding : ℕ → Option ℕ → Bool → Text
logical_region_encoding lead member true = codes "mean_" ++ lead_token lead
logical_region_encoding lead none false = codes "det_" ++ lead_token lead
logical_region_encoding lead (some m) false =
    codes "mem" ++ (padded 3 m ++ (b'_' ∷ lead_token lead))

unfoldable pub marker_key : ℕ → Option ℕ → Bool → Text
unfolding logical_region_encoding
marker_key lead member is_mean =
    codes "__commit__/v1/regions"
    ++ (b'/' ∷ (logical_region_encoding lead member is_mean ++ codes ".json"))

-- The key under which ingestion stores the shard of a variable and a region.
unfoldable pub encoded_key : Text → Option ℕ → ℕ → Bool → Text
encoded_key variable member lead true =
    variable ++ (codes "/shard.mean_" ++ (lead_token lead ++ codes ".shard"))
encoded_key variable (some m) lead false =
    variable ++ (codes "/shard.mem" ++ (padded 3 m ++ (b'_' ∷ (lead_token lead ++ codes ".shard"))))
encoded_key variable none lead false =
    variable ++ (codes "/shard.det_" ++ (lead_token lead ++ codes ".shard"))

-- The key under which the serving tier looks for it.
unfoldable pub get_shard_key : Text → Option ℕ → ℕ → Bool → Text
get_shard_key variable member lead is_mean =
    if is_mean
    then variable ++ (codes "/shard.mean_L" ++ (padded 4 lead ++ codes ".shard"))
    else elim member [
      | some m ↦
          variable
          ++ (codes "/shard.mem"
              ++ (padded 3 m ++ (codes "_L" ++ (padded 4 lead ++ codes ".shard"))))
      | none ↦ variable ++ (codes "/shard.det_L" ++ (padded 4 lead ++ codes ".shard"))
    ]

-- `text.startswith(prefix)`
abbrev pub starts_with : Text → Text → Bool
starts_with [] s = true
starts_with (p ∷ ps) [] = false
starts_with (p ∷ ps) (c ∷ s) = p == c && starts_with ps s

-- What `text.partition("_L")` leaves behind the first separator.
pub after_separator : Text → Text
after_separator [] = []
after_separator (c ∷ []) = []
after_separator (c ∷ d ∷ s) =
    let rest = after_separator (d ∷ s) in if (c == b'_') && (d == b'L') then s else rest

abbrev pub with_member : Option ℕ → Option ℕ → Option (Option ℕ × ℕ)
with_member none lead = none
with_member (some m) none = none
with_member (some m) (some lead) = some (some m, lead)

abbrev pub without_member : Option ℕ → Option (Option ℕ × ℕ)
without_member none = none
without_member (some lead) = some (none, lead)

-- `_parse_region_id`; `none` stands for its `ValueError`.
pub parse_region_id : Text → Option (Option ℕ × ℕ)
unfolding after_separator
parse_region_id s =
    if starts_with (codes "det_") s
    then without_member (parse_int (drop 5 s))
    else if starts_with (codes "mean_") s
    then without_member (parse_int (drop 6 s))
    else if starts_with (codes "mem") s
    then with_member (parse_int (take 3 (drop 3 s))) (parse_int (after_separator s))
    else none

pub is_mean_region_id : Text → Bool
is_mean_region_id s = starts_with (codes "mean_") s
