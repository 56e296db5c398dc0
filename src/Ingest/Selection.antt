-- ===== src/Ingest/Selection.antt =====
-- services/ingestion/src/ingestion/providers/noaa/idx_parser.py: the selection of the records of
-- the platform's variables from an index.
pub mod Accounts
pub mod Statuses
pub mod Order
mod Examples
use weather.Common.{
  ℕ, zero, suc, ◌+◌, ◌-◌, ◌%◌, Bool, true, false, not, ◌&&◌, ◌||◌, Option, none, some, List, [],
  ◌∷◌, ◌++◌, ltb, leb, ◌==◌, if◌then◌else◌, keep, any,
}
use weather.Common.Result.{Result, ok, raises, Error}
use weather.Common.Text.{Text, codes, text_eq, strip_lower, lower}
use weather.Common.Decimal.{decimal, padded}
use weather.Common.Strings.{strip, upper, contains_text}
use weather.Common.Dict.{Dict, insert, text_key}
use weather.Domain.Reclamation.{has}
use weather.Ingest.Index.{IdxRecord}
use weather.Ingest.Rules.{
  Rule, at_step, instantaneous, over_interval, no_record, matches_rule, matches_gefs_member,
  gfs_rule, gefs_rule,
}

abbrev pub default_selection_variables : List Text
default_selection_variables =
    codes "temperature_2m"
    ∷ codes "precipitation_rate"
    ∷ codes "precipitation_amount_3h"
    ∷ codes "crain"
    ∷ codes "csnow"
    ∷ codes "cfrzr"
    ∷ codes "cicep"
    ∷ codes "relative_humidity_2m"
    ∷ codes "wind_gust"
    ∷ codes "visibility"
    ∷ codes "snow_depth"
    ∷ codes "wind_u_10m"
    ∷ codes "wind_v_10m"
    ∷ codes "cloud_cover_3h"
    ∷ codes "cloud_ceiling"
    ∷ []

pub data SelectionStatus : Type 0 where
  selected unsupported required_but_missing ambiguous : SelectionStatus

pub record VariableSelection : Type 0 where
  pub variable_code : Text
  pub status : SelectionStatus
  pub chosen_record : Option IdxRecord
  pub matched_records : List IdxRecord

pub record SelectionResult : Type 0 where
  pub selected_records : List IdxRecord
  pub variable_selections : Dict Text VariableSelection
  pub missing_required : List Text
  pub unsupported_variables : List Text
  pub ambiguous_variables : List Text

abbrev pub is_empty_list : List Text → Bool
is_empty_list [] = true
is_empty_list (x ∷ xs) = false

unfoldable pub is_valid : SelectionResult → Bool
is_valid r = is_empty_list r.missing_required && is_empty_list r.ambiguous_variables

-- `if len(matches) > 1: matches = [matches[0]]`
abbrev pub first_only : List IdxRecord → List IdxRecord
first_only [] = []
first_only (r ∷ rs) = r ∷ []

-- `_record_selection`; the lists that it appends to are those of the result.
unfoldable pub record_selection : Text → List IdxRecord → SelectionResult → SelectionResult
record_selection var [] st = record st {
  variable_selections =
      insert var
        (record {
          variable_code = var;
          status = required_but_missing;
          chosen_record = none;
          matched_records = [];
        })
        st.variable_selections;
  missing_required = st.missing_required ++ var ∷ [];
}
record_selection var (r ∷ []) st = record st {
  variable_selections =
      insert var
        (record {
          variable_code = var;
          status = selected;
          chosen_record = some r;
          matched_records = r ∷ [];
        })
        st.variable_selections;
  selected_records = st.selected_records ++ r ∷ [];
}
record_selection var (r ∷ s ∷ rs) st = record st {
  variable_selections =
      insert var
        (record {
          variable_code = var;
          status = ambiguous;
          chosen_record = none;
          matched_records = r ∷ s ∷ rs;
        })
        st.variable_selections;
  ambiguous_variables = st.ambiguous_variables ++ var ∷ [];
}

abbrev pub mark_unsupported : Text → SelectionResult → SelectionResult
mark_unsupported var st = record st {
  variable_selections =
      insert var
        (record {
          variable_code = var;
          status = unsupported;
          chosen_record = none;
          matched_records = [];
        })
        st.variable_selections;
  unsupported_variables = st.unsupported_variables ++ var ∷ [];
}

-- At analysis time an interval variable is selected without a record.
abbrev pub mark_empty : Text → SelectionResult → SelectionResult
mark_empty var st = record st {
  variable_selections =
      insert var
        (record {
          variable_code = var;
          status = selected;
          chosen_record = none;
          matched_records = [];
        })
        st.variable_selections;
}

-- The body of a branch, over the records of the right member.
unfoldable pub apply_rule : ℕ → List IdxRecord → Rule → Text → SelectionResult → SelectionResult
unfolding record_selection matches_rule
apply_rule lead records (at_step param level) var st =
    record_selection var (keep (matches_rule lead (at_step param level)) records) st
apply_rule lead records (instantaneous param level) var st =
    record_selection var (keep (matches_rule lead (instantaneous param level)) records) st
apply_rule lead records (over_interval param level none) var st =
    if lead == 0 then mark_empty var st else mark_unsupported var st
apply_rule lead records (over_interval param level (some desc)) var st =
    if lead == 0
    then mark_empty var st
    else record_selection var
        (first_only (keep (matches_rule lead (over_interval param level (some desc))) records)) st
apply_rule lead records no_record var st = mark_unsupported var st

-- The loop over the variables.
unfoldable pub select_all :
    ℕ → List IdxRecord → (Text → Rule) → List Text → SelectionResult → SelectionResult
unfolding apply_rule
select_all lead records rule [] st = st
select_all lead records rule (var ∷ vars) st =
    select_all lead records rule vars (apply_rule lead records (rule var) var st)

-- `sorted` by the start offset; the sort is stable.
abbrev pub insert_by_offset : IdxRecord → List IdxRecord → List IdxRecord
insert_by_offset r [] = r ∷ []
insert_by_offset r (s ∷ rs) =
    if leb r.start_offset s.start_offset then r ∷ s ∷ rs else s ∷ insert_by_offset r rs

unfoldable pub sort_by_offset : List IdxRecord → List IdxRecord
sort_by_offset [] = []
sort_by_offset (r ∷ rs) = insert_by_offset r (sort_by_offset rs)

abbrev pub no_selection : SelectionResult
no_selection = record {
  selected_records = [];
  variable_selections = [];
  missing_required = [];
  unsupported_variables = [];
  ambiguous_variables = [];
}

-- A selector: its loop, and the sort of what it selected.
unfoldable pub select_by : ℕ → List IdxRecord → (Text → Rule) → List Text → SelectionResult
unfolding select_all sort_by_offset
select_by lead records rule variables =
    let found = select_all lead records rule variables no_selection in
    record found { selected_records = sort_by_offset found.selected_records }

unfoldable pub select_gfs_records : List IdxRecord → ℕ → List Text → SelectionResult
unfolding select_by gfs_rule
select_gfs_records records lead variables = select_by lead records (gfs_rule lead) variables

unfoldable pub select_gefs_records :
    List IdxRecord → Option ℕ → ℕ → List Text → Bool → SelectionResult
unfolding select_by gefs_rule matches_gefs_member
select_gefs_records records member lead variables is_mean =
    select_by lead (keep (λ r. matches_gefs_member r.ensemble_description member is_mean) records)
      (gefs_rule lead) variables

abbrev pub is_absent : Option ℕ → Bool
is_absent none = true
is_absent (some m) = false

pub select_records :
    Text → List IdxRecord → ℕ → List Text → Option ℕ → Bool → Result SelectionResult
unfolding select_gfs_records select_gefs_records
select_records model records lead variables member is_mean =
    if text_eq model (codes "gfs")
    then ok (select_gfs_records records lead variables)
    else if text_eq model (codes "gefs")
    then (if is_absent member && not is_mean
        then raises Error.member_required
        else ok (select_gefs_records records member lead variables is_mean))
    else raises Error.unsupported_model
