-- ===== src/Ingest/Selection/Examples.antt =====
-- Tests of idx_parser.py's selectors, and the theorems about them at concrete inputs.
use weather.Common.{ℕ, ◌≡◌, ◌<◌, refl, true, false, none, some, List, [], ◌∷◌, All, arith}
use weather.Common.Text.{Text, codes, strip_lower}
use weather.Common.Decimal.{decimal}
use weather.Common.Strings.{upper}
use weather.Common.Dict.{lookup, text_key}
use weather.Domain.Reclamation.{has}
use weather.Ingest.Index.{IdxRecord}
use weather.Ingest.Rules.{gfs_rule, expected_apcp_description, expected_categorical_description}
use weather.Ingest.Rules.Windows.{reset_window, windows_reset}
use weather.Ingest.Selection.{
  VariableSelection, select_by, select_gfs_records, default_selection_variables, is_valid,
}
use weather.Ingest.Selection.Accounts.{is_missing, is_unsupported, is_ambiguous}
use weather.Ingest.Selection.Statuses.{Says, selection_accounts}
use weather.Ingest.Selection.Order.{IsSorted, any_rule, selected_in_order}

abbrev message : ℕ → ℕ → Text → Text → Text → IdxRecord
message n start param level desc = record {
  record_number = n;
  start_offset = start;
  end_offset = none;
  date_token = codes "d";
  parameter = param;
  level_description = level;
  forecast_description = desc;
  ensemble_description = [];
  raw_line = [];
}

abbrev messages : List IdxRecord
messages =
    message 1 50 (codes "APCP") (codes "surface") (codes "0-6 hour acc fcst")
    ∷ message 2 90 (codes "APCP") (codes "surface") (codes "0-6 hour acc fcst")
    ∷ message 3 10 (codes "TMP") (codes "2 m above ground") (codes "6 hour fcst")
    ∷ []

abbrev wanted : List Text
wanted = codes "precipitation_amount_3h" ∷ codes "temperature_2m" ∷ codes "sunshine" ∷ []

windows_reset_example :
    (expected_apcp_description 9 ≡ reset_window (codes "acc") 9)
    × (expected_categorical_description 9 ≡ reset_window (codes "ave") 9)
windows_reset_example = windows_reset 9

selection_accounts_example :
    (sel : VariableSelection) × (lookup
        (codes "temperature_2m")
        (select_by 6 messages (gfs_rule 6) wanted).variable_selections
      ≡ some sel)
    × Says 6 messages (gfs_rule 6 (codes "temperature_2m")) sel.status sel.chosen_record
    × (has (select_by 6 messages (gfs_rule 6) wanted).missing_required (codes "temperature_2m")
        ≡ is_missing sel.status)
    × (has (select_by 6 messages (gfs_rule 6) wanted).unsupported_variables (codes "temperature_2m")
        ≡ is_unsupported sel.status)
    × (has (select_by 6 messages (gfs_rule 6) wanted).ambiguous_variables (codes "temperature_2m")
        ≡ is_ambiguous sel.status)
selection_accounts_example =
    selection_accounts 6 messages (gfs_rule 6) wanted (codes "temperature_2m") refl

abbrev Numbered : IdxRecord → Type 0
Numbered r = r.record_number < 4

selected_in_order_example :
    IsSorted (select_by 6 messages (gfs_rule 6) wanted).selected_records
    × All
        (λ r. Numbered r × (any_rule 6 (gfs_rule 6) wanted r ≡ true))
        (select_by 6 messages (gfs_rule 6) wanted).selected_records
selected_in_order_example =
    selected_in_order Numbered 6 messages (gfs_rule 6) wanted
      (omega arith, (omega arith, (omega arith, tt)))

select_test :
    (select_gfs_records messages 6 wanted).selected_records
    ≡ message 3 10 (codes "TMP") (codes "2 m above ground") (codes "6 hour fcst")
      ∷ message 1 50 (codes "APCP") (codes "surface") (codes "0-6 hour acc fcst")
      ∷ []
unfolding select_gfs_records strip_lower decimal expected_apcp_description
select_test = refl

invalid_test : is_valid (select_gfs_records messages 6 default_selection_variables) ≡ false
unfolding select_gfs_records is_valid expected_categorical_description upper
    expected_apcp_description strip_lower decimal
invalid_test = refl
