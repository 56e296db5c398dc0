-- ===== src/Ingest/Rules.antt =====
-- services/ingestion/src/ingestion/providers/noaa/idx_parser.py: how the two selectors look for a
-- variable. Their branches differ in the names that they compare with, so a branch is a `Rule`.
pub mod Windows
use weather.Common.{
  ℕ, zero, suc, ◌+◌, ◌-◌, ◌%◌, Bool, true, false, not, ◌&&◌, ◌||◌, Option, none, some, List, [],
  ◌∷◌, ◌++◌, ltb, leb, ◌==◌, if◌then◌else◌, keep, any,
}
use weather.Common.Result.{Result, ok, raises, Error}
use weather.Common.Text.{Text, codes, text_eq, strip_lower, lower}
use weather.Common.Decimal.{decimal, padded}
use weather.Common.Strings.{strip, upper, contains_text}
use weather.Common.Dict.{Dict, insert, text_key}
use weather.Domain.Reclamation.{has}
use weather.Ingest.Index.{IdxRecord}

-- `f"{lead} hour fcst"`
abbrev pub hour_forecast : ℕ → Text
hour_forecast lead = decimal lead ++ codes " hour fcst"

pub matches_step : Text → ℕ → Bool
matches_step desc lead =
    let clean = strip_lower desc in
    if lead == 0
    then has (codes "anl" ∷ codes "0 hour fcst" ∷ codes "0 hour fcst:" ∷ []) clean
    else text_eq clean (hour_forecast lead)

-- `f"{first}-{lead} hour <kind> fcst"`
abbrev pub window_description : Text → ℕ → ℕ → Text
window_description kind first lead =
    decimal first ++ (codes "-" ++ (decimal lead ++ (codes " hour " ++ (kind ++ codes " fcst"))))

unfoldable pub expected_apcp_description : ℕ → Option Text
expected_apcp_description lead =
    if leb lead 0
    then none
    else if lead % 6 == 3
    then some (window_description (codes "acc") (lead - 3) lead)
    else if lead % 6 == 0
    then some (window_description (codes "acc") (lead - 6) lead)
    else none

unfoldable pub expected_categorical_description : ℕ → Option Text
expected_categorical_description lead =
    if leb lead 0
    then none
    else if lead % 6 == 3
    then some (window_description (codes "ave") (lead - 3) lead)
    else if lead % 6 == 0
    then some (window_description (codes "ave") (lead - 6) lead)
    else none

-- The tests for a member, with `prefix` before its number in two forms.
abbrev pub names_member : Text → ℕ → Text → Bool
names_member clean m prefix =
    text_eq clean (prefix ++ decimal m) || text_eq clean (prefix ++ padded 2 m)

abbrev pub names_target : Text → Option ℕ → Bool
names_target clean none = false
names_target clean (some m) =
    names_member clean m (codes "ENS=+")
    || (names_member clean m (codes "ENS=")
        || (m == 0 && has (codes "ENS=0" ∷ codes "ENS=c00" ∷ codes "ENS=ctl" ∷ []) clean))

unfoldable pub matches_gefs_member : Text → Option ℕ → Bool → Bool
matches_gefs_member ens_desc target_member is_mean =
    let clean = strip ens_desc in
    if is_mean
    then has (codes "ens mean" ∷ codes "ens_mean" ∷ [] ∷ []) (lower clean)
    else (text_eq clean [] || names_target clean target_member)

-- How a branch of a selector looks for its variable: by parameter and level at the step of the
-- lead; in the same way but never averaged or accumulated; by an expected description of an
-- interval; or not at all.
pub data Rule : Type 0 where
  at_step : Text → Text → Rule
  instantaneous : Text → Text → Rule
  over_interval : Text → Text → Option Text → Rule
  no_record : Rule

abbrev pub two_metres : Text
two_metres = codes "2 m above ground"

abbrev pub ten_metres : Text
ten_metres = codes "10 m above ground"

abbrev pub surface : Text
surface = codes "surface"

-- The branches for variables over an interval, and the last two, which both selectors share.
unfoldable pub interval_rule : ℕ → Text → Rule
interval_rule lead var =
    if text_eq var (codes "precipitation_amount_3h")
    then over_interval (codes "APCP") surface (expected_apcp_description lead)
    else if has (codes "crain" ∷ codes "csnow" ∷ codes "cfrzr" ∷ codes "cicep" ∷ []) var
    then over_interval (upper var) surface (expected_categorical_description lead)
    else if text_eq var (codes "cloud_cover_3h")
    then over_interval (codes "TCDC") (codes "entire atmosphere")
        (expected_categorical_description lead)
    else if text_eq var (codes "cloud_ceiling")
    then at_step (codes "HGT") (codes "cloud ceiling")
    else no_record

-- The branches from the humidity to the wind, which both selectors share.
unfoldable pub surface_rule : ℕ → Text → Rule
unfolding interval_rule
surface_rule lead var =
    if text_eq var (codes "relative_humidity_2m")
    then at_step (codes "RH") two_metres
    else if text_eq var (codes "wind_gust")
    then at_step (codes "GUST") surface
    else if text_eq var (codes "visibility")
    then at_step (codes "VIS") surface
    else if text_eq var (codes "snow_depth")
    then at_step (codes "SNOD") surface
    else if text_eq var (codes "wind_u_10m")
    then at_step (codes "UGRD") ten_metres
    else if text_eq var (codes "wind_v_10m")
    then at_step (codes "VGRD") ten_metres
    else interval_rule lead var

unfoldable pub gfs_rule : ℕ → Text → Rule
unfolding surface_rule
gfs_rule lead var =
    if text_eq var (codes "temperature_2m")
    then at_step (codes "TMP") two_metres
    else if text_eq var (codes "precipitation_rate")
    then instantaneous (codes "PRATE") surface
    else surface_rule lead var

unfoldable pub gefs_rule : ℕ → Text → Rule
unfolding surface_rule
gefs_rule lead var =
    if text_eq var (codes "temperature_2m")
    then at_step (codes "TMP") two_metres
    else if text_eq var (codes "precipitation_rate")
    then no_record
    else surface_rule lead var

abbrev pub is_parameter : Text → Text → IdxRecord → Bool
is_parameter param level r = text_eq r.parameter param && text_eq r.level_description level

-- The test of a comprehension over the records, for a record that is of the right member.
unfoldable pub matches_rule : ℕ → Rule → IdxRecord → Bool
unfolding matches_step
matches_rule lead (at_step param level) r =
    is_parameter param level r && matches_step r.forecast_description lead
matches_rule lead (instantaneous param level) r =
    is_parameter param level r
    && (matches_step r.forecast_description lead
        && (not (contains_text (codes "ave fcst") r.forecast_description)
            && not (contains_text (codes "acc fcst") r.forecast_description)))
matches_rule lead (over_interval param level none) r = false
matches_rule lead (over_interval param level (some desc)) r =
    is_parameter param level r && text_eq (strip_lower r.forecast_description) desc
matches_rule lead no_record r = false
