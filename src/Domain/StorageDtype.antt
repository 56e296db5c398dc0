-- ===== src/Domain/StorageDtype.antt =====
-- packages/domain/src/domain/storage_dtype.py: the dtype of a shard's payload.
use weather.Common.{
  Bool, true, false, ◌||◌, not, Option, none, some, List, [], ◌∷◌, ◌++◌, if◌then◌else◌,
}
use weather.Common.Result.{Result, ok, raises, Error}
use weather.Common.Text.{Text, codes, text_eq}
use weather.Domain.Reclamation.{det, mem, mean, has}
pub mod Contract
mod Examples

abbrev pub sharded_v1 : Text
sharded_v1 = codes "sharded_v1"

abbrev pub sharded_v2 : Text
sharded_v2 = codes "sharded_v2"

abbrev pub float16_variables : List Text
float16_variables =
    codes "temperature_2m"
    ∷ codes "relative_humidity_2m"
    ∷ codes "wind_u_10m"
    ∷ codes "wind_v_10m"
    ∷ codes "wind_gust"
    ∷ codes "precipitation_rate"
    ∷ codes "cloud_cover_3h"
    ∷ codes "snow_depth"
    ∷ codes "visibility"
    ∷ []

abbrev pub float32_variables : List Text
float32_variables = codes "precipitation_amount_3h" ∷ codes "cloud_ceiling" ∷ []

abbrev pub flag_variables : List Text
flag_variables = codes "crain" ∷ codes "csnow" ∷ codes "cfrzr" ∷ codes "cicep" ∷ []

unfoldable pub known_variables : List Text
known_variables = float16_variables ++ (float32_variables ++ flag_variables)

-- The three dtypes, little-endian.
pub data PayloadDtype : Type 0 where
  float16_le float32_le uint8 : PayloadDtype

pub is_sharded_payload_format : Option Text → Bool
is_sharded_payload_format none = false
is_sharded_payload_format (some version) = has (sharded_v1 ∷ sharded_v2 ∷ []) version

unfoldable pub resolve_storage_dtype : Text → Text → Text → Result PayloadDtype
resolve_storage_dtype format_version variable product_role =
    if text_eq format_version sharded_v1
    then ok float32_le
    else if not (text_eq format_version sharded_v2)
    then raises Error.unknown_format
    else if not (has (det ∷ mem ∷ mean ∷ []) product_role)
    then raises Error.unknown_role
    else if has float16_variables variable
    then ok float16_le
    else if has float32_variables variable
    then ok float32_le
    else if has flag_variables variable
    then (if text_eq product_role mean then ok float32_le else ok uint8)
    else raises Error.no_dtype
