-- ===== src/Domain/StorageDtype/Examples.antt =====
-- storage_dtype.py: the dtypes of concrete variables.
use weather.Common.{◌≡◌, ◌≢◌, refl, true}
use weather.Common.Result.{ok, raises, Error}
use weather.Common.Text.{codes}
use weather.Domain.Reclamation.{det, mem, mean}
use weather.Domain.StorageDtype.{
  sharded_v2, known_variables, float32_le, uint8, resolve_storage_dtype,
}
use weather.Domain.StorageDtype.Contract.{returns_value, dtype_matrix}

rain_flag : resolve_storage_dtype sharded_v2 (codes "crain") mem ≡ ok uint8
unfolding resolve_storage_dtype
rain_flag = refl

rain_probability : resolve_storage_dtype sharded_v2 (codes "crain") mean ≡ ok float32_le
unfolding resolve_storage_dtype
rain_probability = refl

pressure_refused : resolve_storage_dtype sharded_v2 (codes "pressure") det ≡ raises Error.no_dtype
unfolding resolve_storage_dtype
pressure_refused = refl

dtype_matrix_example :
    (returns_value (resolve_storage_dtype sharded_v2 (codes "crain") mean) ≡ true)
    × (resolve_storage_dtype sharded_v2 (codes "crain") mem
        ≡ resolve_storage_dtype sharded_v2 (codes "crain") det)
    × (resolve_storage_dtype sharded_v2 (codes "crain") mean ≢ ok uint8)
unfolding known_variables
dtype_matrix_example = dtype_matrix sharded_v2 (codes "crain") mean
