-- ===== src/Domain/StorageDtype/Contract.antt =====
-- storage_dtype.py: which writes and reads have a dtype, and where the role of the product counts.
use weather.Common.{
  ◌≡◌, ◌≢◌, refl, sym, ap, ◌∙◌, Bool, true, false, ◌&&◌, ◌||◌, not, List, [], ◌∷◌, ◌++◌, arith,
  if◌then◌else◌,
}
use weather.Common.Result.{Result, ok, raises, Error}
use weather.Common.Text.{Text, text_eq}
use weather.Domain.Reclamation.{det, mem, mean, has}
use weather.Domain.StorageDtype.{
  sharded_v1, sharded_v2, float16_variables, float32_variables, flag_variables, known_variables,
  PayloadDtype, float16_le, float32_le, uint8, resolve_storage_dtype,
}

abbrev pub returns_value {ℓ} : {A : Type ℓ} → Result A → Bool
returns_value (raises e) = false
returns_value (ok a) = true

has-append : (xs ys : List Text) (v : Text) → has (xs ++ ys) v ≡ (has xs v || has ys v)
has-append [] ys v = refl
has-append (x ∷ xs) ys v = ground (arith, has-append xs ys v)

-- The tests of the code as Booleans.
abbrev resolved : Bool → Bool → Bool → Bool → Bool → Bool → Bool → Result PayloadDtype
resolved v1 v2 role f16 f32 flag is_mean =
    if v1
    then ok float32_le
    else if not v2
    then raises Error.unknown_format
    else if not role
    then raises Error.unknown_role
    else if f16
    then ok float16_le
    else if f32
    then ok float32_le
    else if flag
    then (if is_mean then ok float32_le else ok uint8)
    else raises Error.no_dtype

resolved-returns_value :
    (v1 v2 role f16 f32 flag is_mean : Bool)
    → returns_value (resolved v1 v2 role f16 f32 flag is_mean)
      ≡ (v1 || (v2 && role && (f16 || (f32 || flag))))
resolved-returns_value v1 v2 role f16 f32 flag is_mean = ground arith

mean_resolved : (v1 v2 f16 f32 flag : Bool) → (resolved v1 v2 true f16 f32 flag true) ≢ ok uint8
mean_resolved true v2 f16 f32 flag = λ e. cc
mean_resolved false false f16 f32 flag = λ e. cc
mean_resolved false true true f32 flag = λ e. cc
mean_resolved false true false true flag = λ e. cc
mean_resolved false true false false true = λ e. cc
mean_resolved false true false false false = λ e. cc

-- For every format, variable and role: a dtype is returned exactly when the format is the first,
-- or it is the second and the role and the variable are known; the deterministic product and the
-- members have the same dtypes and errors; and the mean is never stored as bytes.
pub dtype_matrix :
    (format_version variable product_role : Text)
    → (returns_value (resolve_storage_dtype format_version variable product_role) ≡ (
        text_eq format_version sharded_v1
        || (text_eq format_version sharded_v2
            && has (det ∷ mem ∷ mean ∷ []) product_role
            && has known_variables variable)))
      × (resolve_storage_dtype format_version variable mem
          ≡ resolve_storage_dtype format_version variable det)
      × (resolve_storage_dtype format_version variable mean ≢ ok uint8)
unfolding resolve_storage_dtype known_variables
dtype_matrix format_version variable product_role =
    let known : has known_variables variable ≡ (
        has float16_variables variable
        || (has float32_variables variable || has flag_variables variable)) =
      has-append float16_variables (float32_variables ++ flag_variables) variable
      ∙ ap (λ b. has float16_variables variable || b)
          (has-append float32_variables flag_variables variable) in
    (
      resolved-returns_value (text_eq format_version sharded_v1) (text_eq format_version sharded_v2)
            (has (det ∷ mem ∷ mean ∷ []) product_role) (has float16_variables variable)
            (has float32_variables variable) (has flag_variables variable)
            (text_eq product_role mean)
          ∙ ap
              (λ b.
                text_eq format_version sharded_v1
                || (text_eq format_version sharded_v2
                    && has (det ∷ mem ∷ mean ∷ []) product_role
                    && b))
              (sym known),
      refl,
      mean_resolved (text_eq format_version sharded_v1) (text_eq format_version sharded_v2)
          (has float16_variables variable) (has float32_variables variable)
          (has flag_variables variable),
    )
