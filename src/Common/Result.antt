-- ===== src/Common/Result.antt =====
-- What the modelled functions raise, and the result of a call that may raise.
use mathlib.Core.Path.{◌≡◌, refl}
use mathlib.Core.Bool.{Bool, true, false}
use mathlib.Core.Option.{Option, none, some}

-- One constructor for each `raise` of the modelled code, and one for each error of the
-- language's own operations that it can reach.
pub data Error : Type 0 where
  empty_horizon negative_lead not_increasing unknown_model empty_models : Error
  bad_cadence naive_datetime unknown_kind not_reset_lead bad_interval : Error
  unknown_variable no_schema bad_members bad_backoff bad_jitter : Error
  empty_index no_record_lines malformed_line bad_record_number non_sequential : Error
  bad_offset negative_offset first_offset non_increasing : Error
  member_required unsupported_model key_error unknown_format unknown_role no_dtype : Error
  index_error overflow_error zero_division struct_error : Error

-- What a call ends with: the exception that it raises, or the value that it returns.
pub data Result {ℓ} (Value : Type ℓ) : Type ℓ where
  raises : Error → Result Value
  ok : Value → Result Value

abbrev pub ◌>>=◌ {ℓ κ} :
    {Value : Type ℓ} {Next : Type κ} → Result Value → (Value → Result Next) → Result Next
raises error >>= next = raises error
ok value >>= next = next value

abbrev pub ◌>>◌ {ℓ} : {Next : Type ℓ} → Result (Unit {0}) → Result Next → Result Next
raises error >> next = raises error
ok done >> next = next

infixl 5 ◌>>=◌ ◌>>◌
-- `if test: raise error`
abbrev pub raise_if : Bool → Error → Result (Unit {0})
raise_if true e = raises e
raise_if false e = ok tt

abbrev pub or_raise {ℓ} : {A : Type ℓ} → Option A → Error → Result A
or_raise none e = raises e
or_raise (some a) e = ok a

-- What the parts of a call return when the whole returns.
pub >>=-eq-ok {ℓ κ} :
    {Value : Type ℓ} {Next : Type κ} (call : Result Value) (next : Value → Result Next) {b : Next}
    → (call >>= next) ≡ ok b
    → (value : Value) × (call ≡ ok value) × (next value ≡ ok b)
>>=-eq-ok (raises error) next returns = cc
>>=-eq-ok (ok value) next returns = (value, refl, returns)

pub >>-eq-ok {ℓ} :
    {Next : Type ℓ} (check : Result (Unit {0})) (next : Result Next) {b : Next}
    → (check >> next) ≡ ok b
    → next ≡ ok b
>>-eq-ok (raises error) next returns = cc
>>-eq-ok (ok done) next returns = returns

pub raise_if-eq-ok {ℓ} :
    {Next : Type ℓ} (test : Bool) (e : Error) (next : Result Next) {b : Next}
    → (raise_if test e >> next) ≡ ok b
    → test ≡ false
raise_if-eq-ok true e next returns = cc
raise_if-eq-ok false e next returns = refl

pub ok-inj {ℓ} : {Value : Type ℓ} {a b : Value} → ok a ≡ ok b → a ≡ b
ok-inj h = cc
