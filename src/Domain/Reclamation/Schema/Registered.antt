-- ===== src/Domain/Reclamation/Schema/Registered.antt =====
-- What a registration of expected variables changes.
use mathlib.Core.Path.{ap₂}
use weather.Common.{◌≡◌, refl, ap, ◌∙◌, false, Option, none, some, List, arith}
use weather.Common.Result.{Result, ok, Error, or_raise}
use weather.Common.Text.{Text, text_eq, normalize}
use weather.Common.Dict.{lookup, lookup-insert, lookup-insert_self, pair_key}
use weather.Domain.Reclamation.Schema.{
  VariableSchema, version_key, stored_version, versioned_entry, found_or,
  register_expected_region_variables, get_expected_region_variables,
}

-- What an entry of another model is after a registration.
other_versioned :
    (s : VariableSchema) (model kind : Text) (variables : List Text) (version : Option Text)
    (other its_kind : Text) (its_version : Option Text)
    → text_eq (normalize model) (normalize other) ≡ false
    → versioned_entry
        (register_expected_region_variables s model kind variables version)
        other
        its_kind
        its_version
      ≡ versioned_entry s other its_kind its_version
unfolding register_expected_region_variables
other_versioned s model kind variables version other its_kind none n = refl
other_versioned s model kind variables version other its_kind (some w) n = ground (
  arith,
  n,
  lookup-insert (normalize model, stored_version version, normalize kind)
      (normalize other, normalize w, normalize its_kind) variables s.versioned,
)

other_unversioned :
    (s : VariableSchema) (model kind : Text) (variables : List Text) (version : Option Text)
    (other its_kind : Text)
    → text_eq (normalize model) (normalize other) ≡ false
    → lookup
        (normalize other, normalize its_kind)
        (register_expected_region_variables s model kind variables version).unversioned
      ≡ lookup (normalize other, normalize its_kind) s.unversioned
unfolding register_expected_region_variables
other_unversioned s model kind variables version other its_kind n = ground (
  arith,
  n,
  lookup-insert (normalize model, normalize kind) (normalize other, normalize its_kind) variables
      s.unversioned,
)

found_first :
    (o : Option (List Text)) (variables : List Text) (rest : Result (List Text))
    → o ≡ some variables
    → found_or o rest ≡ ok variables
found_first o variables rest e = ap (λ (p : Option (List Text)). found_or p rest) e

own_unversioned :
    (s : VariableSchema) (model kind : Text) (variables : List Text) (version : Option Text)
    (fallback : Option (List Text))
    → found_or
        (lookup
          (normalize model, normalize kind)
          (register_expected_region_variables s model kind variables version).unversioned)
        (or_raise fallback Error.no_schema)
      ≡ ok variables
unfolding register_expected_region_variables
own_unversioned s model kind variables version fallback =
    found_first _ variables _
      (lookup-insert_self (normalize model, normalize kind) variables s.unversioned)

own_versioned :
    (s : VariableSchema) (model kind : Text) (variables : List Text) (version : Option Text)
    (fallback : Option (List Text))
    → get_expected_region_variables
        (register_expected_region_variables s model kind variables version)
        model
        kind
        version
        fallback
      ≡ ok variables
unfolding register_expected_region_variables get_expected_region_variables
own_versioned s model kind variables none fallback =
    found_first _ variables _
      (lookup-insert_self (normalize model, normalize kind) variables s.unversioned)
own_versioned s model kind variables (some version) fallback =
    found_first _ variables _ (
      lookup-insert_self (normalize model, normalize version, normalize kind) variables s.versioned)

-- A lookup reads its model and kind through their normal forms.
respelled :
    (s : VariableSchema) (model its_model kind its_kind : Text) (version : Option Text)
    (fallback : Option (List Text))
    → normalize its_model ≡ normalize model
    → normalize its_kind ≡ normalize kind
    → get_expected_region_variables s its_model its_kind version fallback
      ≡ get_expected_region_variables s model kind version fallback
unfolding get_expected_region_variables
respelled s model its_model kind its_kind none fallback e f =
    ap₂ (λ (m k : Text). found_or (lookup (m, k) s.unversioned) (or_raise fallback Error.no_schema))
      e f
respelled s model its_model kind its_kind (some version) fallback e f =
    ap₂
      (λ (m k : Text).
        found_or (lookup (m, normalize version, k) s.versioned)
          (found_or (lookup (m, k) s.unversioned) (or_raise fallback Error.no_schema)))
      e f

-- After a registration of variables for a model, a kind and perhaps a version, a lookup of that
-- model and kind, under every spelling with the same normal form, answers these variables, both
-- for the version that was given and without a version; and the lookups of a model whose id has
-- another normal form answer or raise as before.
pub registered_schema :
    (s : VariableSchema) (model kind its_model its_kind other other_kind : Text)
    (variables : List Text) (version other_version : Option Text) (fallback : Option (List Text))
    → normalize its_model ≡ normalize model
    → normalize its_kind ≡ normalize kind
    → text_eq (normalize model) (normalize other) ≡ false
    → let s' = register_expected_region_variables s model kind variables version in
      (get_expected_region_variables s' its_model its_kind version fallback ≡ ok variables)
      × (get_expected_region_variables s' its_model its_kind none fallback ≡ ok variables)
      × (get_expected_region_variables s' other other_kind other_version fallback
          ≡ get_expected_region_variables s other other_kind other_version fallback)
unfolding get_expected_region_variables
registered_schema s model kind its_model its_kind other other_kind variables version other_version
      fallback e f n =
    let s' = register_expected_region_variables s model kind variables version in
    (
      respelled s' model its_model kind its_kind version fallback e f
          ∙ own_versioned s model kind variables version fallback,
      respelled s' model its_model kind its_kind none fallback e f
          ∙ own_unversioned s model kind variables version fallback,
      ap₂
          (λ (o p : Option (List Text)).
            found_or o (found_or p (or_raise fallback Error.no_schema)))
          (other_versioned s model kind variables version other other_kind other_version n)
          (other_unversioned s model kind variables version other other_kind n),
    )
