-- ===== src/Domain/Cadence/Contract.antt =====
-- The contract of cadence.py: the cadences handed out are positive, and a registration is what
-- the next query answers.
use weather.Common.{
  ℕ, suc, ◌<◌, ◌≡◌, true, false, Option, none, some, [], ◌∷◌, arith, All, if◌then◌else◌,
  Option-cases, inl, inr,
}
use weather.Common.Int.{ℤ, pos, pos_part}
use weather.Common.Result.{ok, raises, Error}
use weather.Common.Text.{Text, text_eq, normalize}
use weather.Common.Dict.{lookup, insert, text_key, lookup-insert}
use weather.Domain.Cadence.{
  CadenceTable, canonical_cycle_cadence_hours, register_canonical_cycle_cadence,
  is_cycle_cadence_registered,
}

-- Every cadence of the table is positive.
abbrev pub IsPositive : CadenceTable → Type 0
IsPositive table = All (λ e. 0 < e.1) table

lookup-pos :
    (k : Text) (table : CadenceTable) (c : ℕ) → IsPositive table → lookup k table ≡ some c → 0 < c
lookup-pos k [] c h e = cc
lookup-pos k ((j, v) ∷ table) c h e = ground (arith, lookup-pos k table c h.1)

insert-IsPositive :
    (k : Text) (c : ℕ) (table : CadenceTable)
    → 0 < c
    → IsPositive table
    → IsPositive (insert k c table)
insert-IsPositive k c [] p h = (p, tt)
insert-IsPositive k c ((j, v) ∷ table) p h = ground (arith, insert-IsPositive k c table p h.1)

-- A registration that passes keeps every cadence of the table positive.
pub register-IsPositive :
    (table later : CadenceTable) (model : Text) (hours : ℤ)
    → IsPositive table
    → register_canonical_cycle_cadence table model hours ≡ ok later
    → IsPositive later
unfolding register_canonical_cycle_cadence
register-IsPositive table later model hours h e =
    ground (arith, insert-IsPositive (normalize model) (pos_part hours) table)

-- A cadence that is handed out from such a table is positive, the default included.
pub cadence_positive :
    (table : CadenceTable) (model : Text) (default_if_unknown : Option ℤ) (c : ℕ)
    → IsPositive table
    → canonical_cycle_cadence_hours table model default_if_unknown ≡ ok c
    → 0 < c
unfolding canonical_cycle_cadence_hours
cadence_positive table model default_if_unknown c h e =
    ground (arith, lookup-pos (normalize model) table c h)

-- After a registration of a positive cadence the query answers it, under every spelling of the
-- model and whatever the default, and the answer for every other model is the old one.
pub cadence-register :
    (table : CadenceTable) (model other : Text) (c : ℕ) (default_if_unknown : Option ℤ)
    → (later : CadenceTable) × (register_canonical_cycle_cadence table model (pos (suc c))
        ≡ ok later)
      × (canonical_cycle_cadence_hours later other default_if_unknown ≡ (
          if text_eq (normalize model) (normalize other)
          then ok (suc c)
          else canonical_cycle_cadence_hours table other default_if_unknown))
unfolding register_canonical_cycle_cadence canonical_cycle_cadence_hours
cadence-register table model other c default_if_unknown = (
  insert (normalize model) (suc c) table,
  ground arith,
  ground (arith, lookup-insert (normalize model) (normalize other) (suc c) table),
)

-- A model is registered exactly when the query without a default answers.
pub registered_iff :
    (table : CadenceTable) (model : Text)
    → (is_cycle_cadence_registered table model ≡ true
        → (c : ℕ) × (canonical_cycle_cadence_hours table model none ≡ ok c))
      × (is_cycle_cadence_registered table model ≡ false
          → canonical_cycle_cadence_hours table model none ≡ raises Error.unknown_model)
unfolding is_cycle_cadence_registered canonical_cycle_cadence_hours
registered_iff table model = elim (Option-cases (lookup (normalize model) table)) [
  | inl e ↦ (λ h. ground arith, ground arith)
  | inr (c, e) ↦ (λ h. (c, ground arith), ground arith)
]
