-- ===== src/Domain/Cadence.antt =====
-- packages/domain/src/domain/cadence.py: the cycle cadence of each model, in hours.
use mathlib.Core.Option
use weather.Common.{ℕ, ◌*◌, ◌/◌, Bool, Option, none, some, List, [], ◌∷◌, if◌then◌else◌}
use weather.Common.Int.{ℤ, pos, pos_part, leb_ℤ}
use weather.Common.Result.{Result, ok, raises, Error, ◌>>=◌, ◌>>◌, raise_if}
use weather.Common.Text.{Text, codes, normalize}
use weather.Common.Dict.{Dict, lookup, insert, contains, text_key}
use weather.Domain.Time.{hour}
pub mod Contract
mod Examples

abbrev pub CadenceTable : Type 0
CadenceTable = Dict Text ℕ

abbrev pub initial_cadences : CadenceTable
initial_cadences = (codes "gfs", 6) ∷ (codes "gefs", 6) ∷ []

unfoldable pub canonical_cycle_cadence_hours : CadenceTable → Text → Option ℤ → Result ℕ
canonical_cycle_cadence_hours table model default_if_unknown =
    elim (lookup (normalize model) table) [
      | some hours ↦ ok hours
      | none ↦ elim default_if_unknown [
        | none ↦ raises Error.unknown_model
        | some hours ↦ do raise_if (leb_ℤ hours (pos 0)) Error.bad_cadence; ok (pos_part hours)
      ]
    ]

-- The same in microseconds; the default's whole hours count.
pub canonical_cycle_cadence : CadenceTable → Text → Option ℕ → Result ℕ
unfolding canonical_cycle_cadence_hours
canonical_cycle_cadence table model default_if_unknown = do
  hours ←
      canonical_cycle_cadence_hours table model
        (Option.map (λ d. pos (d / hour)) default_if_unknown)
  ok (hours * hour)

pub register_canonical_cycle_cadence : CadenceTable → Text → ℤ → Result CadenceTable
register_canonical_cycle_cadence table model cadence_hours = do
  raise_if (leb_ℤ cadence_hours (pos 0)) Error.bad_cadence
  ok (insert (normalize model) (pos_part cadence_hours) table)

unfoldable pub is_cycle_cadence_registered : CadenceTable → Text → Bool
is_cycle_cadence_registered table model = contains (normalize model) table
