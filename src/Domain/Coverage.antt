-- ===== src/Domain/Coverage.antt =====
-- packages/domain/src/domain/coverage.py: how many members a model has, and when a lead is
-- servable. The ratio enters as ten-thousandths, `int(round(threshold * 10000))`.
use weather.Common.{
  ℕ, zero, suc, ◌+◌, ◌*◌, Bool, true, false, ◌||◌, Option, none, some, List, [], ◌∷◌, leb, ltb,
  length, if◌then◌else◌,
}
use weather.Common.Int.{ℤ, pos, pos_part, leb_ℤ}
use weather.Common.Result.{Result, ok, raises, Error, ◌>>=◌, ◌>>◌, raise_if, or_raise}
use weather.Common.Text.{Text, codes, normalize}
use weather.Common.Dict.{Dict, lookup, insert, contains, text_key}
pub mod Threshold
mod Examples

abbrev pub MemberTable : Type 0
MemberTable = Dict Text ℤ

abbrev pub initial_members : MemberTable
initial_members = (codes "gfs", pos 1) ∷ (codes "gefs", pos 30) ∷ []

pub register_expected_members : MemberTable → Text → ℤ → Result MemberTable
register_expected_members table model count = do
  raise_if (leb_ℤ count (pos 0)) Error.bad_members
  ok (insert (normalize model) count table)

unfoldable pub is_expected_members_registered : MemberTable → Text → Bool
is_expected_members_registered table model = contains (normalize model) table

unfoldable pub get_expected_members : MemberTable → Text → Option ℤ → Result ℤ
get_expected_members table model default_if_unknown = elim (lookup (normalize model) table) [
  | some count ↦ ok count
  | none ↦ or_raise default_if_unknown Error.unknown_model
]

abbrev pub default_threshold : ℕ
default_threshold = 8500

-- Counts are never negative, so the test of the source for a negative one does not arise.
unfoldable pub is_lead_servable : ℕ → ℤ → ℕ → Bool
is_lead_servable available expected threshold =
    if leb_ℤ expected (pos 0)
    then false
    else leb (pos_part expected * threshold) (available * 10_000)
