-- ===== src/Domain/Registration.antt =====
-- packages/domain/src/domain/model_registration.py: which models are missing from which registry.
-- A sorted set is the list of its members, in the order of their codes.
use weather.Common.{
  ℕ, Bool, true, false, ◌&&◌, ◌||◌, not, List, [], ◌∷◌, ◌++◌, keep, ltb, ◌==◌, if◌then◌else◌,
}
use weather.Common.Text.{Text, codes, text_eq, normalize}
use weather.Common.Sorted.{text_ltb, insert_distinct, sorted_set}
use weather.Common.Strings.{join}
use weather.Domain.Horizon.{Registry, is_canonical_lead_horizon_registered, is_empty}
use weather.Domain.Cadence.{CadenceTable, is_cycle_cadence_registered}
use weather.Domain.Coverage.{MemberTable, is_expected_members_registered}
pub mod Contract
mod Examples

pub record ModelRegistrationAudit : Type 0 where
  pub missing_horizon : List Text
  pub missing_cadence : List Text
  pub missing_expected_members : List Text

unfoldable pub is_clean : ModelRegistrationAudit → Bool
is_clean a = not (
    not (is_empty a.missing_horizon)
    || not (is_empty a.missing_cadence)
    || not (is_empty a.missing_expected_members))

unfoldable pub has_fatal : ModelRegistrationAudit → Bool
has_fatal a = not (is_empty a.missing_horizon)

pub audited_models : ModelRegistrationAudit → List Text
audited_models a =
    sorted_set text_ltb text_eq
      (a.missing_horizon ++ (a.missing_cadence ++ a.missing_expected_members))

-- The part of the summary on one registry, where models are missing from it.
abbrev pub describe_part : Text → List Text → List Text
unfolding join
describe_part what [] = []
describe_part what (m ∷ ms) = (what ++ join (codes ", ") (m ∷ ms)) ∷ []

pub describe : ModelRegistrationAudit → Text
unfolding join is_clean
describe a =
    let horizon = codes "canonical horizon (FATAL: ingestion and reclamation raise) for " in
    let cadence = codes "cycle cadence (assumes 6h) for " in
    let members = codes "expected members (assumes caller default) for " in
    let parts =
      describe_part horizon a.missing_horizon
      ++ (describe_part cadence a.missing_cadence
          ++ describe_part members a.missing_expected_members) in
    if is_clean a
    then codes "all audited models are registered"
    else codes "unregistered model contracts: " ++ join (codes "; ") parts

-- `sorted({model_id.lower().strip() for model_id in model_ids if model_id})`
unfoldable pub normalized : List Text → List Text
normalized [] = []
normalized (m ∷ ms) =
    let rest = normalized ms in
    if is_empty m then rest else insert_distinct text_ltb text_eq (normalize m) rest

unfoldable pub audit_model_registration :
    Registry → CadenceTable → MemberTable → List Text → ModelRegistrationAudit
unfolding normalized
audit_model_registration horizons cadences members model_ids = record {
  missing_horizon =
      keep (λ m. not (is_canonical_lead_horizon_registered horizons m)) (normalized model_ids);
  missing_cadence = keep (λ m. not (is_cycle_cadence_registered cadences m)) (normalized model_ids);
  missing_expected_members =
      keep (λ m. not (is_expected_members_registered members m)) (normalized model_ids);
}
