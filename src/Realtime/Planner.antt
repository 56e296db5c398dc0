-- ===== src/Realtime/Planner.antt =====
-- realtime/planner.py: one planning pass over the horizon of a cycle.
pub mod Plan
pub mod Pending
pub mod Order
pub mod Reasons
pub mod Batch
mod Examples
use weather.Common.{
  ℕ, zero, suc, ◌+◌, ◌-◌, ◌%◌, Bool, true, false, not, ◌&&◌, ◌||◌, Option, none, some, List, [],
  ◌∷◌, ◌++◌, map, max, min, leb, ◌==◌, if◌then◌else◌, elem, all, keep, take, length,
}
use weather.Common.Int.{ℤ, pos_part}
use weather.Common.Result.{Result, ok, raises, Error, ◌>>=◌}
use weather.Common.Text.{Text, codes}
use weather.Common.Dict.{Dict, lookup, nat_key}
use weather.Domain.Horizon.{Registry, canonical_lead_time_hours, leads_from}
use weather.Domain.Coverage.{MemberTable, get_expected_members}
use weather.Realtime.Snapshot.{
  CycleSnapshot, region, is_artifact_complete, missing_members, highest_observed_lead, is_listed,
}

pub data BlockReason : Type 0 where
  horizon_complete gfs_incomplete gefs_incomplete predecessor not_observed : BlockReason

pub record ModelCommittedState : Type 0 where
  pub leads : List ℕ
  pub pairs : List (ℕ × ℕ)

-- `{member for (member, pair_lead) in pairs if pair_lead == lead}`
abbrev pub committed_members : ℕ → List (ℕ × ℕ) → List ℕ
committed_members lead [] = []
committed_members lead ((member, l) ∷ pairs) =
    if l == lead then member ∷ committed_members lead pairs else committed_members lead pairs

unfoldable pub is_lead_committed : ModelCommittedState → ℕ → Bool → List ℕ → Bool
is_lead_committed s lead ensemble expected =
    if ensemble
    then all (λ m. elem m (committed_members lead s.pairs)) expected
    else elem lead s.leads

-- Times are naturals in one unit.
pub record WavePolicy : Type 0 where
  pub max_leads : ℕ
  pub max_wait : ℕ

unfoldable pub predecessor_satisfied : ℕ → ModelCommittedState → Bool → List ℕ → List ℕ → Bool
predecessor_satisfied lead committed ensemble expected candidate_so_far =
    if lead == 0 || not (lead % 6 == 0)
    then true
    else is_lead_committed committed (lead - 3) ensemble expected
      || elem (lead - 3) candidate_so_far

-- What the closures of `plan_wave` capture.
pub record Inputs : Type 0 where
  pub gfs : Option CycleSnapshot
  pub gefs : Option CycleSnapshot
  pub committed_gfs : ModelCommittedState
  pub committed_gefs : ModelCommittedState
  pub members : List ℕ

abbrev pub is_present : Option CycleSnapshot → Bool
is_present none = false
is_present (some s) = elim s.regions [ [] ↦ false | e ∷ rest ↦ true ]

pub gfs_complete : Inputs → ℕ → Bool
gfs_complete i lead = elim i.gfs [ none ↦ false | some s ↦ is_artifact_complete s none lead ]

pub gefs_complete : Inputs → ℕ → Bool
gefs_complete i lead = elim i.gefs [
  | none ↦ false
  | some s ↦ all (λ m. is_artifact_complete s (some m) lead) i.members
]

pub shared_complete : Inputs → ℕ → Bool
shared_complete i lead = gfs_complete i lead && gefs_complete i lead

abbrev pub gfs_committed : Inputs → ℕ → Bool
gfs_committed i lead = is_lead_committed i.committed_gfs lead false []

abbrev pub gefs_committed : Inputs → ℕ → Bool
gefs_committed i lead = is_lead_committed i.committed_gefs lead true i.members

abbrev pub both_committed : Inputs → ℕ → Bool
both_committed i lead = gfs_committed i lead && gefs_committed i lead

-- The last lead of the longest prefix that passes the test, as the two frontier loops find it.
pub frontier : (ℕ → Bool) → List ℕ → Option ℕ → Option ℕ
frontier test [] found = found
frontier test (lead ∷ seq) found =
    let rest = frontier test seq (some lead) in if test lead then rest else found

-- Which kinds of artifact the deterministic region lacks: data, index.
abbrev pub missing_artifacts : Option CycleSnapshot → ℕ → Bool × Bool
missing_artifacts none lead = (false, false)
missing_artifacts (some s) lead = (
  not (is_listed (region s none lead).observed_data),
  not (is_listed (region s none lead).observed_idx),
)

abbrev pub missing_of : Option CycleSnapshot → ℕ → List ℕ → List ℕ
missing_of none lead members = []
missing_of (some s) lead members = missing_members s lead members

-- How the pending walk ends.
pub record Walk : Type 0 where
  pub pending : List ℕ
  pub blocked : Option (ℕ × BlockReason)
  pub lacking_artifacts : Bool × Bool
  pub lacking_members : List ℕ

abbrev pub incomplete_reason : Inputs → ℕ → BlockReason
incomplete_reason i lead =
    if not (is_present i.gfs || is_present i.gefs)
    then not_observed
    else if not (gfs_complete i lead)
    then gfs_incomplete
    else gefs_incomplete

abbrev pub predecessors_satisfied : Inputs → ℕ → List ℕ → Bool
predecessors_satisfied i lead pending =
    predecessor_satisfied lead i.committed_gfs false [] pending
    && predecessor_satisfied lead i.committed_gefs true i.members pending

abbrev pub end_of_walk : List ℕ → Walk
end_of_walk pending = record {
  pending = pending;
  blocked = none;
  lacking_artifacts = (false, false);
  lacking_members = [];
}

abbrev pub blocked_by_artifacts : Inputs → ℕ → List ℕ → Walk
blocked_by_artifacts i lead pending = record {
  pending = pending;
  blocked = some (lead, incomplete_reason i lead);
  lacking_artifacts = missing_artifacts i.gfs lead;
  lacking_members = missing_of i.gefs lead i.members;
}

abbrev pub blocked_by_predecessor : ℕ → List ℕ → Walk
blocked_by_predecessor lead pending = record {
  pending = pending;
  blocked = some (lead, predecessor);
  lacking_artifacts = (false, false);
  lacking_members = [];
}

-- The pending walk: durably done leads are passed over, eligible ones are collected, and the
-- first other one ends the walk.
pub walk : Inputs → List ℕ → List ℕ → Walk
walk i [] pending = end_of_walk pending
walk i (lead ∷ seq) pending =
    let passed = walk i seq pending in
    let accepted = walk i seq (pending ++ lead ∷ []) in
    if both_committed i lead
    then passed
    else if not (shared_complete i lead)
    then blocked_by_artifacts i lead pending
    else if not (predecessors_satisfied i lead pending)
    then blocked_by_predecessor lead pending
    else accepted
