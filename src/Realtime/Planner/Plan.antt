-- ===== src/Realtime/Planner/Plan.antt =====
-- The result of one planning pass of realtime/planner.py: its fields, the batching of a wave, and
-- `plan_wave`.
use weather.Common.{
  ℕ, ◌-◌, Bool, false, not, ◌||◌, Option, none, some, List, [], ◌∷◌, max, min, leb, if◌then◌else◌,
  keep, take, length,
}
use weather.Common.Int.{ℤ, pos_part}
use weather.Common.Result.{Result, ok, ◌>>=◌}
use weather.Common.Text.{codes}
use weather.Common.Dict.{Dict, lookup, nat_key}
use weather.Domain.Horizon.{Registry, canonical_lead_time_hours, leads_from}
use weather.Domain.Coverage.{MemberTable, get_expected_members}
use weather.Realtime.Snapshot.{CycleSnapshot, highest_observed_lead}
use weather.Realtime.Planner.{
  BlockReason, ModelCommittedState, WavePolicy, Inputs, is_present, shared_complete, gfs_committed,
  gefs_committed, both_committed, frontier, walk, horizon_complete,
}

pub record FrontierPlan : Type 0 where
  pub horizon : List ℕ
  pub observed_frontier : Option ℕ
  pub complete_frontier : Option ℕ
  pub committed_frontier : Option ℕ
  pub pending_complete_leads : List ℕ
  pub next_blocked_lead : Option ℕ
  pub blocked_reason : Option BlockReason
  pub missing_gfs_artifacts : Bool × Bool
  pub missing_gefs_members : List ℕ
  pub gfs_present : Bool
  pub gefs_present : Bool
  pub wave_due : Bool
  pub wave_candidate : List ℕ
  pub wave_targets_gfs : List ℕ
  pub wave_targets_gefs : List ℕ
  pub oldest_pending_age : Option ℕ

abbrev pub seen_at : Dict ℕ ℕ → ℕ → ℕ → ℕ
seen_at timing now lead = elim (lookup lead timing) [ none ↦ now | some t ↦ t ]

-- `now - min(timing.get(lead, now) for lead in pending)`, from below bounded by zero.
unfoldable pub oldest_age : Dict ℕ ℕ → ℕ → ℕ → List ℕ → ℕ
oldest_age timing now best [] = now - best
oldest_age timing now best (lead ∷ pending) =
    oldest_age timing now (min best (seen_at timing now lead)) pending

abbrev pub pending_age : Dict ℕ ℕ → ℕ → List ℕ → Option ℕ
pending_age timing now [] = none
pending_age timing now (lead ∷ pending) =
    some (oldest_age timing now (seen_at timing now lead) pending)

-- Whether the batching policy lets a wave go, for the pending leads and the age of the oldest.
abbrev pub is_wave_due : WavePolicy → List ℕ → Option ℕ → Bool
is_wave_due policy pending none = false
is_wave_due policy pending (some age) =
    leb policy.max_leads (length pending) || leb policy.max_wait age

abbrev pub candidate_of : WavePolicy → Bool → List ℕ → List ℕ
candidate_of policy due pending = if due then take policy.max_leads pending else []

abbrev pub blocked_lead : Option (ℕ × BlockReason) → Option ℕ
blocked_lead none = none
blocked_lead (some (lead, reason)) = some lead

abbrev pub final_reason : Option (ℕ × BlockReason) → List ℕ → Option BlockReason
final_reason (some (lead, reason)) pending = some reason
final_reason none [] = some horizon_complete
final_reason none (lead ∷ pending) = none

abbrev pub observed_of : Option CycleSnapshot → Option ℕ
observed_of none = none
observed_of (some s) = highest_observed_lead s

abbrev pub max_of : Option ℕ → Option ℕ → Option ℕ
max_of none b = b
max_of (some a) none = some a
max_of (some a) (some b) = some (max a b)

abbrev pub or_else {ℓ} : {A : Type ℓ} → Option A → Result A → Result A
or_else none r = r
or_else (some a) r = ok a

abbrev pub one_to : ℤ → List ℕ
one_to count = leads_from 1 1 (pos_part count)

-- The plan for a horizon and the inputs, once the defaults are resolved.
unfoldable pub plan_for : Inputs → WavePolicy → Dict ℕ ℕ → ℕ → List ℕ → FrontierPlan
plan_for i policy timing now seq =
    let w = walk i seq [] in
    let age = pending_age timing now w.pending in
    let due = is_wave_due policy w.pending age in
    let candidate = candidate_of policy due w.pending in
    record {
      horizon = seq;
      observed_frontier = max_of (observed_of i.gfs) (observed_of i.gefs);
      complete_frontier = frontier (shared_complete i) seq none;
      committed_frontier = frontier (both_committed i) seq none;
      pending_complete_leads = w.pending;
      next_blocked_lead = blocked_lead w.blocked;
      blocked_reason = final_reason w.blocked w.pending;
      missing_gfs_artifacts = w.lacking_artifacts;
      missing_gefs_members = w.lacking_members;
      gfs_present = is_present i.gfs;
      gefs_present = is_present i.gefs;
      wave_due = due;
      wave_candidate = candidate;
      wave_targets_gfs = keep (λ lead. not (gfs_committed i lead)) candidate;
      wave_targets_gefs = keep (λ lead. not (gefs_committed i lead)) candidate;
      oldest_pending_age = age;
    }

pub plan_wave :
    Registry
    → MemberTable
    → Option CycleSnapshot
    → Option CycleSnapshot
    → ModelCommittedState
    → ModelCommittedState
    → WavePolicy
    → Dict ℕ ℕ
    → ℕ
    → Option (List ℕ)
    → Option (List ℕ)
    → Result FrontierPlan
plan_wave r table gfs gefs committed_gfs committed_gefs policy timing now horizon expected = do
  seq ← or_else horizon (canonical_lead_time_hours r (codes "gfs") none none)
  members ←
      or_else expected
        (do count ← get_expected_members table (codes "gefs") none; ok (one_to count))
  let i : Inputs = record {
    gfs = gfs;
    gefs = gefs;
    committed_gfs = committed_gfs;
    committed_gefs = committed_gefs;
    members = members;
  }
  ok (plan_for i policy timing now seq)
