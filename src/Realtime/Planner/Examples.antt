-- ===== src/Realtime/Planner/Examples.antt =====
-- The planner on a small cycle, and the theorems about it there.
use weather.Common.{
  ℕ, ◌≤◌, ◌≡◌, ◌≢◌, ◌↔◌, refl, true, false, not, ◌&&◌, ◌||◌, ◌⊎◌, none, some, List, [], ◌∷◌, ◌++◌,
  elem, All, length, first, leb, any,
}
use weather.Domain.Horizon.{leads_from, is_empty}
use weather.Realtime.Snapshot.{
  CycleSnapshot, RegionArtifacts, ArtifactObservation, is_artifact_complete, missing_members,
}
use weather.Realtime.Planner.{
  Inputs, horizon_complete, predecessor, gefs_incomplete, WavePolicy, walk, shared_complete,
  gfs_complete, gefs_complete, both_committed, gfs_committed, gefs_committed, is_lead_committed,
  predecessor_satisfied, frontier,
}
use weather.Realtime.Planner.Plan.{FrontierPlan, plan_for, oldest_age}
use weather.Realtime.Planner.Pending.{IsStuck}
use weather.Realtime.Planner.Order.{Follows}
use weather.Realtime.Planner.Batch.{
  waited, plan_covers, wave_eligible, wave_bounded, wave_targets_reconcile, horizon_complete_iff,
  never_blocked_by_predecessor,
}

abbrev artifact : ArtifactObservation
artifact = record { key = []; size = 1; etag = none; last_modified = none }

abbrev published : RegionArtifacts
published = record { observed_data = some artifact; observed_idx = some artifact }

abbrev partial : RegionArtifacts
partial = record { observed_data = some artifact; observed_idx = none }

abbrev gfs : CycleSnapshot
gfs = record {
  regions =
      ((none, 0), published)
      ∷ ((none, 3), published)
      ∷ ((none, 6), published)
      ∷ ((none, 9), published)
      ∷ [];
  mean_regions = [];
}

-- Member 2 lacks the index of lead 9.
abbrev gefs : CycleSnapshot
gefs = record {
  regions =
      ((some 1, 0), published)
      ∷ ((some 2, 0), published)
      ∷ ((some 1, 3), published)
      ∷ ((some 2, 3), published)
      ∷ ((some 1, 6), published)
      ∷ ((some 2, 6), published)
      ∷ ((some 1, 9), published)
      ∷ ((some 2, 9), partial)
      ∷ [];
  mean_regions = [];
}

-- Lead 0 is committed by both, lead 3 by GFS alone.
abbrev inputs : Inputs
inputs = record {
  gfs = some gfs;
  gefs = some gefs;
  committed_gfs = record { leads = 0 ∷ 3 ∷ []; pairs = [] };
  committed_gefs = record { leads = []; pairs = (1, 0) ∷ (2, 0) ∷ (1, 3) ∷ [] };
  members = 1 ∷ 2 ∷ [];
}

abbrev policy : WavePolicy
policy = record { max_leads = 2; max_wait = 1200 }

abbrev plan : FrontierPlan
plan = plan_for inputs policy [] 0 (leads_from 0 3 4)

plan_test :
    (plan.pending_complete_leads ≡ 3 ∷ 6 ∷ [])
    × (plan.blocked_reason ≡ some gefs_incomplete)
    × (plan.missing_gefs_members ≡ 2 ∷ [])
    × (plan.committed_frontier ≡ some 0)
    × (plan.complete_frontier ≡ some 6)
    × (plan.wave_targets_gfs ≡ 6 ∷ [])
    × (plan.wave_targets_gefs ≡ 3 ∷ 6 ∷ [])
unfolding plan_for walk frontier shared_complete gfs_complete gefs_complete is_artifact_complete
    is_lead_committed predecessor_satisfied missing_members oldest_age
plan_test = (refl, refl, refl, refl, refl, refl, refl)

plan_covers_example :
    (before : List ℕ) × (after : List ℕ) × (leads_from 0 3 4 ≡ before ++ after)
    × All
        (λ l. (both_committed inputs l ≡ true) ⊎ (elem l plan.pending_complete_leads ≡ true))
        before
    × (plan.next_blocked_lead ≡ first after)
    × IsStuck inputs plan.pending_complete_leads plan.next_blocked_lead
plan_covers_example = plan_covers inputs policy [] 0 (leads_from 0 3 4)

wave_eligible_example :
    All
      (λ l. (shared_complete inputs l ≡ true) × (both_committed inputs l ≡ false))
      plan.wave_candidate
    × Follows inputs [] plan.wave_candidate
wave_eligible_example = wave_eligible inputs policy [] 0 (leads_from 0 3 4)

wave_bounded_example :
    (plan.wave_due ≡ (
      not (is_empty plan.pending_complete_leads)
      && (leb 2 (length plan.pending_complete_leads)
          || any (λ lead. leb 1200 (waited [] 0 lead)) plan.pending_complete_leads)))
    × (plan.wave_due ≡ false → plan.wave_candidate ≡ [])
    × (length plan.wave_candidate ≤ 2)
    × ((rest : List ℕ) × (plan.wave_due ≡ true
          → plan.pending_complete_leads ≡ plan.wave_candidate ++ rest))
wave_bounded_example = wave_bounded inputs policy [] 0 (leads_from 0 3 4)

wave_targets_reconcile_example :
    (elem 3 plan.wave_targets_gfs ≡ (elem 3 plan.wave_candidate && not (gfs_committed inputs 3)))
    × (elem 3 plan.wave_targets_gefs
        ≡ (elem 3 plan.wave_candidate && not (gefs_committed inputs 3)))
    × ((elem 3 plan.wave_targets_gfs || elem 3 plan.wave_targets_gefs) ≡ elem 3 plan.wave_candidate)
wave_targets_reconcile_example = wave_targets_reconcile inputs policy [] 0 (leads_from 0 3 4) 3

horizon_complete_iff_example :
    (plan.blocked_reason ≡ some horizon_complete)
    ↔ All (λ l. both_committed inputs l ≡ true) (leads_from 0 3 4)
horizon_complete_iff_example = horizon_complete_iff inputs policy [] 0 (leads_from 0 3 4)

never_blocked_by_predecessor_example : plan.blocked_reason ≢ some predecessor
never_blocked_by_predecessor_example = never_blocked_by_predecessor inputs policy [] 0 4
