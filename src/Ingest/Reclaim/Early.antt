-- ===== src/Ingest/Reclaim/Early.antt =====
-- gc/planner.py: what the reconciliation adds to the queue.
use mathlib.Core.List.{append_assoc, append-nil}
use weather.Common.{
  ◌≡◌, refl, ap, sym, ◌∙◌, false, List, [], ◌∷◌, ◌++◌, All, All-append, Bool-cases, inl, inr,
}
use weather.Common.Dict.{Dict, insert, nat_key}
use weather.Domain.Reclamation.{PhysicalShardTarget}
use weather.Domain.Canonical.Bulk.{var_time_key}
use weather.Ingest.Reclaim.{UnitKey, Runs}
use weather.Ingest.Reclaim.Pass.{
  Totals, unit_eq, unit_eq_iff, unit_key, has_unit, target_tuple, dedup_shards, reconcile_shard,
  reconcile,
}
use weather.Ingest.Reclaim.Targets.{TargetKept}

-- A target that is neither held nor in the queue.
abbrev pub IsReclaimable : List UnitKey → List UnitKey → PhysicalShardTarget → Type 0
IsReclaimable held queue t =
    (has_unit held (target_tuple t) ≡ false) × (has_unit queue (target_tuple t) ≡ false)

-- A shard under its tuple, of a run that is not retired.
abbrev pub IsKeyed : Runs → UnitKey × PhysicalShardTarget → Type 0
IsKeyed runs (u, s) = (u ≡ target_tuple s) × TargetKept runs s

insert-IsKeyed :
    (runs : Runs) (s : PhysicalShardTarget) (d : Dict UnitKey PhysicalShardTarget)
    → TargetKept runs s
    → All (IsKeyed runs) d
    → All (IsKeyed runs) (insert (target_tuple s) s d)
insert-IsKeyed runs s [] k h = ((refl, k), tt)
insert-IsKeyed runs s ((u, t) ∷ d) k h = elim (Bool-cases (unit_eq u (target_tuple s))) [
  | inl same ↦ rw same (((unit_eq_iff u (target_tuple s)).0 same, k), h.1)
  | inr other ↦ rw other (h.0, insert-IsKeyed runs s d k h.1)
]

pub dedup_shards-IsKeyed :
    (runs : Runs) (shards : List PhysicalShardTarget) (d : Dict UnitKey PhysicalShardTarget)
    → All (TargetKept runs) shards
    → All (IsKeyed runs) d
    → All (IsKeyed runs) (dedup_shards shards d)
unfolding dedup_shards
dedup_shards-IsKeyed runs [] d k h = h
dedup_shards-IsKeyed runs (s ∷ shards) d k h =
    dedup_shards-IsKeyed runs shards (insert (target_tuple s) s d) k.1
      (insert-IsKeyed runs s d k.0 h)

-- A target of a run that is not retired, and neither held nor in the queue.
abbrev pub IsEarly : Runs → List UnitKey → List UnitKey → PhysicalShardTarget → Type 0
IsEarly runs held queue t = IsReclaimable held queue t × TargetKept runs t

reconcile_shard-adds :
    (runs : Runs) (held queue : List UnitKey) (u : UnitKey) (s : PhysicalShardTarget)
    (totals : Totals)
    → IsKeyed runs (u, s)
    → (added : List PhysicalShardTarget) × ((reconcile_shard held queue u s totals).would_enqueue
        ≡ totals.would_enqueue ++ added)
      × All (IsEarly runs held queue) added
unfolding reconcile_shard
reconcile_shard-adds runs held queue u s totals e = elim (Bool-cases (has_unit held u)) [
  | inl is_held ↦ ([], rw (reconcile_shard, is_held) (sym (append-nil totals.would_enqueue)), tt)
  | inr free ↦ elim (Bool-cases (has_unit queue u)) [
    | inl queued ↦
        ([], rw (reconcile_shard, free, queued) (sym (append-nil totals.would_enqueue)), tt)
    | inr fresh ↦ (
      s ∷ [],
      rw (reconcile_shard, free, fresh) refl,
      (((ap (has_unit held) (sym e.0) ∙ free, ap (has_unit queue) (sym e.0) ∙ fresh), e.1), tt),
    )
  ]
]

pub reconcile-adds :
    (runs : Runs) (held queue : List UnitKey) (d : Dict UnitKey PhysicalShardTarget)
    (totals : Totals)
    → All (IsKeyed runs) d
    → (added : List PhysicalShardTarget) × ((reconcile held queue d totals).would_enqueue
        ≡ totals.would_enqueue ++ added)
      × All (IsEarly runs held queue) added
unfolding reconcile
reconcile-adds runs held queue [] totals k = ([], sym (append-nil totals.would_enqueue), tt)
reconcile-adds runs held queue ((u, s) ∷ d) totals k =
    let (first, e, p) = reconcile_shard-adds runs held queue u s totals k.0 in
    let (rest, f, q) =
      reconcile-adds runs held queue d (reconcile_shard held queue u s totals) k.1 in
    (
      first ++ rest,
      f
          ∙ ap (λ (l : List PhysicalShardTarget). l ++ rest) e
          ∙ append_assoc totals.would_enqueue first rest,
      All-append _ first rest p q,
    )
