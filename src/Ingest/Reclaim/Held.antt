-- ===== src/Ingest/Reclaim/Held.antt =====
-- gc/planner.py: what the reads of a resolved source touch is held, and the counts of the
-- reconciliation.
use weather.Common.{
  ℕ, suc, ◌+◌, ◌≡◌, refl, ap, ◌∙◌, Bool, true, ◌&&◌, ◌||◌, Option, none, some, List, [], ◌∷◌, ◌++◌,
  ◌==◌, Bool-cases, inl, inr, arith,
}
use weather.Common.Text.{Text, codes, text_eq, text_eq_iff}
use weather.Common.Dict.{Dict, lookup, nat_key}
use weather.Domain.Reclamation.{PhysicalShardTarget}
use weather.Domain.Canonical.{CanonicalCandidate}
use weather.Domain.Canonical.Bulk.{VarTime, var_time_key, CanonicalResolutionResult}
use weather.Ingest.Reclaim.{UnitKey}
use weather.Ingest.Reclaim.Holds.{
  candidate_holds, anchor_holds, source_holds, wind_holds, canonical_holds,
}
use weather.Ingest.Reclaim.Pass.{
  Totals, unit_key, has_unit, target_tuple, reconcile_shard, reconcile,
}
use weather.Ingest.Reclaim.Reads.{reads, candidate_holds-has}

reconcile_shard-counts :
    (held queue : List UnitKey) (u : UnitKey) (s : PhysicalShardTarget) (totals : Totals)
    → ((reconcile_shard held queue u s totals).total_committed ≡ suc totals.total_committed)
      × ((reconcile_shard held queue u s totals).total_held
            + (reconcile_shard held queue u s totals).total_reclaimable
          ≡ suc (totals.total_held + totals.total_reclaimable))
unfolding reconcile_shard
reconcile_shard-counts held queue u s totals = elim (Bool-cases (has_unit held u)) [
  | inl is_held ↦ rw is_held (refl, omega arith)
  | inr free ↦ elim (Bool-cases (has_unit queue u)) [
    | inl queued ↦ rw (free, queued) (refl, omega arith)
    | inr fresh ↦ rw (free, fresh) (refl, omega arith)
  ]
]

-- Every shard that the reconciliation counts is counted as held or as reclaimable, and not as
-- both.
pub counts_balance :
    (held queue : List UnitKey) (d : Dict UnitKey PhysicalShardTarget) (totals : Totals)
    → totals.total_committed ≡ totals.total_held + totals.total_reclaimable
    → (reconcile held queue d totals).total_committed
      ≡ (reconcile held queue d totals).total_held
        + (reconcile held queue d totals).total_reclaimable
unfolding reconcile
counts_balance held queue [] totals h = h
counts_balance held queue ((u, s) ∷ d) totals h =
    let (a, b) = reconcile_shard-counts held queue u s totals in
    counts_balance held queue d (reconcile_shard held queue u s totals) (omega (arith, a, b, h))

pub has_unit-append :
    (us vs : List UnitKey) (u : UnitKey) → has_unit (us ++ vs) u ≡ (has_unit us u || has_unit vs u)
has_unit-append [] vs u = refl
has_unit-append (w ∷ us) vs u = ground (arith, has_unit-append us vs u)

-- The units of the source of a variable are held.
source_holds-has :
    (ensemble : Bool) (d : Dict VarTime (Option CanonicalCandidate)) (v : Text) (t : ℕ)
    (c : CanonicalCandidate) (u : UnitKey)
    → lookup (v, t) d ≡ some (some c)
    → has_unit (candidate_holds ensemble c v) u ≡ true
    → has_unit (source_holds ensemble d) u ≡ true
unfolding source_holds
source_holds-has ensemble [] v t c u e h = cc
source_holds-has ensemble (((w, s), none) ∷ d) v t c u e h =
    source_holds-has ensemble d v t c u (ground (arith, e)) h
source_holds-has ensemble (((w, s), some b) ∷ d) v t c u e h =
    has_unit-append (candidate_holds ensemble b w) (source_holds ensemble d) u
    ∙ elim (Bool-cases (text_eq w v && (s == t))) [
      | inl here ↦
          let same_variable : w ≡ v = (text_eq_iff w v).0 (ground (arith, here)) in
          let same_source : b ≡ c = ground (arith, e, here) in
          let held : has_unit (candidate_holds ensemble b w) u ≡ true =
            ap (λ (a : CanonicalCandidate). has_unit (candidate_holds ensemble a w) u) same_source
            ∙ ap (λ (x : Text). has_unit (candidate_holds ensemble c x) u) same_variable
            ∙ h in
          ground (arith, held)
      | inr there ↦
          let rest = source_holds-has ensemble d v t c u (ground (arith, e, there)) h in
          ground (arith, rest)
    ]

canonical_holds-has :
    (ensemble : Bool) (res : CanonicalResolutionResult) (v : Text) (t : ℕ) (c : CanonicalCandidate)
    (u : UnitKey)
    → lookup (v, t) res.variable_sources ≡ some (some c)
    → has_unit (candidate_holds ensemble c v) u ≡ true
    → has_unit (canonical_holds ensemble res) u ≡ true
unfolding canonical_holds
canonical_holds-has ensemble res v t c u e h =
    let held = source_holds-has ensemble res.variable_sources v t c u e h in
    has_unit-append (anchor_holds ensemble res.anchors) _ u
    ∙ ground (
      arith,
      held,
      has_unit-append (source_holds ensemble res.variable_sources)
          (wind_holds ensemble res.variable_sources) u,
    )

-- The components of the source of wind are held.
wind_holds-has :
    (ensemble : Bool) (d : Dict VarTime (Option CanonicalCandidate)) (v : Text) (t : ℕ)
    (c : CanonicalCandidate) (u : UnitKey)
    → text_eq v (codes "wind_10m") ≡ true
    → lookup (v, t) d ≡ some (some c)
    → (has_unit (candidate_holds ensemble c (codes "wind_u_10m")) u
        || has_unit (candidate_holds ensemble c (codes "wind_v_10m")) u)
      ≡ true
    → has_unit (wind_holds ensemble d) u ≡ true
unfolding wind_holds
wind_holds-has ensemble [] v t c u w e h = cc
wind_holds-has ensemble (((x, s), none) ∷ d) v t c u w e h =
    wind_holds-has ensemble d v t c u w (ground (arith, e)) h
wind_holds-has ensemble (((x, s), some b) ∷ d) v t c u w e h =
    elim (Bool-cases (text_eq x v && (s == t))) [
      | inl here ↦
          let same_variable : x ≡ v = (text_eq_iff x v).0 (ground (arith, here)) in
          let same_source : b ≡ c = ground (arith, e, here) in
          let is_wind : text_eq x (codes "wind_10m") ≡ true =
            ap (λ (y : Text). text_eq y (codes "wind_10m")) same_variable ∙ w in
          rw (is_wind, same_source)
            (has_unit-append
                (candidate_holds ensemble c (codes "wind_u_10m")
                  ++ candidate_holds ensemble c (codes "wind_v_10m"))
                (wind_holds ensemble d) u
              ∙ ground (
                arith,
                h,
                has_unit-append (candidate_holds ensemble c (codes "wind_u_10m"))
                    (candidate_holds ensemble c (codes "wind_v_10m")) u,
              ))
      | inr there ↦
          let rest = wind_holds-has ensemble d v t c u w (ground (arith, e, there)) h in
          has_unit-append _ (wind_holds ensemble d) u ∙ ground (arith, rest)
    ]

canonical-wind :
    (ensemble : Bool) (res : CanonicalResolutionResult) (u : UnitKey)
    → has_unit (wind_holds ensemble res.variable_sources) u ≡ true
    → has_unit (canonical_holds ensemble res) u ≡ true
unfolding canonical_holds
canonical-wind ensemble res u h =
    has_unit-append (anchor_holds ensemble res.anchors) _ u
    ∙ ground (
      arith,
      h,
      has_unit-append (source_holds ensemble res.variable_sources)
          (wind_holds ensemble res.variable_sources) u,
    )

-- What a read of a variable touches is held, when the source is the one that was resolved.
pub reads-held :
    (ensemble : Bool) (res : CanonicalResolutionResult) (w : Text) (t : ℕ) (c : CanonicalCandidate)
    (target : PhysicalShardTarget)
    → lookup (w, t) res.variable_sources ≡ some (some c)
    → reads ensemble c w target ≡ true
    → has_unit (canonical_holds ensemble res) (target_tuple target) ≡ true
reads-held ensemble res w t c target e h = elim (Bool-cases (text_eq w (codes "wind_10m"))) [
  | inl is_wind ↦ canonical-wind ensemble res (target_tuple target) (
      wind_holds-has ensemble res.variable_sources w t c (target_tuple target) is_wind e (
        ground (
          arith,
          h,
          is_wind,
          candidate_holds-has ensemble c (codes "wind_u_10m") target,
          candidate_holds-has ensemble c (codes "wind_v_10m") target,
        )))
  | inr other ↦
      canonical_holds-has ensemble res w t c (target_tuple target) e
        (ground (arith, h, other, candidate_holds-has ensemble c w target))
]
