-- ===== src/Ingest/Reclaim/Safety.antt =====
-- gc/planner.py: what the plan for a model adds to the queue, and what it never adds.
use weather.Common.{
  ℕ, ◌≡◌, refl, ap, sym, ◌∙◌, ◌⊎◌, true, false, Option, none, some, List, [], ◌∷◌, ◌++◌, All,
  All-append, All-map, Bool-cases, inl, inr, arith, subst,
}
use weather.Common.Int.{ℤ, pos}
use weather.Common.Result.{ok, ok-inj}
use weather.Common.Text.{Text, text_eq, text_eq_iff}
use weather.Common.Dict.{lookup, nat_key}
use weather.Domain.Time.{DateTime, aware}
use weather.Domain.Horizon.{Registry}
use weather.Domain.Reclamation.{PhysicalShardTarget, has}
use weather.Domain.Canonical.{CanonicalCandidate}
use weather.Domain.Canonical.Bulk.{var_time_key}
use weather.Ingest.Reclaim.{UnitKey, Runs}
use weather.Ingest.Reclaim.Holds.{canonical_holds}
use weather.Ingest.Reclaim.Pass.{ModelRows, Totals, unit_key, has_unit, target_tuple, plan_runs}
use weather.Ingest.Reclaim.Targets.{CandidateKept}
use weather.Ingest.Reclaim.Serving.{lookup-TimeKept}
use weather.Ingest.Reclaim.Window.{protected-lookup}
use weather.Ingest.Reclaim.Late.{IsLate}
use weather.Ingest.Reclaim.Reads.{reads}
use weather.Ingest.Reclaim.Early.{IsReclaimable, IsEarly}
use weather.Ingest.Reclaim.Planned.{
  is_ensemble, Resolved, resolve, resolution, Planned, plan_runs-Planned,
}
use weather.Domain.Canonical.{select_canonical_anchor, select_variable_source, effective_anchor}
use weather.Domain.Canonical.Source.{represents, IsSearch, IsFirst, source-IsSearch}
use weather.Domain.Canonical.Bulk.{companions, is_wanted}
use weather.Domain.Canonical.Bulk.Agreement.{bulk_agrees}
use weather.Domain.Temporal.{is_precipitation_companion, is_valid_time_protected}
use weather.Ingest.Reclaim.Held.{has_unit-append, reads-held}

module _ (r : Registry) (model : Text) (expected : ℤ) (start : ℕ) (now : DateTime)
    (rows : ModelRows) (runs : Runs) (totals res : Totals) where
  -- Whatever a plan for a model that returns adds to the queue, after what earlier models have
  -- added, is of a retired run, or is neither held nor in the queue already; what is held is what
  -- the same call resolves.
  pub enqueued-Reclaimable :
      (v : Resolved)
      → plan_runs r model expected start now rows runs totals ≡ ok res
      → resolve r model expected start now rows runs ≡ ok v
      → (new : List PhysicalShardTarget) × (res.would_enqueue ≡ totals.would_enqueue ++ new)
        × All (λ t. (has runs.retired t.run_id ≡ true) ⊎ IsReclaimable v.held rows.queue_rows t) new
  enqueued-Reclaimable v planned resolved =
      let p = plan_runs-Planned r model expected start now rows runs totals res planned in
      let same : p.resolved ≡ v = ok-inj (sym p.resolve_eq ∙ resolved) in
      (
        p.early ++ p.late,
        p.adds,
        All-append _ p.early p.late
            (subst
              (λ (w : Resolved).
                All
                  (λ t. (has runs.retired t.run_id ≡ true) ⊎ IsReclaimable w.held rows.queue_rows t)
                  p.early)
              same (All-map _ _ (λ t e. inr e.0) p.early p.early_all))
            (All-map _ _ (λ t l. inl l.0) p.late p.late_all),
      )

  early_unread :
      (p : Planned r model expected start now rows runs totals res) (w : Text) (t : ℕ)
      (source : CanonicalCandidate) (target : PhysicalShardTarget)
      → lookup (w, t) (resolution p.resolved start).variable_sources ≡ some (some source)
      → IsEarly runs p.resolved.held rows.queue_rows target
      → reads (is_ensemble expected) source w target ≡ false
  early_unread p w t source target e early =
      elim (Bool-cases (reads (is_ensemble expected) source w target)) [
        | inr unread ↦ unread
        | inl read ↦
            let kept =
              reads-held (is_ensemble expected) (resolution p.resolved start) w t source target e
                read in
            let held_now : has_unit p.resolved.held (target_tuple target) ≡ true =
              ap (λ (us : List UnitKey). has_unit us (target_tuple target)) p.held_eq
              ∙ has_unit-append p.predecessors
                  (canonical_holds (is_ensemble expected) (resolution p.resolved start))
                  (target_tuple target)
              ∙ ground (arith, kept) in
            absurd (ground (arith, held_now, early.0.0))
      ]

  late_unread :
      (w : Text) (source : CanonicalCandidate) (stale : ℕ) (target : PhysicalShardTarget)
      → CandidateKept runs source
      → IsLate runs.retired stale rows.run_rows target
      → reads (is_ensemble expected) source w target ≡ false
  late_unread w source stale target kept late =
      elim (Bool-cases (text_eq target.run_id source.run_id)) [
        | inr other ↦ rw other refl
        | inl same ↦
            let k : has runs.retired target.run_id ≡ false =
              ap (has runs.retired) ((text_eq_iff target.run_id source.run_id).0 same) ∙ kept in
            absurd (ground (arith, k, late.0))
      ]

  -- The source that the selection answers is one of the candidates.
  source-kept :
      (c : CanonicalCandidate) (cs : List CanonicalCandidate) (w : Text)
      (a : Option CanonicalCandidate) (source : CanonicalCandidate)
      → All (CandidateKept runs) (c ∷ cs)
      → select_variable_source (c ∷ cs) w a ≡ some source
      → CandidateKept runs source
  unfolding IsSearch IsFirst
  source-kept c cs w a source h e =
      let s =
        subst (IsSearch (represents w (effective_anchor a c)) (c ∷ cs)) e
          (source-IsSearch c cs w a) in
      All-middle s.0 source s.1 (subst (All (CandidateKept runs)) s.2 h)
    where
      All-middle :
          (before : List CanonicalCandidate) (x : CanonicalCandidate)
          (after : List CanonicalCandidate)
          → All (CandidateKept runs) (before ++ x ∷ after)
          → CandidateKept runs x
      All-middle [] x after h = h.0
      All-middle (y ∷ before) x after h = All-middle before x after h.1

  -- What canonical serving reads is never put into the queue: when a plan for a model returns,
  -- then for every protected valid time, not before the serving start, that has candidates, and for
  -- every variable that it resolves, no target that it adds, of a live or of a retired run, is a shard that a read of the
  -- variable from its source at that time touches: of an ensemble the mean and the members of the
  -- source, else the deterministic product, and for wind its two components. Names of companions
  -- are in lower case and without spaces.
  pub served_never_enqueued :
      (v : Resolved) (w : Text) (t : ℕ) (c : CanonicalCandidate) (cs : List CanonicalCandidate)
      (source : CanonicalCandidate)
      → plan_runs r model expected start now rows runs totals ≡ ok res
      → resolve r model expected start now rows runs ≡ ok v
      → lookup t v.candidates ≡ some (c ∷ cs)
      → is_valid_time_protected r (aware t) now (some model) (pos 3) ≡ ok true
      → is_wanted (some start) none t ≡ true
      → has v.variables w ≡ true
      → is_precipitation_companion (some w) ≡ has companions w
      → select_variable_source (c ∷ cs) w (select_canonical_anchor (c ∷ cs)) ≡ some source
      → (new : List PhysicalShardTarget) × (res.would_enqueue ≡ totals.would_enqueue ++ new)
        × All (λ target. reads (is_ensemble expected) source w target ≡ false) new
  served_never_enqueued v w t c cs source planned resolved candidates_are protected wanted listed
        plain chosen =
      let p = plan_runs-Planned r model expected start now rows runs totals res planned in
      let same : v ≡ p.resolved = ok-inj (sym resolved ∙ p.resolve_eq) in
      let e : lookup t p.resolved.window ≡ some (c ∷ cs) =
        protected-lookup r model now t (c ∷ cs) p.resolved.candidates p.resolved.window
          (subst (λ (x : Resolved). lookup t x.candidates ≡ some (c ∷ cs)) same candidates_are)
          protected p.window_eq in
      let listed_there : has p.resolved.variables w ≡ true =
        subst (λ (x : Resolved). has x.variables w ≡ true) same listed in
      let (anchor, found) =
        bulk_agrees p.resolved.window (some p.resolved.variables) none (some start) w t c cs
          p.window_dict e wanted listed_there plain in
      let source_is : lookup (w, t) (resolution p.resolved start).variable_sources
          ≡ some (some source) =
        found ∙ ap some chosen in
      let kept =
        source-kept c cs w (select_canonical_anchor (c ∷ cs)) source
          (lookup-TimeKept runs t (c ∷ cs) p.resolved.window p.window_kept e) chosen in
      (
        p.early ++ p.late,
        p.adds,
        All-append _ p.early p.late
            (All-map _ _ (λ target h. early_unread p w t source target source_is h) p.early
              p.early_all)
            (All-map _ _ (λ target h. late_unread w source p.stale target kept h) p.late
              p.late_all),
      )
