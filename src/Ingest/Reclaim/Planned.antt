-- ===== src/Ingest/Reclaim/Planned.antt =====
-- gc/planner.py: what the plan for a model resolves, and what it adds to the queue.
use mathlib.Core.List.{append_assoc}
use weather.Common.{
  ℕ, ◌≡◌, refl, ap, ◌∙◌, Bool, Option, none, some, List, [], ◌++◌, if◌then◌else◌, All,
}
use weather.Common.Int.{ℤ, pos, ltb_ℤ}
use weather.Common.Result.{Result, ok, Error, ◌>>=◌, >>=-eq-ok, or_raise}
use weather.Common.Text.{Text}
use weather.Common.Dict.{nat_key}
use weather.Domain.Time.{DateTime}
use weather.Domain.Horizon.{Registry}
use weather.Domain.Reclamation.{PhysicalShardTarget}
use weather.Domain.Canonical.Bulk.{
  var_time_key, CanonicalResolutionResult, select_canonical_sources_bulk,
}
use weather.Ingest.Reclaim.{
  UnitKey, MemberMap, Runs, ByRunLead, CandidatesByValid, member_map, scan_products,
  group_candidates, sort_all,
}
use weather.Ingest.Reclaim.Holds.{canonical_holds, predecessor_holds}
use weather.Ingest.Reclaim.Pass.{
  ModelRows, Totals, unit_key, distinct_vars, protected_candidates, dedup_shards, last_c_utc,
  plan_runs,
}
use weather.Ingest.Reclaim.Targets.{scan-kept}
use weather.Ingest.Reclaim.Serving.{TimeKept, window-kept}
use weather.Domain.Canonical.Bulk.Agreement.{IsDict}
use weather.Ingest.Reclaim.Window.{window-IsDict}
use weather.Ingest.Reclaim.Late.{IsLate, retire_units-adds, retired-units}
use weather.Ingest.Reclaim.Early.{IsEarly, reconcile-adds, dedup_shards-IsKeyed}

abbrev pub is_ensemble : ℤ → Bool
is_ensemble expected = ltb_ℤ (pos 1) expected

abbrev pub members_for : ℤ → ModelRows → MemberMap
members_for expected rows = if is_ensemble expected then member_map rows.member_rows [] else []

-- What a pass resolves for a model, and what it holds: the variables, the candidates by valid time
-- with their leads in order, those of the serving window, and the units that are held.
pub record Resolved : Type 0 where
  pub variables : List Text
  pub candidates : CandidatesByValid
  pub window : CandidatesByValid
  pub held : List UnitKey

abbrev pub resolution : Resolved → ℕ → CanonicalResolutionResult
resolution v start = select_canonical_sources_bulk v.window (some v.variables) none (some start)

unfoldable pub resolve : Registry → Text → ℤ → ℕ → DateTime → ModelRows → Runs → Result Resolved
resolve r model expected start now rows runs = do
  built ←
      scan_products model (is_ensemble expected) runs (members_for expected rows) rows.product_rows
        []
  grouped ← group_candidates (is_ensemble expected) expected (members_for expected rows) built.0 []
  pred ← predecessor_holds r model (is_ensemble expected) expected start built.0 runs.live
  window ← protected_candidates r model now (sort_all grouped)
  let res = select_canonical_sources_bulk window (some (distinct_vars built.1)) none (some start)
  ok (record {
    variables = distinct_vars built.1;
    candidates = sort_all grouped;
    window = window;
    held = pred ++ canonical_holds (is_ensemble expected) res;
  })

-- What a plan that returns has added to the queue.
pub record Planned (r : Registry) (model : Text) (expected : ℤ) (start : ℕ) (now : DateTime)
    (rows : ModelRows) (runs : Runs) (totals res : Totals) : Type 0 where
  pub resolved : Resolved
  pub resolve_eq : resolve r model expected start now rows runs ≡ ok resolved
  pub window_eq : protected_candidates r model now resolved.candidates ≡ ok resolved.window
  pub window_dict : IsDict resolved.window
  pub window_kept : All (TimeKept runs) resolved.window
  pub predecessors : List UnitKey
  pub held_eq :
      resolved.held
      ≡ predecessors ++ canonical_holds (is_ensemble expected) (resolution resolved start)
  pub stale : ℕ
  pub stale_eq : last_c_utc runs ≡ some stale
  pub early : List PhysicalShardTarget
  pub late : List PhysicalShardTarget
  pub adds : res.would_enqueue ≡ totals.would_enqueue ++ (early ++ late)
  pub early_all : All (IsEarly runs resolved.held rows.queue_rows) early
  pub late_all : All (IsLate runs.retired stale rows.run_rows) late

resolve-eq :
    (r : Registry) (model : Text) (expected : ℤ) (start : ℕ) (now : DateTime) (rows : ModelRows)
    (runs : Runs) (built : ByRunLead × List PhysicalShardTarget)
    (grouped window : CandidatesByValid) (pred : List UnitKey)
    → scan_products model
        (is_ensemble expected)
        runs
        (members_for expected rows)
        rows.product_rows
        []
      ≡ ok built
    → group_candidates (is_ensemble expected) expected (members_for expected rows) built.0 []
      ≡ ok grouped
    → predecessor_holds r model (is_ensemble expected) expected start built.0 runs.live ≡ ok pred
    → protected_candidates r model now (sort_all grouped) ≡ ok window
    → resolve r model expected start now rows runs
      ≡ ok (record {
        variables = distinct_vars built.1;
        candidates = sort_all grouped;
        window = window;
        held =
            pred
            ++ canonical_holds (is_ensemble expected) (
                select_canonical_sources_bulk window
                  (some (distinct_vars built.1))
                  none
                  (some start));
      })
unfolding resolve
resolve-eq r model expected start now rows runs built grouped window pred a b c d =
    rw (resolve, a, b, c, d) refl

or_raise-some : {A : Type 0} (o : Option A) (a : A) (e : Error) → or_raise o e ≡ ok a → o ≡ some a
or_raise-some none a e h = cc
or_raise-some (some b) a e h = cc

-- The plan of a model that returns adds targets of live runs that are neither held nor in the
-- queue, and after them targets of retired runs.
pub plan_runs-Planned :
    (r : Registry) (model : Text) (expected : ℤ) (start : ℕ) (now : DateTime) (rows : ModelRows)
    (runs : Runs) (totals res : Totals)
    → plan_runs r model expected start now rows runs totals ≡ ok res
    → Planned r model expected start now rows runs totals res
unfolding plan_runs
plan_runs-Planned r model expected start now rows runs totals res h =
    let members = members_for expected rows in
    let (built, a, h1) =
      >>=-eq-ok (scan_products model (is_ensemble expected) runs members rows.product_rows []) _
        h in
    let (grouped, b, h2) =
      >>=-eq-ok (group_candidates (is_ensemble expected) expected members built.0 []) _ h1 in
    let (pred, c, h3) =
      >>=-eq-ok (predecessor_holds r model (is_ensemble expected) expected start built.0 runs.live)
        _ h2 in
    let (window, d, h4) = >>=-eq-ok (protected_candidates r model now (sort_all grouped)) _ h3 in
    let (stale, e, h5) = >>=-eq-ok (or_raise (last_c_utc runs) Error.key_error) _ h4 in
    let (keys, targets) =
      scan-kept model (is_ensemble expected) runs members rows.product_rows [] built tt a in
    let held =
      pred
      ++ canonical_holds (is_ensemble expected)
          (select_canonical_sources_bulk window (some (distinct_vars built.1)) none (some start)) in
    let (early, f, p) =
      reconcile-adds runs held rows.queue_rows (dedup_shards built.1 []) totals
        (dedup_shards-IsKeyed runs built.1 [] targets tt) in
    let (late, g, q) =
      retire_units-adds runs.retired model stale rows.run_rows rows.queue_rows _ _ res
        (retired-units runs.retired (is_ensemble expected) members rows.product_rows) h5 in
    record {
      resolved = record {
        variables = distinct_vars built.1;
        candidates = sort_all grouped;
        window = window;
        held = held;
      };
      resolve_eq =
          resolve-eq r model expected start now rows runs built grouped window pred a b c d;
      window_eq = d;
      window_dict =
          window-IsDict r model now (is_ensemble expected) expected members built.0 grouped window b
            d;
      window_kept =
          window-kept runs r model now (is_ensemble expected) expected members built.0 grouped
            window keys b d;
      predecessors = pred;
      held_eq = refl;
      stale = stale;
      stale_eq = or_raise-some (last_c_utc runs) stale Error.key_error e;
      early = early;
      late = late;
      adds =
          g
          ∙ ap (λ (l : List PhysicalShardTarget). l ++ late) f
          ∙ append_assoc totals.would_enqueue early late;
      early_all = p;
      late_all = q;
    }
