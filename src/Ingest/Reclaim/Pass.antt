-- ===== src/Ingest/Reclaim/Pass.antt =====
-- gc/planner.py: `plan_reclamation_pass` up to the insertion into the queue.
use weather.Common.{
  ℕ, suc, ◌≡◌, ◌↔◌, arith, Bool, true, false, not, ◌&&◌, ◌||◌, Option, none, some, List, [], ◌∷◌,
  ◌++◌, map, ltb, ◌==◌, if◌then◌else◌, any, keep, get_last?,
}
use weather.Common.Int.{ℤ, pos, negsuc, ltb_ℤ}
use weather.Common.Result.{Result, ok, Error, ◌>>=◌, or_raise}
use weather.Common.Text.{Text, codes, text_eq, text_eq_iff, normalize}
use weather.Common.Sorted.{text_ltb, sorted_set}
use weather.Common.Dict.{Dict, Key, insert, text_key, nat_key}
use weather.Domain.Time.{DateTime, aware, ensure_utc}
use weather.Domain.Horizon.{Registry, is_canonical_lead_horizon_registered}
use weather.Domain.Coverage.{MemberTable, get_expected_members}
use weather.Domain.Temporal.{model_serving_start_valid_time, is_valid_time_protected}
use weather.Domain.Reclamation.{PhysicalShardTarget, has}
use weather.Domain.Canonical.Bulk.{VarTime, var_time_key, select_canonical_sources_bulk}
use weather.Domain.Canonical.Fence.{eq_ℤ}
use weather.Ingest.Reclaim.{
  CycleFence, RunRow, ProductRow, UnitKey, member_map, Runs, scan_runs, unit_target,
  enumerate_committed_unit_tuples, scan_products, group_candidates, CandidatesByValid, sort_all,
}
use weather.Ingest.Reclaim.Holds.{predecessor_holds, canonical_holds}

-- What the queries of a pass answer for one model.
pub record ModelRows : Type 0 where
  pub run_rows : List RunRow
  pub product_rows : List ProductRow
  pub member_rows : List (Text × ℕ × ℤ)
  pub queue_rows : List UnitKey

pub record Totals : Type 0 where
  pub total_committed : ℕ
  pub total_held : ℕ
  pub total_reclaimable : ℕ
  pub would_enqueue : List PhysicalShardTarget
  pub skipped_models : List Text

abbrev pub unit_eq : UnitKey → UnitKey → Bool
unit_eq (a, b, c, d, e) (a', b', c', d', e') =
    text_eq a a' && ((b == b') && (text_eq c c' && (text_eq d d' && eq_ℤ e e')))

eq_ℤ_iff : (a b : ℤ) → (eq_ℤ a b ≡ true) ↔ (a ≡ b)
eq_ℤ_iff (pos a) (pos b) = ground arith
eq_ℤ_iff (pos a) (negsuc b) = ground arith
eq_ℤ_iff (negsuc a) (pos b) = ground arith
eq_ℤ_iff (negsuc a) (negsuc b) = ground arith

pub unit_eq_iff : (u v : UnitKey) → (unit_eq u v ≡ true) ↔ (u ≡ v)
unit_eq_iff (a, b, c, d, e) (a', b', c', d', e') =
    ground (arith, text_eq_iff a a', text_eq_iff c c', text_eq_iff d d', eq_ℤ_iff e e')

instance abbrev pub unit_key : Key UnitKey
unit_key = record { eq = unit_eq; eq_iff = unit_eq_iff }

-- Membership in a set of units.
abbrev pub has_unit : List UnitKey → UnitKey → Bool
has_unit us u = any (unit_eq u) us

-- `target_tuple`
abbrev pub target_tuple : PhysicalShardTarget → UnitKey
target_tuple t = (t.run_id, t.lead_time_hours, t.variable_code, t.target_kind, t.member_index)

-- `<` on units.
abbrev pub unit_ltb : UnitKey → UnitKey → Bool
unit_ltb (a, b, c, d, e) (a', b', c', d', e') =
    text_ltb a a'
    || (text_eq a a'
        && (ltb b b'
            || ((b == b')
                && (text_ltb c c'
                    || (text_eq c c' && (text_ltb d d' || (text_eq d d' && ltb_ℤ e e')))))))

-- The variables of the shards, with synthetic wind where both of its components are among them.
abbrev pub with_wind : List Text → List Text
with_wind vs =
    if has vs (codes "wind_u_10m") && has vs (codes "wind_v_10m")
    then vs ++ codes "wind_10m" ∷ []
    else vs

unfoldable pub distinct_vars : List PhysicalShardTarget → List Text
distinct_vars shards =
    with_wind
      (sorted_set text_ltb text_eq (map (λ (t : PhysicalShardTarget). t.variable_code) shards))

-- The valid times of the serving window, at the default cadence of the test.
unfoldable pub protected_candidates :
    Registry → Text → DateTime → CandidatesByValid → Result CandidatesByValid
protected_candidates r model now [] = ok []
protected_candidates r model now ((t, cs) ∷ d) = do
  keep_it ← is_valid_time_protected r (aware t) now (some model) (pos 3)
  rest ← protected_candidates r model now d
  ok (if keep_it then (t, cs) ∷ rest else rest)

-- `{s.target_tuple: s for s in shards}`
unfoldable pub dedup_shards :
    List PhysicalShardTarget → Dict UnitKey PhysicalShardTarget → Dict UnitKey PhysicalShardTarget
dedup_shards [] d = d
dedup_shards (s ∷ shards) d = dedup_shards shards (insert (target_tuple s) s d)

-- The reconciliation of one shard.
unfoldable pub reconcile_shard :
    List UnitKey → List UnitKey → UnitKey → PhysicalShardTarget → Totals → Totals
reconcile_shard held queue u s totals =
    let seen = record totals { total_committed = suc totals.total_committed } in
    if has_unit held u
    then record seen { total_held = suc totals.total_held }
    else (let free = record seen { total_reclaimable = suc totals.total_reclaimable } in
        if has_unit queue u
        then free
        else record free { would_enqueue = totals.would_enqueue ++ s ∷ [] })

unfoldable pub reconcile :
    List UnitKey → List UnitKey → Dict UnitKey PhysicalShardTarget → Totals → Totals
unfolding reconcile_shard
reconcile held queue [] totals = totals
reconcile held queue ((u, s) ∷ d) totals =
    reconcile held queue d (reconcile_shard held queue u s totals)

-- The variable `c_utc` after the loops over the runs: the last run that is live, or else the last
-- row of a run.
abbrev pub last_c_utc : Runs → Option ℕ
last_c_utc runs = elim (get_last? runs.live) [
  | none ↦ runs.last_cycle
  | some (run, meta) ↦ some meta.cycle
]

abbrev pub run_row : Text → List RunRow → Option RunRow
run_row run [] = none
run_row run (row ∷ rows) = if text_eq row.id run then some row else run_row run rows

abbrev pub is_blank_path : Text → Bool
is_blank_path [] = true
is_blank_path (c ∷ s) = false

-- One unit of a retired run; `stale` is the variable `c_utc`, which no line of this loop sets.
unfoldable pub retire_unit :
    Text → ℕ → List RunRow → List UnitKey → UnitKey → Totals → Result Totals
unfolding unit_target
retire_unit model stale rows queue u totals =
    let seen = record totals { total_committed = suc totals.total_committed } in
    let free = record seen { total_reclaimable = suc totals.total_reclaimable } in
    if has_unit queue u then ok seen else elim (run_row u.0 rows) [
      | none ↦ ok free
      | some row ↦ if is_blank_path row.zarr_store_path then ok free else (do
        t ← unit_target model stale (ensure_utc row.cycle_time) row.zarr_store_path u
        ok (record free { would_enqueue = totals.would_enqueue ++ t ∷ [] }))
    ]

unfoldable pub retire_units :
    Text → ℕ → List RunRow → List UnitKey → List UnitKey → Totals → Result Totals
unfolding retire_unit
retire_units model stale rows queue [] totals = ok totals
retire_units model stale rows queue (u ∷ us) totals = do
  next ← retire_unit model stale rows queue u totals
  retire_units model stale rows queue us next

abbrev pub retired_rows : List Text → List ProductRow → List ProductRow
retired_rows retired rows = keep (λ (row : ProductRow). has retired row.run_id) rows

-- The steps for a model that has live or retired runs.
unfoldable pub plan_runs :
    Registry → Text → ℤ → ℕ → DateTime → ModelRows → Runs → Totals → Result Totals
unfolding member_map scan_products group_candidates sort_all predecessor_holds protected_candidates
    canonical_holds reconcile dedup_shards retire_units enumerate_committed_unit_tuples
    distinct_vars
plan_runs r model expected serving_start now rows runs totals = do
  let ensemble = ltb_ℤ (pos 1) expected
  let members = if ensemble then member_map rows.member_rows [] else []
  built ← scan_products model ensemble runs members rows.product_rows []
  grouped ← group_candidates ensemble expected members built.0 []
  pred ← predecessor_holds r model ensemble expected serving_start built.0 runs.live
  window ← protected_candidates r model now (sort_all grouped)
  let res =
      select_canonical_sources_bulk window (some (distinct_vars built.1)) none (some serving_start)
  let planned =
      reconcile (pred ++ canonical_holds ensemble res) rows.queue_rows (dedup_shards built.1 [])
        totals
  stale ← or_raise (last_c_utc runs) Error.key_error
  retire_units model stale rows.run_rows rows.queue_rows
      (sorted_set unit_ltb unit_eq (
        enumerate_committed_unit_tuples ensemble members
          (retired_rows runs.retired rows.product_rows)))
      planned

abbrev pub is_idle : Runs → Bool
is_idle runs = elim runs.live [ [] ↦ elim runs.retired [ [] ↦ true | _ ↦ false ] | _ ↦ false ]

abbrev pub no_runs : Runs
no_runs = record { live = []; retired = []; last_cycle = none }

-- The body of the loop over the models.
unfoldable pub plan_model :
    Registry
    → MemberTable
    → Dict VarTime CycleFence
    → DateTime
    → (Text → ModelRows)
    → Text
    → Totals
    → Result Totals
unfolding plan_runs scan_runs
plan_model r table fences now rows model totals =
    let m_id = normalize model in
    if not (is_canonical_lead_horizon_registered r m_id)
    then ok (record totals { skipped_models = totals.skipped_models ++ m_id ∷ [] })
    else (do
      expected ← get_expected_members table m_id (some (pos 1))
      serving_start ← model_serving_start_valid_time r m_id now
      let runs = scan_runs fences m_id (rows m_id).run_rows no_runs
      if is_idle runs
          then ok totals
          else plan_runs r m_id expected serving_start now (rows m_id) runs totals)

unfoldable pub plan_models :
    Registry
    → MemberTable
    → Dict VarTime CycleFence
    → DateTime
    → (Text → ModelRows)
    → List Text
    → Totals
    → Result Totals
unfolding plan_model
plan_models r table fences now rows [] totals = ok totals
plan_models r table fences now rows (model ∷ models) totals = do
  next ← plan_model r table fences now rows model totals
  plan_models r table fences now rows models next
