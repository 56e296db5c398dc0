-- ===== src/Ingest/Reclaim/Examples.antt =====
-- Tests of the planner's functions, and the theorems about them at concrete inputs.
use weather.Common.{
  ℕ, ◌+◌, ◌-◌, ◌*◌, ◌≡◌, ◌⊎◌, refl, true, false, none, some, List, [], ◌∷◌, ◌++◌, All,
}
use weather.Common.Int.{pos}
use weather.Common.Result.{ok}
use weather.Common.Text.{Text, codes, strip_lower, normalize}
use weather.Common.Decimal.{padded, decimal}
use weather.Common.Dict.{nat_key}
use weather.Domain.Time.{aware, ensure_utc, hour, day}
use weather.Domain.Horizon.{initial_registry, canonical_lead_time_hours, model_max_lead_hours}
use weather.Domain.Temporal.{
  is_precipitation_companion, requires_lead0_display_fallback, is_valid_time_protected,
  serving_start_valid_time,
}
use weather.Domain.Reclamation.{
  PhysicalShardTarget, det, make_target, make_shard_relative_key, region_token,
  normalize_member_index, has,
}
use weather.Domain.Canonical.{
  CanonicalCandidate, select_variable_source, select_canonical_anchor, select_within, select_own,
}
use weather.Domain.Canonical.Bulk.{select_canonical_sources_bulk}
use weather.Ingest.Reclaim.{
  RunRow, ProductRow, RunMeta, Runs, unit_target, unit_targets, row_units, scan_products,
  group_candidates, candidate_of, sort_all, sort_by_lead, enumerate_committed_unit_tuples,
}
use weather.Ingest.Reclaim.Holds.{predecessor_holds, canonical_holds}
use weather.Ingest.Reclaim.Pass.{
  ModelRows, Totals, run_row, dedup_shards, reconcile, distinct_vars, protected_candidates,
  retire_units, retire_unit, plan_runs,
}
use weather.Ingest.Reclaim.Early.{IsReclaimable}
use weather.Ingest.Reclaim.Planned.{is_ensemble, Resolved, resolve}
use weather.Ingest.Reclaim.Reads.{reads}
use weather.Ingest.Reclaim.Safety.{enqueued-Reclaimable, served_never_enqueued}
use weather.Ingest.Reclaim.Retired.{retired_cycle}

abbrev noon : ℕ
noon = 739_868 * day + 12 * hour

abbrev gfs : Text
gfs = codes "gfs"

abbrev temperature : Text
temperature = codes "temperature_2m"

abbrev run_of : Text → ℕ → Text → RunRow
run_of name cycle store = record {
  id = name;
  cycle_time = aware cycle;
  status = codes "ready";
  zarr_store_path = store;
  version_string = codes "v1.0";
}

abbrev meta_of : ℕ → Text → RunMeta
meta_of cycle path = record {
  cycle = cycle;
  run_status = codes "ready";
  store = path;
  version = codes "v1.0";
}

abbrev product : Text → ℕ → ProductRow
product run lead = record {
  run_id = run;
  lead_time_hours = lead;
  variable_id = temperature;
  product_type = codes "surface";
}

-- Two live runs that both have a temperature for noon, the newer one first, and a retired run.
abbrev rows : ModelRows
rows = record {
  run_rows =
      run_of (codes "new") (noon - 6 * hour) (codes "s2")
      ∷ run_of (codes "old") (noon - 12 * hour) (codes "s1")
      ∷ run_of (codes "r0") (noon - 18 * hour) (codes "s0")
      ∷ [];
  product_rows = product (codes "new") 6 ∷ product (codes "old") 12 ∷ product (codes "r0") 3 ∷ [];
  member_rows = [];
  queue_rows = [];
}

abbrev runs : Runs
runs = record {
  live =
      (codes "new", meta_of (noon - 6 * hour) (codes "s2"))
      ∷ (codes "old", meta_of (noon - 12 * hour) (codes "s1"))
      ∷ [];
  retired = codes "r0" ∷ [];
  last_cycle = some (noon - 18 * hour);
}

abbrev target : Text → ℕ → ℕ → ℕ → Text → Text → PhysicalShardTarget
target run cycle lead valid store key = record {
  run_id = run;
  model_id = gfs;
  cycle_time = cycle;
  lead_time_hours = lead;
  variable_code = temperature;
  target_kind = det;
  member_index = pos 0;
  valid_time = valid;
  store_path = store;
  physical_key = key;
}

abbrev earlier : PhysicalShardTarget
earlier = target (codes "gefs_run") 0 0 0 [] []

-- An earlier model has put a target into the list.
abbrev before : Totals
before = record {
  total_committed = 1;
  total_held = 0;
  total_reclaimable = 1;
  would_enqueue = earlier ∷ [];
  skipped_models = [];
}

abbrev after : Totals
after = record {
  total_committed = 4;
  total_held = 1;
  total_reclaimable = 3;
  would_enqueue =
      earlier
      ∷ target (codes "old") (noon - 12 * hour) 12 noon (codes "s1")
          (codes "temperature_2m/shard.det_L0012.shard")
      ∷ target (codes "r0") (noon - 12 * hour) 3 (noon - 15 * hour) (codes "s0")
          (codes "temperature_2m/shard.det_L0003.shard")
      ∷ [];
  skipped_models = [];
}

-- The shard that is served is kept; the target of the retired run has the cycle time of another.
plan_test : plan_runs initial_registry gfs (pos 1) noon (aware noon) rows runs before ≡ ok after
unfolding plan_runs scan_products unit_targets unit_target row_units group_candidates candidate_of
    sort_all sort_by_lead predecessor_holds model_max_lead_hours canonical_lead_time_hours
    is_valid_time_protected serving_start_valid_time protected_candidates canonical_holds
    select_canonical_sources_bulk select_canonical_anchor select_variable_source select_within
    select_own is_precipitation_companion requires_lead0_display_fallback strip_lower distinct_vars
    dedup_shards reconcile retire_units retire_unit enumerate_committed_unit_tuples make_target
    make_shard_relative_key region_token normalize_member_index normalize padded decimal
plan_test = refl

abbrev candidate : Text → ℕ → ℕ → Text → CanonicalCandidate
candidate run cycle lead path = record {
  cycle_time = cycle;
  lead_time_hours = lead;
  run_id = run;
  store_path = path;
  product_types = codes "surface" ∷ [];
  variables = temperature ∷ [];
  member_indices = none;
  status = codes "ready";
}

abbrev newer : CanonicalCandidate
newer = candidate (codes "new") (noon - 6 * hour) 6 (codes "s2")

abbrev older : CanonicalCandidate
older = candidate (codes "old") (noon - 12 * hour) 12 (codes "s1")

abbrev resolved : Resolved
resolved = record {
  variables = temperature ∷ [];
  candidates = (noon, newer ∷ older ∷ []) ∷ [];
  window = (noon, newer ∷ older ∷ []) ∷ [];
  held = (codes "new", 6, temperature, det, pos 0) ∷ (codes "new", 6, temperature, det, pos 0) ∷ [];
}

resolve_test : resolve initial_registry gfs (pos 1) noon (aware noon) rows runs ≡ ok resolved
unfolding resolve scan_products unit_targets unit_target row_units group_candidates candidate_of
    sort_all sort_by_lead predecessor_holds model_max_lead_hours canonical_lead_time_hours
    is_valid_time_protected serving_start_valid_time protected_candidates canonical_holds
    select_canonical_sources_bulk select_canonical_anchor select_variable_source select_within
    select_own is_precipitation_companion requires_lead0_display_fallback strip_lower distinct_vars
    make_target make_shard_relative_key region_token normalize_member_index normalize padded decimal
resolve_test = refl

noon-protected :
    is_valid_time_protected initial_registry (aware noon) (aware noon) (some gfs) (pos 3) ≡ ok true
unfolding is_valid_time_protected serving_start_valid_time model_max_lead_hours
    canonical_lead_time_hours normalize
noon-protected = refl

temperature-plain : is_precipitation_companion (some temperature) ≡ false
unfolding is_precipitation_companion strip_lower
temperature-plain = refl

temperature-source :
    select_variable_source
      (newer ∷ older ∷ [])
      temperature
      (select_canonical_anchor (newer ∷ older ∷ []))
    ≡ some newer
unfolding select_variable_source select_within select_own select_canonical_anchor
    is_precipitation_companion requires_lead0_display_fallback strip_lower
temperature-source = refl

enqueued-Reclaimable_example :
    (new : List PhysicalShardTarget) × (after.would_enqueue ≡ before.would_enqueue ++ new)
    × All
        (λ t. (has runs.retired t.run_id ≡ true) ⊎ IsReclaimable resolved.held rows.queue_rows t)
        new
enqueued-Reclaimable_example =
    enqueued-Reclaimable initial_registry gfs (pos 1) noon (aware noon) rows runs before after
      resolved plan_test resolve_test

served_never_enqueued_example :
    (new : List PhysicalShardTarget) × (after.would_enqueue ≡ before.would_enqueue ++ new)
    × All (λ t. reads (is_ensemble (pos 1)) newer temperature t ≡ false) new
served_never_enqueued_example =
    served_never_enqueued initial_registry gfs (pos 1) noon (aware noon) rows runs before after
      resolved temperature noon newer (older ∷ []) newer plan_test resolve_test refl noon-protected
      refl refl temperature-plain temperature-source

retired_cycle_example :
    (new : List PhysicalShardTarget) × (after.would_enqueue ≡ before.would_enqueue ++ new)
    × All
        (λ t.
          (has runs.retired t.run_id ≡ false)
          ⊎ (t.cycle_time ≡ noon - 12 * hour)
            × ((row : RunRow) × (run_row t.run_id rows.run_rows ≡ some row)
                × (t.valid_time ≡ ensure_utc row.cycle_time + t.lead_time_hours * hour)))
        new
retired_cycle_example =
    retired_cycle initial_registry gfs (pos 1) noon (aware noon) rows runs before after
      (codes "old") (meta_of (noon - 12 * hour) (codes "s1")) plan_test refl
