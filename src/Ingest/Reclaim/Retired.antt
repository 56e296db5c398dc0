-- ===== src/Ingest/Reclaim/Retired.antt =====
-- gc/planner.py, the units of retired runs: whose cycle time their targets have.
use weather.Common.{
  ℕ, ◌+◌, ◌*◌, ◌≡◌, ◌∙◌, false, some, List, ◌++◌, All, All-append, All-map, arith, get_last?, ◌⊎◌,
  inl, inr,
}
use weather.Common.Int.{ℤ}
use weather.Common.Result.{ok}
use weather.Common.Text.{Text}
use weather.Domain.Time.{DateTime, ensure_utc, hour}
use weather.Domain.Horizon.{Registry}
use weather.Domain.Reclamation.{PhysicalShardTarget, has}
use weather.Ingest.Reclaim.{RunRow, RunMeta, Runs}
use weather.Ingest.Reclaim.Pass.{ModelRows, Totals, run_row, last_c_utc, plan_runs}
use weather.Ingest.Reclaim.Planned.{plan_runs-Planned}

last_live :
    (runs : Runs) (run : Text) (meta : RunMeta) (stale : ℕ)
    → get_last? runs.live ≡ some (run, meta)
    → last_c_utc runs ≡ some stale
    → stale ≡ meta.cycle
last_live runs run meta stale e h = ground (arith, e, h)

-- When a plan for a model with live runs returns, every target of a retired run that it adds to
-- the queue has the cycle time of the last live run, while its valid time is computed from the
-- cycle time of its own run.
pub retired_cycle :
    (r : Registry) (model : Text) (expected : ℤ) (start : ℕ) (now : DateTime) (rows : ModelRows)
    (runs : Runs) (totals res : Totals) (run : Text) (meta : RunMeta)
    → plan_runs r model expected start now rows runs totals ≡ ok res
    → get_last? runs.live ≡ some (run, meta)
    → (new : List PhysicalShardTarget) × (res.would_enqueue ≡ totals.would_enqueue ++ new)
      × All
          (λ t.
            (has runs.retired t.run_id ≡ false)
            ⊎ (t.cycle_time ≡ meta.cycle)
              × ((row : RunRow) × (run_row t.run_id rows.run_rows ≡ some row)
                  × (t.valid_time ≡ ensure_utc row.cycle_time + t.lead_time_hours * hour)))
          new
retired_cycle r model expected start now rows runs totals res run meta planned last =
    let p = plan_runs-Planned r model expected start now rows runs totals res planned in
    let cycle = last_live runs run meta p.stale last p.stale_eq in
    (
      p.early ++ p.late,
      p.adds,
      All-append _ p.early p.late (All-map _ _ (λ t e. inl e.1) p.early p.early_all)
          (All-map _ _ (λ t l. inr (l.1.0 ∙ cycle, l.1.1)) p.late p.late_all),
    )
