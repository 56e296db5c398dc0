-- ===== src/Domain/Lifecycle/Examples.antt =====
-- The theorems about lifecycle.py at concrete inputs.
use weather.Common.{ℕ, ◌+◌, ◌*◌, ◌≡◌, refl, true, false, none, some, arith}
use weather.Common.Int.{pos}
use weather.Common.Result.{ok}
use weather.Common.Text.{codes}
use weather.Domain.Time.{aware, naive, hour, day}
use weather.Domain.Horizon.{initial_registry}
use weather.Domain.Temporal.{serving_start_valid_time, is_valid_time_protected}
use weather.Domain.Lifecycle.{is_cycle_horizon_expired, make_snapshot, is_ready}
use weather.Domain.Lifecycle.Expiry.{expired_unprotected}

abbrev cycle : ℕ
cycle = 739_868 * day

ready_test :
    is_ready (make_snapshot (codes "gfs") (naive cycle) (some (codes "ready")) none none) ≡ true
unfolding is_ready make_snapshot
ready_test = refl

expired_unprotected_example :
    is_valid_time_protected initial_registry
      (aware (cycle + 6 * hour))
      (aware (cycle + 12 * day))
      none
      (pos 3)
    ≡ ok false
unfolding serving_start_valid_time is_cycle_horizon_expired
expired_unprotected_example =
    expired_unprotected initial_registry cycle (cycle + 11 * day) (cycle + 12 * day)
      (cycle + 11 * day) 240 6 2 refl refl (omega arith) (omega arith)
