-- ===== src/Domain/Lifecycle/Expiry.antt =====
-- What expiry and purging mean for the serving window and over time.
use weather.Common.{
  ℕ, suc, ◌+◌, ◌*◌, ◌≤◌, ◌<◌, ◌≡◌, ◌↔◌, refl, true, false, Option, none, some, arith,
}
use weather.Common.Int.{pos}
use weather.Common.Result.{ok}
use weather.Domain.Time.{DateTime, aware, ensure_utc, hour, day, max_instant}
use weather.Domain.Horizon.{Registry}
use weather.Domain.Temporal.{serving_start_valid_time, is_valid_time_protected}
use weather.Domain.Temporal.Boundary.{serving_start-eq, floor_to_cadence_mono}
use weather.Domain.Temporal.Protected.{protected_of_boundary}
use weather.Domain.Lifecycle.{is_cycle_horizon_expired, is_metadata_purge_eligible}

-- A cycle has expired exactly when its last valid time lies strictly before the boundary.
pub expired_iff :
    (cycle boundary : DateTime) (max_lead : ℕ)
    → ensure_utc cycle + max_lead * hour ≤ max_instant
    → (is_cycle_horizon_expired cycle max_lead boundary ≡ ok true)
      ↔ (ensure_utc cycle + max_lead * hour < ensure_utc boundary)
unfolding is_cycle_horizon_expired
expired_iff cycle boundary max_lead fits = (λ h. ground arith, λ h. ground arith)

-- No valid time of an expired cycle is served: if the cycle has expired at the serving boundary
-- of a clock, then for every lead up to the longest one the valid time, cycle plus lead, is
-- outside the protected set of that clock and of every later one, for every registry.
pub expired_unprotected :
    (r : Registry) (cycle now later start max_lead lead c : ℕ)
    → serving_start_valid_time (aware now) (pos (suc c)) ≡ ok start
    → is_cycle_horizon_expired (aware cycle) max_lead (aware start) ≡ ok true
    → lead ≤ max_lead
    → now ≤ later
    → is_valid_time_protected r (aware (cycle + lead * hour)) (aware later) none (pos (suc c))
      ≡ ok false
unfolding is_cycle_horizon_expired
expired_unprotected r cycle now later start max_lead lead c s e le mono = ground (
  arith,
  serving_start-eq now c,
  protected_of_boundary r (cycle + lead * hour) later c,
  floor_to_cadence_mono (suc c) now later mono,
)

-- And a cycle that has not expired still has a valid time to serve: its last lead is protected.
pub unexpired_protected :
    (r : Registry) (cycle now start max_lead c : ℕ)
    → serving_start_valid_time (aware now) (pos (suc c)) ≡ ok start
    → is_cycle_horizon_expired (aware cycle) max_lead (aware start) ≡ ok false
    → is_valid_time_protected r (aware (cycle + max_lead * hour)) (aware now) none (pos (suc c))
      ≡ ok true
unfolding is_cycle_horizon_expired
unexpired_protected r cycle now start max_lead c s e =
    ground (arith, serving_start-eq now c, protected_of_boundary r (cycle + max_lead * hour) now c)

-- Metadata is eligible for the purge only after the deletion, only once the retention has
-- passed, and from then on for good.
pub purge_eligible :
    (deleted : Option DateTime) (now later : DateTime) (days : ℕ)
    → is_metadata_purge_eligible deleted now days ≡ ok true
    → ensure_utc now ≤ ensure_utc later
    → (d : DateTime) × (deleted ≡ some d)
      × (ensure_utc d + days * day ≤ ensure_utc now)
      × (is_metadata_purge_eligible deleted later days ≡ ok true)
unfolding is_metadata_purge_eligible
purge_eligible none now later days e le = cc
purge_eligible (some d) now later days e le = (d, refl, ground arith, ground arith)
