-- ===== src/Domain/Temporal/Protected.antt =====
-- The protected set of temporal.py: the boundary, the test of membership, and where the model's own
-- window departs from it.
use weather.Common.{
  ℕ, suc, ◌+◌, ◌*◌, ◌/◌, ◌%◌, ◌≤◌, ◌<◌, ◌≡◌, true, false, Option, none, some, List, leb, ◌==◌,
  if◌then◌else◌, arith,
}
use weather.Common.Int.{pos}
use weather.Common.Result.{ok, ◌>>=◌}
use weather.Common.Text.{Text}
use weather.Domain.Time.{aware, hour_of}
use weather.Domain.Horizon.{Registry, canonical_lead_time_hours}
use weather.Domain.Temporal.{
  floor_to_cadence, serving_start_valid_time, model_serving_start_valid_time, horizon_cadence,
  is_whole_hour, is_on_model_grid, is_valid_time_on_horizon_grid, is_valid_time_protected,
}
use weather.Domain.Temporal.Boundary.{
  floor_to_cadence-le, floor_to_cadence_mono, floor_to_cadence_fixed, floor-whole_hour,
  floor-hour_of, whole_hour, mod_of_mul, serving_start-eq,
}

-- The serving boundary of an aware clock at a positive cadence is the greatest time on the
-- cadence's grid that is not after the clock: it is on the grid, it is not after the clock, and
-- no grid time lies between the two.
pub serving_start-IsGreatest :
    (now c : ℕ)
    → (s : ℕ) × (serving_start_valid_time (aware now) (pos (suc c)) ≡ ok s)
      × (s ≤ now)
      × (is_whole_hour s ≡ true)
      × (hour_of s % suc c ≡ 0)
      × ((u : ℕ) → u ≤ now → is_whole_hour u ≡ true → hour_of u % suc c ≡ 0 → u ≤ s)
serving_start-IsGreatest now c = (
  floor_to_cadence (suc c) now,
  serving_start-eq now c,
  floor_to_cadence-le (suc c) now,
  floor-whole_hour (suc c) now,
  rw (floor-hour_of (suc c) now) (mod_of_mul (hour_of now) c),
  λ u le w h. omega (
    arith,
    floor_to_cadence_fixed c u (whole_hour u w) h,
    floor_to_cadence_mono (suc c) u now le,
  ),
)

-- The test of membership with the boundary written out.
pub protected-eq :
    (r : Registry) (v now c : ℕ) (model : Option Text)
    → is_valid_time_protected r (aware v) (aware now) model (pos (suc c)) ≡ (
        is_on_model_grid r (aware v) model >>= λ on_grid.
        ok (if on_grid then leb (floor_to_cadence (suc c) now) v else false))
unfolding is_valid_time_protected serving_start_valid_time
protected-eq r v now c model = ground (arith)

-- Without a model only the boundary counts.
pub protected_of_boundary :
    (r : Registry) (v now c : ℕ)
    → is_valid_time_protected r (aware v) (aware now) none (pos (suc c))
      ≡ ok (leb (floor_to_cadence (suc c) now) v)
protected_of_boundary r v now c = protected-eq r v now c none

-- Once a valid time has left the protected set, at any positive cadence and with or without a
-- model, it stays out for every later clock.
pub protected_exit_permanent :
    (r : Registry) (v now later c : ℕ) (model : Option Text)
    → now ≤ later
    → is_valid_time_protected r (aware v) (aware now) model (pos (suc c)) ≡ ok false
    → is_valid_time_protected r (aware v) (aware later) model (pos (suc c)) ≡ ok false
protected_exit_permanent r v now later c model le out = ground (
  arith,
  protected-eq r v now c model,
  protected-eq r v later c model,
  floor_to_cadence_mono (suc c) now later le,
)

-- On the grid of a model with the three-hour cadence stand the whole hours that three divides.
pub model_grid :
    (r : Registry) (m : Text) (t : ℕ) {leads : List ℕ}
    → canonical_lead_time_hours r m none none ≡ ok leads
    → horizon_cadence leads ≡ pos 3
    → is_on_model_grid r (aware t) (some m)
      ≡ ok (if is_whole_hour t then hour_of t % 3 == 0 else false)
unfolding is_valid_time_on_horizon_grid
model_grid r m t e k = ground arith

model_start-eq :
    (r : Registry) (m : Text) (now c : ℕ) (leads : List ℕ)
    → canonical_lead_time_hours r m none none ≡ ok leads
    → horizon_cadence leads ≡ pos (suc c)
    → model_serving_start_valid_time r m (aware now) ≡ ok (floor_to_cadence (suc c) now)
unfolding model_serving_start_valid_time
model_start-eq r m now c leads e k = rw (e, k) (serving_start-eq now c)

coarse_earlier :
    (now c : ℕ)
    → hour_of now / suc c * suc c + 3 ≤ hour_of now
    → floor_to_cadence (suc c) now < floor_to_cadence 3 now
unfolding floor_to_cadence
coarse_earlier now c late = omega arith

before_boundary :
    (r : Registry) (s now : ℕ) (m : Text) (leads : List ℕ)
    → canonical_lead_time_hours r m none none ≡ ok leads
    → (c : ℕ) → horizon_cadence leads ≡ pos (suc c)
    → s < floor_to_cadence 3 now
    → is_valid_time_protected r (aware s) (aware now) (some m) (pos 3) ≡ ok false
unfolding is_valid_time_on_horizon_grid
before_boundary r s now m leads e c k lt = ground (arith, protected-eq r s now 2 (some m))

-- The boundary that `is_valid_time_protected` applies by default is that of three hours, and not
-- the model's own: from three hours after the start of a step of the model's cadence on, the
-- serving start that `model_serving_start_valid_time` answers for the model does not pass the
-- test for the same model and clock.
pub model_start_unprotected :
    (r : Registry) (m : Text) (now c : ℕ) (leads : List ℕ)
    → canonical_lead_time_hours r m none none ≡ ok leads
    → horizon_cadence leads ≡ pos (suc c)
    → hour_of now / suc c * suc c + 3 ≤ hour_of now
    → (s : ℕ) × (model_serving_start_valid_time r m (aware now) ≡ ok s)
      × (is_valid_time_protected r (aware s) (aware now) (some m) (pos 3) ≡ ok false)
unfolding model_serving_start_valid_time is_valid_time_on_horizon_grid
model_start_unprotected r m now c leads e k late =
    let s = floor_to_cadence (suc c) now in
    (
      s,
      model_start-eq r m now c leads e k,
      before_boundary r s now m leads e (c) k (coarse_earlier now c late),
    )
