-- ===== src/Domain/Temporal/Boundary.antt =====
-- The serving boundary of temporal.py as a function of the clock.
use weather.Common.{ℕ, suc, ◌+◌, ◌*◌, ◌/◌, ◌%◌, ◌≤◌, ◌<◌, ◌≡◌, true, arith}
use native.Mathlib.Decide.{dec_lt}
use weather.Common.Int.{pos}
use weather.Common.Result.{ok}
use weather.Domain.Time.{aware, hour, day, hour_of}
use weather.Domain.Temporal.{floor_to_cadence, is_whole_hour, serving_start_valid_time}

div_mul_le : (a c : ℕ) → a / c * c ≤ a
div_mul_le a c = grind arith

div_mono : (a b c : ℕ) → a ≤ b → a / c * c ≤ b / c * c
div_mono a b c h = grind arith

-- For every cadence.
pub floor_to_cadence-le : (c t : ℕ) → floor_to_cadence c t ≤ t
unfolding floor_to_cadence
floor_to_cadence-le c t = omega (arith, div_mul_le (t / hour % 24) c)

pub floor_to_cadence_mono : (c t u : ℕ) → t ≤ u → floor_to_cadence c t ≤ floor_to_cadence c u
unfolding floor_to_cadence
floor_to_cadence_mono c t u h = elim (dec_lt (t / day) (u / day)) [
  | yes later ↦ omega (arith, div_mul_le (t / hour % 24) c)
  | no same ↦ omega (arith, div_mono (t / hour % 24) (u / hour % 24) c (omega arith))
]

pub floor-three : (t : ℕ) → floor_to_cadence 3 t ≡ t / (3 * hour) * (3 * hour)
unfolding floor_to_cadence
floor-three t = omega arith

pub whole_hour : (t : ℕ) → is_whole_hour t ≡ true → t % hour ≡ 0
whole_hour t h = ground arith

mul_of_mod : (a c : ℕ) → a % suc c ≡ 0 → a / suc c * suc c ≡ a
mul_of_mod a c h = grind arith

-- A time on the grid is its own boundary.
pub floor_to_cadence_fixed :
    (c t : ℕ) → t % hour ≡ 0 → hour_of t % suc c ≡ 0 → floor_to_cadence (suc c) t ≡ t
unfolding floor_to_cadence
floor_to_cadence_fixed c t w h = omega (arith, mul_of_mod (t / hour % 24) c h)

lt_next : (a c : ℕ) → a < a / suc c * suc c + suc c
lt_next a c = grind arith

pub floor-lt_next : (c t : ℕ) → t < floor_to_cadence (suc c) t + suc c * hour
unfolding floor_to_cadence
floor-lt_next c t = omega (arith, lt_next (t / hour % 24) c)

pub mod_of_mul : (a c : ℕ) → a / suc c * suc c % suc c ≡ 0
mod_of_mul a c = grind arith

pub floor-whole_hour : (c t : ℕ) → is_whole_hour (floor_to_cadence c t) ≡ true
unfolding floor_to_cadence
floor-whole_hour c t = let w : floor_to_cadence c t % hour ≡ 0 = omega arith in ground arith

pub floor-hour_of : (c t : ℕ) → hour_of (floor_to_cadence c t) ≡ hour_of t / c * c
unfolding floor_to_cadence
floor-hour_of c t = omega (arith, div_mul_le (t / hour % 24) c)

pub serving_start-eq :
    (now c : ℕ)
    → serving_start_valid_time (aware now) (pos (suc c)) ≡ ok (floor_to_cadence (suc c) now)
unfolding serving_start_valid_time
serving_start-eq now c = ground arith
