-- ===== src/Realtime/Poll/Backoff.antt =====
-- The bounds and the progress of the back-off.
use weather.Common.{
  ℕ, zero, suc, ◌+◌, ◌-◌, ◌*◌, ◌^◌, ◌≤◌, ◌<◌, ◌≡◌, refl, ap, ◌∙◌, Bool, true, false, min, arith,
  List, [], ◌∷◌, ◌++◌, replicate,
}
use native.Mathlib.Nat.{pow-suc}
use native.Mathlib.Decide.{dec_le}
use weather.Common.Int.{ℤ, pos, negsuc, pos_part, neg_part}
use weather.Common.Result.{ok}
use weather.Realtime.Poll.{
  PollState, PollConfig, PollStateMachine, make_machine, base_interval, jitter_interval,
  next_interval, on_poll_success, run_polls, millionth,
}

-- The back-off level stays between its initial and its greatest value.
pub record IsValid (m : PollStateMachine) : Type 0 where
  pub above : m.config.backoff_initial ≤ m.backoff_level
  pub below : m.backoff_level ≤ m.config.backoff_max
  pub small : m.config.jitter_fraction < millionth

on_poll_success-IsValid :
    (m : PollStateMachine) (activity : Bool) → IsValid m → IsValid (on_poll_success m activity)
unfolding on_poll_success
on_poll_success-IsValid m activity h = ground arith

run_polls-IsValid :
    (m : PollStateMachine) (polls : List Bool) → IsValid m → IsValid (run_polls m polls)
unfolding run_polls
run_polls-IsValid m [] h = h
run_polls-IsValid m (a ∷ polls) h =
    run_polls-IsValid (on_poll_success m a) polls (on_poll_success-IsValid m a h)

-- A machine that the constructor accepts keeps its back-off level between the two bounds of its
-- configuration through every run of polls.
pub machine-IsValid :
    (c : PollConfig) (m : PollStateMachine) (polls : List Bool)
    → make_machine c ≡ ok m
    → IsValid (run_polls m polls)
unfolding make_machine
machine-IsValid c m polls e = run_polls-IsValid m polls (ground arith)

-- The sleep lies within the jitter of the base interval, for every draw that the random source
-- may give, and it is never cut off at zero.
pub next_interval_bounds :
    (m : PollStateMachine) (draw : ℤ)
    → IsValid m
    → pos_part draw ≤ m.config.jitter_fraction
    → neg_part draw ≤ m.config.jitter_fraction
    → (base_interval m * (millionth - m.config.jitter_fraction) ≤ next_interval m draw)
      × (next_interval m draw ≤ base_interval m * (millionth + m.config.jitter_fraction))
unfolding next_interval jitter_interval
next_interval_bounds m (pos d) v up down = grind arith
next_interval_bounds m (negsuc d) v up down = grind arith

pow_pos : (n : ℕ) → 1 ≤ 2 ^ n
pow_pos zero = omega arith
pow_pos (suc n) = rw pow-suc (omega (arith, pow_pos n))

le_mul : (a p : ℕ) → 1 ≤ p → a ≤ a * p
le_mul a p h = grind arith

mul_mono : (a b p : ℕ) → a ≤ b → a * p ≤ b * p
mul_mono a b p h = grind arith

double_min : (l top p : ℕ) → 1 ≤ p → min (min (l * 2) top * p) top ≡ min (l * (p * 2)) top
double_min l top p h = elim (dec_le (l * 2) top) [
  | yes low ↦ let e : min (l * 2) top ≡ l * 2 = omega arith in rw e (omega arith)
  | no high ↦
      let e : min (l * 2) top ≡ top = omega arith in
      rw e (omega (arith, le_mul top p h, mul_mono top (l * 2) p (omega arith)))
]

abbrev backing_off : PollConfig → ℕ → PollStateMachine
backing_off c level = record { config = c; state = PollState.backoff; backoff_level = level }

backing_off-run :
    (c : PollConfig) (level n : ℕ)
    → level ≤ c.backoff_max
    → run_polls (backing_off c level) (replicate n false)
      ≡ backing_off c (min (level * 2 ^ n) c.backoff_max)
unfolding run_polls on_poll_success
backing_off-run c level zero h = ap (backing_off c) (omega arith)
backing_off-run c level (suc n) h =
    backing_off-run c (min (level * 2) c.backoff_max) n (omega arith)
    ∙ ap (backing_off c) (rw (pow-suc 2 n) (double_min level c.backoff_max (2 ^ n) (pow_pos n)))

-- From the last poll with activity on, the first idle poll brings the initial back-off, and every
-- further one doubles it up to the greatest: after `n` more it is the smaller of
-- `initial * 2 ^ n` and the greatest.
pub backoff_doubles :
    (m : PollStateMachine) (n : ℕ)
    → IsValid m
    → let later = run_polls m (true ∷ false ∷ replicate n false) in
      (later.state ≡ PollState.backoff)
      × (base_interval later ≡ min (m.config.backoff_initial * 2 ^ n) m.config.backoff_max)
unfolding run_polls on_poll_success base_interval
backoff_doubles m n v =
    rw (backing_off-run m.config m.config.backoff_initial n (omega arith)) (refl, refl)

-- A poll with activity sets the fast cadence from every state, and forgets the back-off.
pub activity_resets :
    (m : PollStateMachine) (polls : List Bool)
    → let later = run_polls m (polls ++ true ∷ []) in
      (base_interval later ≡ m.config.publication_interval)
      × (later.backoff_level ≡ m.config.backoff_initial)
unfolding run_polls on_poll_success base_interval
activity_resets m [] = (refl, refl)
activity_resets m (a ∷ polls) =
    let same : (on_poll_success m a).config ≡ m.config = ground arith in
    let (p, q) = activity_resets (on_poll_success m a) polls in
    (p ∙ ap (λ c. c.publication_interval) same, q ∙ ap (λ c. c.backoff_initial) same)
