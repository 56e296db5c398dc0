-- ===== src/Realtime/Poll.antt =====
-- realtime/polling.py: the cadence of the polls. Intervals are naturals in one unit of time, and
-- the jitter is counted in millionths.
use weather.Common.{
  ℕ, ◌+◌, ◌-◌, ◌*◌, Bool, true, false, min, ltb, leb, if◌then◌else◌, List, [], ◌∷◌,
}
use weather.Common.Int.{ℤ, pos, negsuc}
use weather.Common.Result.{Result, ok, raises, Error, ◌>>=◌, ◌>>◌, raise_if}
pub mod Backoff
mod Examples

pub data PollState : Type 0 where
  active publishing backoff : PollState

pub record PollConfig : Type 0 where
  pub active_interval : ℕ
  pub publication_interval : ℕ
  pub backoff_initial : ℕ
  pub backoff_max : ℕ
  pub jitter_fraction : ℕ
  pub discovery_failure_retry : ℕ

abbrev pub millionth : ℕ
millionth = 1_000_000

pub record PollStateMachine : Type 0 where
  pub config : PollConfig
  pub state : PollState
  pub backoff_level : ℕ

-- `__init__`
pub make_machine : PollConfig → Result PollStateMachine
make_machine c = do
  raise_if (ltb c.backoff_max c.backoff_initial) Error.bad_backoff
  raise_if (leb millionth c.jitter_fraction) Error.bad_jitter
  ok (record { config = c; state = PollState.active; backoff_level = c.backoff_initial })

abbrev pub interval_of : PollState → PollConfig → ℕ → ℕ
interval_of PollState.active c level = c.active_interval
interval_of PollState.publishing c level = c.publication_interval
interval_of PollState.backoff c level = level

pub base_interval : PollStateMachine → ℕ
base_interval m = interval_of m.state m.config m.backoff_level

-- `max(0.0, interval * (1.0 + draw))` in millionths of the unit, for a draw of the random source.
pub jitter_interval : ℕ → ℤ → ℕ
jitter_interval interval (pos d) = interval * (millionth + d)
jitter_interval interval (negsuc d) = interval * (millionth - (d + 1))

pub next_interval : PollStateMachine → ℤ → ℕ
unfolding base_interval jitter_interval
next_interval m draw = jitter_interval (base_interval m) draw

-- What an idle poll does in each state.
abbrev pub idle : PollStateMachine → PollState → PollStateMachine
idle m PollState.backoff = record m {
  backoff_level = min (m.backoff_level * 2) m.config.backoff_max;
}
idle m PollState.active = record m {
  state = PollState.backoff;
  backoff_level = m.config.backoff_initial;
}
idle m PollState.publishing = record m {
  state = PollState.backoff;
  backoff_level = m.config.backoff_initial;
}

pub on_poll_success : PollStateMachine → Bool → PollStateMachine
on_poll_success m activity =
    if activity
    then record m { state = PollState.publishing; backoff_level = m.config.backoff_initial }
    else idle m m.state

-- A run of successful polls.
pub run_polls : PollStateMachine → List Bool → PollStateMachine
run_polls m [] = m
run_polls m (activity ∷ rest) = run_polls (on_poll_success m activity) rest
