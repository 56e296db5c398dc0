-- ===== src/Realtime/Poll/Examples.antt =====
-- Tests of the poll machine, and the theorems about it at concrete inputs.
use weather.Common.{◌≡◌, refl, false, [], ◌∷◌}
use weather.Common.Result.{raises, Error}
use weather.Realtime.Poll.{
  PollState, PollConfig, PollStateMachine, make_machine, base_interval, run_polls, on_poll_success,
}

-- The default configuration, in seconds.
abbrev config : PollConfig
config = record {
  active_interval = 600;
  publication_interval = 120;
  backoff_initial = 1800;
  backoff_max = 3600;
  jitter_fraction = 100_000;
  discovery_failure_retry = 60;
}

abbrev machine : PollStateMachine
machine = record { config = config; state = PollState.active; backoff_level = 1800 }

bad_backoff_test : make_machine (record config { backoff_max = 10 }) ≡ raises Error.bad_backoff
unfolding make_machine
bad_backoff_test = refl

idle_test : base_interval (run_polls machine (false ∷ false ∷ false ∷ [])) ≡ 3600
unfolding run_polls on_poll_success base_interval
idle_test = refl
