-- ===== src/Ingest/MarkerPuts/Examples.antt =====
-- Runs of the marker writes.
use weather.Common.{any, ◌+◌, ◌≤◌, ◌<◌, ◌≡◌, refl, Bool, true, false, [], ◌∷◌, arith}
use weather.Common.Text.{Text, codes, text_eq}
use weather.Common.Sorted.{Ascending, text_ltb}
use weather.Ingest.MarkerPuts.{
  Scheduler, Marks, collecting, waiting, over, in_flight, turn, wake, initial, starts, succeeds,
  fails, returns, moves, turns, wakes, Reach, begins, later, all_cancelled, result_cancelled, is_ok,
}
use weather.Ingest.MarkerPuts.Accounts.{count}
use weather.Ingest.MarkerPuts.Outcome.{
  all_accounted, ok_all_written, in_flight_bounded, stop_submits_nothing, turn_waits_for_progress,
}

abbrev a : Text
a = codes "det_L0000"

abbrev b : Text
b = codes "det_L0003"

abbrev no_marks : Marks
no_marks = record { successes = []; failures = []; cancelled = [] }

-- The only write succeeds.
abbrev written : Scheduler
written = record {
  unsubmitted = [];
  flight = record { queued = []; running = []; recorded = []; done = [] };
  marks = record { successes = a ∷ []; failures = []; cancelled = [] };
  stop = false;
  cancel_event = false;
  phase = over;
}

written-Reach : Reach 1 (a ∷ []) written
unfolding initial turn
written-Reach =
    later
      (later
        (later (later begins (moves (starts [] [] [] [] [] a no_marks)))
          (moves (succeeds [] [] [] [] [] a no_marks)))
        (moves (returns [] [] [] [] [] a (record no_marks { successes = a ∷ [] }))))
      (turns refl)

-- The first of two writes fails, with one slot: the second is never submitted.
abbrev failed : Scheduler
failed = record {
  unsubmitted = b ∷ [];
  flight = record { queued = []; running = []; recorded = []; done = [] };
  marks = record { successes = []; failures = a ∷ []; cancelled = [] };
  stop = true;
  cancel_event = false;
  phase = over;
}

failed-Reach : Reach 1 (a ∷ b ∷ []) failed
unfolding initial turn wake
failed-Reach =
    let m : Marks = record no_marks { failures = a ∷ [] } in
    later
      (later
        (later
          (later
            (later (later begins (moves (starts [] [] [] [] [] a no_marks)))
              (moves (fails [] [] [] [] [] a no_marks)))
            (turns refl))
          (moves (returns [] [] [] [] [] a m)))
        (wakes refl))
      (turns refl)

all_accounted_example :
    (in_flight failed.flight ≡ 0)
    × ((p : Text → Bool)
        → (count p failed.marks.successes
              + count p failed.marks.failures
              + count p (all_cancelled failed)
            ≡ count p (a ∷ b ∷ []))
          × (any p (result_cancelled failed) ≡ any p (all_cancelled failed)))
    × Ascending text_ltb (result_cancelled failed)
all_accounted_example = all_accounted 1 (a ∷ b ∷ []) failed-Reach refl

ok_all_written_example : count (text_eq a) (a ∷ []) ≡ count (text_eq a) (a ∷ [])
unfolding is_ok
ok_all_written_example = ok_all_written 1 (a ∷ []) written-Reach refl refl (text_eq a)

in_flight_bounded_example : in_flight failed.flight ≤ 1
in_flight_bounded_example = in_flight_bounded 1 (a ∷ b ∷ []) failed-Reach

stop_submits_nothing_example : ((wake failed).unsubmitted ≡ b ∷ []) × ((wake failed).stop ≡ true)
unfolding wake
stop_submits_nothing_example =
    stop_submits_nothing 1 (record failed { phase = waiting })
      (wake (record failed { phase = waiting })) (wakes refl) refl

abbrev failing : Scheduler
failing = record {
  unsubmitted = b ∷ [];
  flight = record { queued = b ∷ []; running = []; recorded = a ∷ []; done = [] };
  marks = record { successes = []; failures = a ∷ []; cancelled = [] };
  stop = false;
  cancel_event = false;
  phase = collecting;
}

turn_waits_for_progress_example : 0 < in_flight (turn 2 failing).flight
unfolding turn
turn_waits_for_progress_example = turn_waits_for_progress 2 failing (omega arith) refl
