-- ===== src/Ingest/MarkerPuts.antt =====
-- services/ingestion/src/ingestion/core/marker_put_scheduler.py: the rolling submission of marker
-- writes, as a step relation of the submitting loop and the threads of the pool; and the
-- concurrency that core/coordinator.py gives it.
use weather.Common.{
  ℕ, ◌+◌, ◌≡◌, Bool, true, false, not, ◌&&◌, ◌||◌, Option, none, some, List, [], ◌∷◌, ◌++◌, length,
  ltb, ◌==◌, if◌then◌else◌, min, max,
}
use weather.Common.Int.{ℤ, pos, negsuc, pos_part}
use weather.Common.Text.{Text, text_eq}
use weather.Common.Sorted.{text_ltb, sorted_set}
pub mod Accounts
pub mod Outcome
mod Examples

-- The futures in flight, by the regions that they write: not started, in `put_one`, past the
-- append to a list of the result, and done.
pub record Flight : Type 0 where
  pub queued : List Text
  pub running : List Text
  pub recorded : List Text
  pub done : List Text

-- The lists of the result.
pub record Marks : Type 0 where
  pub successes : List Text
  pub failures : List Text
  pub cancelled : List Text

-- Where the submitting loop stands: before it collects, in its wait, or past its exit.
pub data Phase : Type 0 where
  collecting waiting over : Phase

-- `unsubmitted` is `target_list[idx:]`.
pub record Scheduler : Type 0 where
  pub unsubmitted : List Text
  pub flight : Flight
  pub marks : Marks
  pub stop : Bool
  pub cancel_event : Bool
  pub phase : Phase

abbrev pub in_flight : Flight → ℕ
in_flight f = length f.queued + length f.running + length f.recorded + length f.done

abbrev pub is_empty : List Text → Bool
is_empty [] = true
is_empty (r ∷ rs) = false

abbrev pub enqueue : Text → Flight → Flight
enqueue r f = record f { queued = f.queued ++ r ∷ [] }

-- `submit_next`, while slots are free and regions are left: what stays unsubmitted, and the
-- futures then in flight.
pub fill : ℕ → Bool → List Text → Flight → List Text × Flight
fill concurrency stop [] f = ([], f)
fill concurrency stop (r ∷ rest) f =
    let more = fill concurrency stop rest (enqueue r f) in
    if not stop && ltb (in_flight f) concurrency then more else (r ∷ rest, f)

-- A done future is dropped.
abbrev pub collect : Scheduler → Scheduler
collect s = record s { flight = record (s.flight) { done = [] } }

-- `stop.set(); cancel_not_started()`
abbrev pub cancel_not_started : Scheduler → Scheduler
cancel_not_started s = record s {
  flight = record (s.flight) { queued = [] };
  marks = record (s.marks) { cancelled = s.marks.cancelled ++ s.flight.queued };
  stop = true;
}

-- `if failures or cancel_event.is_set(): ...`
pub check : Scheduler → Scheduler
check s = if not (is_empty s.marks.failures) || s.cancel_event then cancel_not_started s else s

abbrev pub is_over : List Text → Flight → Bool → Bool
is_over unsubmitted f stop = (in_flight f == 0) && (is_empty unsubmitted || stop)

abbrev pub phase_after : Bool → Phase
phase_after true = over
phase_after false = waiting

-- The free slots are filled, and the exit is tested.
pub fill_and_test : ℕ → Scheduler → Scheduler
unfolding fill
fill_and_test concurrency s =
    let filled = fill concurrency s.stop s.unsubmitted s.flight in
    record s {
      unsubmitted = filled.0;
      flight = filled.1;
      phase = phase_after (is_over filled.0 filled.1 s.stop);
    }

-- The loop from its head to its exit test.
pub turn : ℕ → Scheduler → Scheduler
unfolding check fill_and_test
turn concurrency s = fill_and_test concurrency (check (collect s))

-- The end of the wait, with its own check.
pub wake : Scheduler → Scheduler
unfolding check
wake s = record (check s) { phase = collecting }

-- Before the loop: the initial fill.
pub initial : ℕ → List Text → Scheduler
unfolding fill
initial concurrency targets =
    let filled =
      fill concurrency false targets
        (record { queued = []; running = []; recorded = []; done = [] }) in
    record {
      unsubmitted = filled.0;
      flight = filled.1;
      marks = record { successes = []; failures = []; cancelled = [] };
      stop = false;
      cancel_event = false;
      phase = collecting;
    }

-- A thread of the pool starts a future, appends the outcome of `put_one` to a list of the result,
-- or returns from `run_one`.
pub data Move : Flight → Marks → Flight → Marks → Type 0 where
  starts :
      (xs ys run rec fin : List Text) (r : Text) (m : Marks)
      → Move
          (record { queued = xs ++ r ∷ ys; running = run; recorded = rec; done = fin })
          m
          (record { queued = xs ++ ys; running = r ∷ run; recorded = rec; done = fin })
          m
  succeeds :
      (q xs ys rec fin : List Text) (r : Text) (m : Marks)
      → Move
          (record { queued = q; running = xs ++ r ∷ ys; recorded = rec; done = fin })
          m
          (record { queued = q; running = xs ++ ys; recorded = r ∷ rec; done = fin })
          (record m { successes = m.successes ++ r ∷ [] })
  fails :
      (q xs ys rec fin : List Text) (r : Text) (m : Marks)
      → Move
          (record { queued = q; running = xs ++ r ∷ ys; recorded = rec; done = fin })
          m
          (record { queued = q; running = xs ++ ys; recorded = r ∷ rec; done = fin })
          (record m { failures = m.failures ++ r ∷ [] })
  returns :
      (q run xs ys fin : List Text) (r : Text) (m : Marks)
      → Move
          (record { queued = q; running = run; recorded = xs ++ r ∷ ys; done = fin })
          m
          (record { queued = q; running = run; recorded = xs ++ ys; done = r ∷ fin })
          m

-- One step: a thread moves, the caller asks for cancellation, or the loop turns or wakes.
pub data Step (concurrency : ℕ) (s : Scheduler) : Scheduler → Type 0 where
  moves :
      {f : Flight} {m : Marks}
      → Move s.flight s.marks f m
      → Step concurrency s (record s { flight = f; marks = m })
  cancels : Step concurrency s (record s { cancel_event = true })
  turns : s.phase ≡ collecting → Step concurrency s (turn concurrency s)
  wakes : s.phase ≡ waiting → Step concurrency s (wake s)

pub data Reach (concurrency : ℕ) (targets : List Text) : Scheduler → Type 0 where
  begins : Reach concurrency targets (initial concurrency targets)
  later :
      {s t : Scheduler}
      → Reach concurrency targets s
      → Step concurrency s t
      → Reach concurrency targets t

-- The list `cancelled` when the loop has returned.
abbrev pub all_cancelled : Scheduler → List Text
all_cancelled s = s.marks.cancelled ++ (if s.stop then s.unsubmitted else [])

-- `sorted(set(cancelled))`
abbrev pub result_cancelled : Scheduler → List Text
result_cancelled s = sorted_set text_ltb text_eq (all_cancelled s)

-- `MarkerPutResult.ok`
pub is_ok : Scheduler → Bool
is_ok s = is_empty s.marks.failures && is_empty (result_cancelled s)

abbrev pub chosen : Option ℤ → ℤ → ℤ
chosen none setting = setting
chosen (some argument) setting = argument

abbrev pub cut : Option ℕ → ℕ → ℕ
cut none n = n
cut (some workers) n = if ltb 0 workers then min n workers else n

-- What the wave gives as the concurrency: the argument or the setting, cut by the size of the
-- pool if there is one, by the number of regions and by 64, and at least one.
pub effective_concurrency : Option ℤ → ℤ → Option ℕ → ℕ → ℕ
effective_concurrency argument setting workers regions =
    max 1 (min (min (cut workers (pos_part (chosen argument setting))) regions) 64)
