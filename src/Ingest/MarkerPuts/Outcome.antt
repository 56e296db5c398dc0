-- ===== src/Ingest/MarkerPuts/Outcome.antt =====
-- What the submitting loop of the marker writes has done when it returns, and that it gets there
-- without submitting past a failure or spinning.
use weather.Common.{
  ℕ, ◌+◌, ◌≤◌, ◌<◌, ◌≡◌, refl, ap, ◌∙◌, Bool, true, false, ◌||◌, Option, List, [], ◌∷◌, ◌++◌,
  length, ltb, ◌==◌, arith, Bool-cases, inl, inr, any, sym,
}
use weather.Common.Int.{ℤ}
use weather.Common.Text.{Text, text_eq, text_eq_iff}
use weather.Common.Sorted.{text_ltb, any-sorted_set, Ascending, sorted_set-Ascending, text_total}
use weather.Ingest.MarkerPuts.{
  Flight, Scheduler, waiting, over, in_flight, is_empty, fill, check, collect, is_over, phase_after,
  fill_and_test, turn, wake, Step, moves, cancels, turns, wakes, Reach, all_cancelled,
  result_cancelled, is_ok, effective_concurrency, enqueue,
}
use weather.Ingest.MarkerPuts.Accounts.{count, count-append, fill_stopped, Reach-IsSound}

count_empty : (p : Text → Bool) (xs : List Text) → length xs ≡ 0 → count p xs ≡ 0
count_empty p [] h = refl
count_empty p (x ∷ xs) h = omega arith

count-is_empty : (p : Text → Bool) (xs : List Text) → is_empty xs ≡ true → count p xs ≡ 0
count-is_empty p [] h = refl
count-is_empty p (x ∷ xs) h = cc

-- The regions left over are in the list of cancelled ones.
cancelled_accounts :
    (p : Text → Bool) (s : Scheduler)
    → is_over s.unsubmitted s.flight s.stop ≡ true
    → count p (all_cancelled s) ≡ count p s.marks.cancelled + count p s.unsubmitted
cancelled_accounts p s h = elim (Bool-cases s.stop) [
  | inl k ↦ rw k (count-append p s.marks.cancelled s.unsubmitted)
  | inr k ↦
      let none_left : is_empty s.unsubmitted ≡ true = ground arith in
      rw k (
        omega
          (arith, count-append p s.marks.cancelled [], count-is_empty p s.unsubmitted none_left))
]

-- The result names a region as cancelled exactly when it was cancelled.
any-result_cancelled :
    (p : Text → Bool) (s : Scheduler) → any p (result_cancelled s) ≡ any p (all_cancelled s)
any-result_cancelled p s =
    any-sorted_set text_ltb text_eq p (all_cancelled s) (λ x y. (text_eq_iff x y).0)

is_empty-any : (xs : List Text) → any (λ x. true) xs ≡ false → is_empty xs ≡ true
is_empty-any [] h = refl
is_empty-any (x ∷ xs) h = cc

any-is_empty : (xs : List Text) → is_empty xs ≡ true → any (λ x. true) xs ≡ false
any-is_empty [] h = refl
any-is_empty (x ∷ xs) h = cc

all_cancelled-is_empty :
    (s : Scheduler) → is_empty (result_cancelled s) ≡ true → is_empty (all_cancelled s) ≡ true
all_cancelled-is_empty s h =
    is_empty-any (all_cancelled s)
      (sym (any-result_cancelled (λ x. true) s) ∙ any-is_empty (result_cancelled s) h)

module _ (concurrency : ℕ) (targets : List Text) {s : Scheduler}
    (r : Reach concurrency targets s) where
  -- When the loop has returned, nothing is in flight, and every target is a success, a failure or
  -- cancelled: whatever the test, as many regions among the successes, the failures and all that
  -- was cancelled pass it as regions of the targets, and one that the result lists as cancelled
  -- passes exactly when one that was cancelled does. The result lists the cancelled regions in
  -- ascending order, each greater than the one before, so that none is listed twice.
  pub all_accounted :
      s.phase ≡ over
      → (in_flight s.flight ≡ 0)
        × ((p : Text → Bool)
            → (count p s.marks.successes + count p s.marks.failures + count p (all_cancelled s)
                ≡ count p targets)
              × (any p (result_cancelled s) ≡ any p (all_cancelled s)))
        × Ascending text_ltb (result_cancelled s)
  all_accounted e =
      let h = Reach-IsSound concurrency targets r in
      let exit = h.exit e in
      let landed : in_flight s.flight ≡ 0 = ground arith in
      (
        landed,
        λ p. (
          omega (
            arith,
            h.accounts p,
            cancelled_accounts p s exit,
            count_empty p s.flight.queued (omega arith),
            count_empty p s.flight.running (omega arith),
          ),
          any-result_cancelled p s,
        ),
        sorted_set-Ascending text_ltb text_eq text_total (all_cancelled s),
      )

  -- When the loop has returned and the result is ok, every target is a success: whatever the test,
  -- as many successes pass it as targets.
  pub ok_all_written :
      s.phase ≡ over
      → is_ok s ≡ true
      → (p : Text → Bool) → count p s.marks.successes ≡ count p targets
  unfolding is_ok
  ok_all_written e ok p =
      let (a, same) = (all_accounted e).1 p in
      let f : is_empty s.marks.failures ≡ true = ground arith in
      let c : is_empty (result_cancelled s) ≡ true = ground arith in
      omega (
        arith,
        a,
        count-is_empty p s.marks.failures f,
        count-is_empty p (all_cancelled s) (all_cancelled-is_empty s c),
      )

  -- At most as many writes are in flight as the concurrency allows.
  pub in_flight_bounded : in_flight s.flight ≤ concurrency
  in_flight_bounded = (Reach-IsSound concurrency targets r).bounded

stopped_check :
    (s : Scheduler)
    → s.stop ≡ true
    → ((check s).unsubmitted ≡ s.unsubmitted) × ((check s).stop ≡ true)
unfolding check
stopped_check s h = ground arith

fill_of_stopped :
    (c : ℕ) (stop : Bool) (xs : List Text) (f : Flight) → stop ≡ true → (fill c stop xs f).0 ≡ xs
fill_of_stopped c true xs f h = ap (λ r. r.0) (fill_stopped c xs f)
fill_of_stopped c false xs f h = cc

-- Once the loop has stopped, after a failure or a cancellation, no step submits a region.
pub stop_submits_nothing :
    (concurrency : ℕ) (s t : Scheduler)
    → Step concurrency s t
    → s.stop ≡ true
    → (t.unsubmitted ≡ s.unsubmitted) × (t.stop ≡ true)
unfolding turn fill_and_test wake
stop_submits_nothing concurrency s t (moves m) h = (refl, h)
stop_submits_nothing concurrency s t cancels h = (refl, h)
stop_submits_nothing concurrency s t (turns e) h =
    let k = stopped_check (collect s) h in
    (fill_of_stopped concurrency (check (collect s)).stop _ _ k.1 ∙ k.0, k.1)
stop_submits_nothing concurrency s t (wakes e) h = stopped_check s h

-- The turn of the loop that follows a failure stops it: it submits nothing, and what had not
-- started is cancelled.
pub failure_stops :
    (concurrency : ℕ) (s : Scheduler)
    → is_empty s.marks.failures ≡ false
    → let t = turn concurrency s in
      (t.stop ≡ true)
      × (t.unsubmitted ≡ s.unsubmitted)
      × (t.flight.queued ≡ [])
      × (t.marks.cancelled ≡ s.marks.cancelled ++ s.flight.queued)
unfolding turn fill_and_test check
failure_stops concurrency s h =
    rw h (rw (fill_stopped concurrency s.unsubmitted _) (refl, refl, refl, refl))

-- What is not submitted waits for a slot.
fill_full :
    (c : ℕ) (stop : Bool) (xs : List Text) (f : Flight)
    → stop ≡ false
    → is_empty (fill c stop xs f).0 ≡ false
    → c ≤ in_flight (fill c stop xs f).1
unfolding fill
fill_full c stop [] f go left = cc
fill_full c stop (r ∷ xs) f go left = elim (Bool-cases (ltb (in_flight f) c)) [
  | inl k ↦ rw (go, k) (fill_full c stop xs (enqueue r f) go (ground (arith, left)))
  | inr k ↦ rw (go, k) (ground arith)
]

phase_after_waiting : (b : Bool) → phase_after b ≡ waiting → b ≡ false
phase_after_waiting true h = cc
phase_after_waiting false h = refl

still_open :
    (c : ℕ) (stop : Bool) (xs : List Text) (f : Flight)
    → 0 < c
    → let r = fill c stop xs f in is_over r.0 r.1 stop ≡ false → 0 < in_flight r.1
still_open c stop xs f positive h = elim (Bool-cases (in_flight (fill c stop xs f).1 == 0)) [
  | inr k ↦ ground arith
  | inl k ↦
      let left : (is_empty (fill c stop xs f).0 || stop) ≡ false = ground arith in
      let full = fill_full c stop xs f (ground arith) (ground arith) in omega arith
]

-- With a concurrency of at least one, the loop goes to its wait only with a write in flight.
pub turn_waits_for_progress :
    (concurrency : ℕ) (s : Scheduler)
    → 0 < concurrency
    → (turn concurrency s).phase ≡ waiting
    → 0 < in_flight (turn concurrency s).flight
unfolding turn fill_and_test
turn_waits_for_progress concurrency s positive h =
    let t = check (collect s) in
    still_open concurrency t.stop t.unsubmitted t.flight positive (phase_after_waiting _ h)

-- And the wave gives a concurrency between one and 64.
pub concurrency_bounds :
    (argument : Option ℤ) (setting : ℤ) (workers : Option ℕ) (regions : ℕ)
    → let c = effective_concurrency argument setting workers regions in (1 ≤ c) × (c ≤ 64)
unfolding effective_concurrency
concurrency_bounds argument setting workers regions = (omega arith, omega arith)
