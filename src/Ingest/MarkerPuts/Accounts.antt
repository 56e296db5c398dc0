-- ===== src/Ingest/MarkerPuts/Accounts.antt =====
-- Every region that was to be marked is in one place at a time, and the futures in flight stay
-- within the concurrency.
use weather.Common.{
  ℕ, suc, ◌+◌, ◌≤◌, ◌≡◌, refl, ◌∙◌, Bool, true, false, not, ◌&&◌, ◌||◌, List, [], ◌∷◌, ◌++◌, length,
  length-append, ltb, arith, Bool-cases, inl, inr,
}
use weather.Common.Text.{Text}
use weather.Ingest.MarkerPuts.{
  Flight, Marks, Scheduler, collecting, over, in_flight, is_empty, enqueue, fill, collect, check,
  is_over, phase_after, fill_and_test, turn, wake, initial, Move, starts, succeeds, fails, returns,
  Step, moves, cancels, turns, wakes, Reach, begins, later,
}

abbrev pub hit : Bool → ℕ
hit true = 1
hit false = 0

-- How many regions of a list pass a test.
abbrev pub count : (Text → Bool) → List Text → ℕ
count p [] = 0
count p (r ∷ rs) = hit (p r) + count p rs

pub count-append :
    (p : Text → Bool) (xs ys : List Text) → count p (xs ++ ys) ≡ count p xs + count p ys
count-append p [] ys = omega arith
count-append p (x ∷ xs) ys = omega (arith, count-append p xs ys)

-- Taking one region out of the middle.
count-middle :
    (p : Text → Bool) (xs ys : List Text) (r : Text)
    → count p (xs ++ r ∷ ys) ≡ hit (p r) + count p (xs ++ ys)
count-middle p xs ys r = omega (arith, count-append p xs (r ∷ ys), count-append p xs ys)

length-middle : (xs ys : List Text) (r : Text) → length (xs ++ r ∷ ys) ≡ suc (length (xs ++ ys))
length-middle xs ys r = omega (arith, length-append xs (r ∷ ys), length-append xs ys)

-- The places of the regions: each is unsubmitted, waits for a thread, is being written, or is in
-- one of the lists of the result.
abbrev pub placed : (Text → Bool) → List Text → Flight → Marks → ℕ
placed p unsubmitted f m =
    count p unsubmitted
    + count p f.queued
    + count p f.running
    + count p m.successes
    + count p m.failures
    + count p m.cancelled

fill-placed :
    (p : Text → Bool) (c : ℕ) (stop : Bool) (xs : List Text) (f : Flight) (m : Marks)
    → placed p (fill c stop xs f).0 (fill c stop xs f).1 m ≡ placed p xs f m
unfolding fill
fill-placed p c stop [] f m = refl
fill-placed p c stop (r ∷ xs) f m = elim (Bool-cases (not stop && ltb (in_flight f) c)) [
  | inl h ↦
      rw h
        (omega (arith, fill-placed p c stop xs (enqueue r f) m, count-append p f.queued (r ∷ [])))
  | inr h ↦ rw h refl
]

fill-bounded :
    (c : ℕ) (stop : Bool) (xs : List Text) (f : Flight)
    → in_flight f ≤ c
    → in_flight (fill c stop xs f).1 ≤ c
unfolding fill
fill-bounded c stop [] f h = h
fill-bounded c stop (r ∷ xs) f h = elim (Bool-cases (not stop && ltb (in_flight f) c)) [
  | inl k ↦
      rw k (fill-bounded c stop xs (enqueue r f) (ground (arith, length-append f.queued (r ∷ []))))
  | inr k ↦ rw k h
]

pub fill_stopped : (c : ℕ) (xs : List Text) (f : Flight) → fill c true xs f ≡ (xs, f)
unfolding fill
fill_stopped c [] f = refl
fill_stopped c (r ∷ xs) f = refl

Move-placed :
    {f g : Flight} {m n : Marks}
    → Move f m g n
    → (p : Text → Bool) (xs : List Text) → placed p xs g n ≡ placed p xs f m
Move-placed (starts xs ys run rec fin r m) p us = omega (arith, count-middle p xs ys r)
Move-placed (succeeds q xs ys rec fin r m) p us =
    omega (arith, count-middle p xs ys r, count-append p m.successes (r ∷ []))
Move-placed (fails q xs ys rec fin r m) p us =
    omega (arith, count-middle p xs ys r, count-append p m.failures (r ∷ []))
Move-placed (returns q run xs ys fin r m) p us = refl

pub Move-in_flight : {f g : Flight} {m n : Marks} → Move f m g n → in_flight g ≡ in_flight f
Move-in_flight (starts xs ys run rec fin r m) = omega (arith, length-middle xs ys r)
Move-in_flight (succeeds q xs ys rec fin r m) = omega (arith, length-middle xs ys r)
Move-in_flight (fails q xs ys rec fin r m) = omega (arith, length-middle xs ys r)
Move-in_flight (returns q run xs ys fin r m) = omega (arith, length-middle xs ys r)

-- What every reachable state keeps.
pub record IsSound (c : ℕ) (targets : List Text) (s : Scheduler) : Type 0 where
  pub accounts : (p : Text → Bool) → placed p s.unsubmitted s.flight s.marks ≡ count p targets
  pub bounded : in_flight s.flight ≤ c
  pub exit : s.phase ≡ over → is_over s.unsubmitted s.flight s.stop ≡ true

initial-IsSound : (c : ℕ) (targets : List Text) → IsSound c targets (initial c targets)
unfolding initial
initial-IsSound c targets =
    let none_yet : Flight = record { queued = []; running = []; recorded = []; done = [] } in
    let unmarked : Marks = record { successes = []; failures = []; cancelled = [] } in
    record {
      accounts = λ p. omega (arith, fill-placed p c false targets none_yet unmarked);
      bounded = fill-bounded c false targets none_yet (omega arith);
      exit = λ h. cc;
    }

check-IsSound :
    (c : ℕ) (targets : List Text) (s : Scheduler)
    → IsSound c targets s
    → IsSound c targets (check s)
unfolding check
check-IsSound c targets s h =
    elim (Bool-cases (not (is_empty s.marks.failures) || s.cancel_event)) [
      | inl k ↦ rw k (record {
        accounts =
            λ p. omega (arith, h.accounts p, count-append p s.marks.cancelled s.flight.queued);
        bounded = omega (arith, h.bounded);
        exit = λ e. ground (arith, h.exit e);
      })
      | inr k ↦ rw k h
    ]

phase_after_over : (b : Bool) → phase_after b ≡ over → b ≡ true
phase_after_over true h = refl
phase_after_over false h = cc

turn-IsSound :
    (c : ℕ) (targets : List Text) (s : Scheduler)
    → s.phase ≡ collecting
    → IsSound c targets s
    → IsSound c targets (turn c s)
unfolding turn fill_and_test
turn-IsSound c targets s e h =
    let collected : IsSound c targets (collect s) = record {
      accounts = h.accounts;
      bounded = omega (arith, h.bounded);
      exit = λ k. cc;
    } in
    let k = check-IsSound c targets (collect s) collected in
    let t = check (collect s) in
    record {
      accounts = λ p. fill-placed p c t.stop t.unsubmitted t.flight t.marks ∙ k.accounts p;
      bounded = fill-bounded c t.stop t.unsubmitted t.flight k.bounded;
      exit = phase_after_over _;
    }

wake-IsSound :
    (c : ℕ) (targets : List Text) (s : Scheduler) → IsSound c targets s → IsSound c targets (wake s)
unfolding wake
wake-IsSound c targets s h =
    let k = check-IsSound c targets s h in
    record { accounts = k.accounts; bounded = k.bounded; exit = λ e. cc }

Step-IsSound :
    (c : ℕ) (targets : List Text) {s t : Scheduler}
    → Step c s t
    → IsSound c targets s
    → IsSound c targets t
Step-IsSound c targets {s = s} (moves m) h = record {
  accounts = λ p. Move-placed m p s.unsubmitted ∙ h.accounts p;
  bounded = omega (arith, Move-in_flight m, h.bounded);
  exit = λ e. rw (Move-in_flight m) (h.exit e);
}
Step-IsSound c targets cancels h = record {
  accounts = h.accounts;
  bounded = h.bounded;
  exit = h.exit;
}
Step-IsSound c targets {s = s} (turns e) h = turn-IsSound c targets s e h
Step-IsSound c targets {s = s} (wakes e) h = wake-IsSound c targets s h

pub Reach-IsSound :
    (c : ℕ) (targets : List Text) {s : Scheduler} → Reach c targets s → IsSound c targets s
Reach-IsSound c targets begins = initial-IsSound c targets
Reach-IsSound c targets (later r step) = Step-IsSound c targets step (Reach-IsSound c targets r)
