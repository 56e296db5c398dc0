-- ===== src/Realtime/Planner/Reasons.antt =====
-- The reasons for which the pending walk of planner.py can end.
use weather.Common.{
  ℕ, zero, suc, ◌+◌, ◌-◌, ◌≡◌, ◌≢◌, refl, true, Option, none, some, List, [], ◌∷◌, ◌++◌, elem, All,
  arith, ◌⊎◌, inl, inr,
}
use weather.Domain.Horizon.{leads_from}
use weather.Realtime.Planner.{
  Inputs, BlockReason, predecessor, horizon_complete, walk, both_committed, predecessors_satisfied,
  predecessor_satisfied, end_of_walk,
}
use weather.Realtime.Planner.Pending.{walk_cases, elem-snoc}

-- A lead that both models have committed, or that is collected.
abbrev IsReady : Inputs → List ℕ → ℕ → Type 0
IsReady i pending l = (both_committed i l ≡ true) ⊎ (elem l pending ≡ true)

ready_predecessor :
    (i : Inputs) (a : ℕ) (pending : List ℕ)
    → (a ≡ 0) ⊎ IsReady i pending (a - 3)
    → predecessors_satisfied i a pending ≡ true
unfolding predecessor_satisfied
ready_predecessor i a pending h = ground arith

abbrev pub reason_of : Option (ℕ × BlockReason) → Option BlockReason
reason_of none = none
reason_of (some (l, r)) = some r

pub walk_never_predecessor :
    (i : Inputs) (a n : ℕ) (pending : List ℕ)
    → (a ≡ 0) ⊎ IsReady i pending (a - 3)
    → reason_of (walk i (leads_from a 3 n) pending).blocked ≢ some predecessor
unfolding walk
walk_never_predecessor i a zero pending h = λ e. cc
walk_never_predecessor i a (suc n) pending h =
    walk_cases (λ w. reason_of w.blocked ≢ some predecessor) i a (leads_from (a + 3) 3 n) pending
      (λ c. walk_never_predecessor i (a + 3) n pending (inr (inl (rw back c))))
      (λ m s. λ e. ground arith) (λ m s p. absurd (ground (arith, ready_predecessor i a pending h)))
      (λ m s p.
        walk_never_predecessor i (a + 3) n (pending ++ a ∷ [])
          (inr (inr (rw back (elem-snoc a pending)))))
  where
    back : a + 3 - 3 ≡ a
    back = omega arith

-- No lead is blocked for the reason that the plan gives at the end of the horizon.
pub walk_never_complete :
    (i : Inputs) (seq pending : List ℕ)
    → reason_of (walk i seq pending).blocked ≢ some horizon_complete
unfolding walk
walk_never_complete i [] pending = λ e. cc
walk_never_complete i (lead ∷ seq) pending =
    walk_cases (λ w. reason_of w.blocked ≢ some horizon_complete) i lead seq pending
      (λ c. walk_never_complete i seq pending) (λ n s. λ e. ground arith) (λ n s p. λ e. cc)
      (λ n s p. walk_never_complete i seq (pending ++ lead ∷ []))

-- Where all is committed, the walk passes over all.
pub walk_committed :
    (i : Inputs) (seq pending : List ℕ)
    → All (λ l. both_committed i l ≡ true) seq
    → walk i seq pending ≡ end_of_walk pending
unfolding walk
walk_committed i [] pending h = refl
walk_committed i (lead ∷ seq) pending h = rw h.0 (walk_committed i seq pending h.1)
