-- ===== src/Realtime/Planner/Pending.antt =====
-- The pending walk of planner.py: what it collects, where it stops, and why.
use weather.Common.{
  ap, first, elem-append, ℕ, ◌≡◌, refl, sym, subst, true, false, Option, none, some, List, [], ◌∷◌,
  ◌++◌, elem, All, All-append, arith, Bool-cases, ◌⊎◌, inl, inr,
}
use weather.Realtime.Planner.{
  Inputs, Walk, walk, both_committed, shared_complete, predecessors_satisfied, blocked_by_artifacts,
  blocked_by_predecessor,
}
use weather.Realtime.Planner.Plan.{blocked_lead}

-- The four ways in which the walk treats a lead.
pub walk_cases {ℓ} :
    (P : Walk → Type ℓ) (i : Inputs) (lead : ℕ) (seq pending : List ℕ)
    → (both_committed i lead ≡ true → P (walk i seq pending))
    → (both_committed i lead ≡ false
        → shared_complete i lead ≡ false
        → P (blocked_by_artifacts i lead pending))
    → (both_committed i lead ≡ false
        → shared_complete i lead ≡ true
        → predecessors_satisfied i lead pending ≡ false
        → P (blocked_by_predecessor lead pending))
    → (both_committed i lead ≡ false
        → shared_complete i lead ≡ true
        → predecessors_satisfied i lead pending ≡ true
        → P (walk i seq (pending ++ lead ∷ [])))
    → P (walk i (lead ∷ seq) pending)
unfolding walk
walk_cases P i lead seq pending done incomplete waits takes =
    elim (Bool-cases (both_committed i lead)) [
      | inl c ↦ rw c (done c)
      | inr n ↦ elim (Bool-cases (shared_complete i lead)) [
        | inr s ↦ rw (n, s) (incomplete n s)
        | inl s ↦ elim (Bool-cases (predecessors_satisfied i lead pending)) [
          | inl p ↦ rw (n, s, p) (takes n s p)
          | inr p ↦ rw (n, s, p) (waits n s p)
        ]
      ]
    ]

-- What has been collected stays collected.
walk-keeps :
    (i : Inputs) (seq pending : List ℕ) (l : ℕ)
    → elem l pending ≡ true
    → elem l (walk i seq pending).pending ≡ true
unfolding walk
walk-keeps i [] pending l h = h
walk-keeps i (lead ∷ seq) pending l h =
    walk_cases (λ w. elem l w.pending ≡ true) i lead seq pending (λ c. walk-keeps i seq pending l h)
      (λ n s. h) (λ n s p. h)
      (λ n s p.
        walk-keeps i seq (pending ++ lead ∷ []) l
          (ground (arith, elem-append l pending (lead ∷ []))))

-- What holds of the lead at which the walk stops, if it stops at one.
abbrev pub IsStuck : Inputs → List ℕ → Option ℕ → Type 0
IsStuck i pending none = Unit
IsStuck i pending (some l) =
    (both_committed i l ≡ false)
    × ((shared_complete i l ≡ false) ⊎ (predecessors_satisfied i l pending ≡ false))

-- How a walk that ended in `w` splits the leads that it was given.
pub record Split (i : Inputs) (seq : List ℕ) (w : Walk) : Type 0 where
  pub before : List ℕ
  pub after : List ℕ
  pub split_eq : seq ≡ before ++ after
  pub treated : All (λ l. (both_committed i l ≡ true) ⊎ (elem l w.pending ≡ true)) before
  pub stops : blocked_lead w.blocked ≡ first after
  pub stuck : IsStuck i w.pending (blocked_lead w.blocked)

Split-cons :
    (i : Inputs) (lead : ℕ) (seq : List ℕ) (w : Walk)
    → (both_committed i lead ≡ true) ⊎ (elem lead w.pending ≡ true)
    → Split i seq w
    → Split i (lead ∷ seq) w
Split-cons i lead seq w h s = record {
  before = lead ∷ s.before;
  after = s.after;
  split_eq = ap (◌∷◌ lead) s.split_eq;
  treated = (h, s.treated);
  stops = s.stops;
  stuck = s.stuck;
}

Split-stop :
    (i : Inputs) (lead : ℕ) (seq : List ℕ) (w : Walk)
    → blocked_lead w.blocked ≡ some lead
    → IsStuck i w.pending (some lead)
    → Split i (lead ∷ seq) w
Split-stop i lead seq w h stuck = record {
  before = [];
  after = lead ∷ seq;
  split_eq = refl;
  treated = tt;
  stops = h;
  stuck = subst (IsStuck i w.pending) (sym h) stuck;
}

pub elem-snoc : (l : ℕ) (xs : List ℕ) → elem l (xs ++ l ∷ []) ≡ true
elem-snoc l xs = ground (arith, elem-append l xs (l ∷ []))

pub walk-Split : (i : Inputs) (seq pending : List ℕ) → Split i seq (walk i seq pending)
unfolding walk
walk-Split i [] pending = record {
  before = [];
  after = [];
  split_eq = refl;
  treated = tt;
  stops = refl;
  stuck = tt;
}
walk-Split i (lead ∷ seq) pending =
    walk_cases (Split i (lead ∷ seq)) i lead seq pending
      (λ c. Split-cons i lead seq _ (inl c) (walk-Split i seq pending))
      (λ n s. Split-stop i lead seq _ refl (n, inl s))
      (λ n s p. Split-stop i lead seq _ refl (n, inr p))
      (λ n s p.
        Split-cons i lead seq _
          (inr (walk-keeps i seq (pending ++ lead ∷ []) lead (elem-snoc lead pending)))
          (walk-Split i seq (pending ++ lead ∷ [])))

-- What a lead must have met to be collected.
pub record IsEligible (i : Inputs) (l : ℕ) : Type 0 where
  pub uncommitted : both_committed i l ≡ false
  pub published : shared_complete i l ≡ true

pub walk-IsEligible :
    (i : Inputs) (seq pending : List ℕ)
    → All (IsEligible i) pending
    → All (IsEligible i) (walk i seq pending).pending
unfolding walk
walk-IsEligible i [] pending h = h
walk-IsEligible i (lead ∷ seq) pending h =
    walk_cases (λ w. All (IsEligible i) w.pending) i lead seq pending
      (λ c. walk-IsEligible i seq pending h) (λ n s. h) (λ n s p. h)
      (λ n s p. walk-IsEligible i seq (pending ++ lead ∷ []) (
        All-append (IsEligible i) pending (lead ∷ []) h
          (record { uncommitted = n; published = s }, tt)))
