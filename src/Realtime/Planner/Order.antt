-- ===== src/Realtime/Planner/Order.antt =====
-- The pending walk of planner.py and the predecessors of reset leads.
use weather.Common.{
  take, ℕ, zero, suc, ◌-◌, ◌%◌, ◌≡◌, ◌≢◌, sym, subst, true, List, [], ◌∷◌, ◌++◌, elem, arith, ◌⊎◌,
}
use mathlib.Core.List.{append_assoc, append-nil}
use weather.Realtime.Planner.{
  Inputs, walk, gfs_committed, gefs_committed, predecessors_satisfied, predecessor_satisfied,
}
use weather.Realtime.Planner.Pending.{walk_cases}

-- A lead at which accumulations reset, every six hours, has the lead three hours before it either
-- committed or among those collected ahead of it: for each of the two models.
abbrev pub HasPredecessor : Inputs → List ℕ → ℕ → Type 0
HasPredecessor i ahead l =
    l % 6 ≡ 0
    → l ≢ 0
    → ((gfs_committed i (l - 3) ≡ true) ⊎ (elem (l - 3) ahead ≡ true))
      × ((gefs_committed i (l - 3) ≡ true) ⊎ (elem (l - 3) ahead ≡ true))

-- That of every lead of a list, in order.
abbrev pub Follows : Inputs → List ℕ → List ℕ → Type 0
Follows i ahead [] = Unit
Follows i ahead (l ∷ ls) = HasPredecessor i ahead l × Follows i (ahead ++ l ∷ []) ls

HasPredecessor-of_test :
    (i : Inputs) (l : ℕ) (ahead : List ℕ)
    → predecessors_satisfied i l ahead ≡ true
    → HasPredecessor i ahead l
unfolding predecessor_satisfied
HasPredecessor-of_test i l ahead h reset ne = (ground arith, ground arith)

Follows-snoc :
    (i : Inputs) (ahead xs : List ℕ) (l : ℕ)
    → Follows i ahead xs
    → HasPredecessor i (ahead ++ xs) l
    → Follows i ahead (xs ++ l ∷ [])
Follows-snoc i ahead [] l h p = (rw append-nil at p, tt)
Follows-snoc i ahead (x ∷ xs) l h p = (
  h.0,
  Follows-snoc i (ahead ++ x ∷ []) xs l h.1
      (subst (λ a. HasPredecessor i a l) (sym (append_assoc ahead (x ∷ []) xs)) p),
)

pub Follows-take :
    (i : Inputs) (ahead : List ℕ) (n : ℕ) (xs : List ℕ)
    → Follows i ahead xs
    → Follows i ahead (take n xs)
Follows-take i ahead zero xs h = tt
Follows-take i ahead (suc n) [] h = tt
Follows-take i ahead (suc n) (x ∷ xs) h = (h.0, Follows-take i (ahead ++ x ∷ []) n xs h.1)

pub walk-Follows :
    (i : Inputs) (seq pending : List ℕ)
    → Follows i [] pending
    → Follows i [] (walk i seq pending).pending
unfolding walk
walk-Follows i [] pending h = h
walk-Follows i (lead ∷ seq) pending h =
    walk_cases (λ w. Follows i [] w.pending) i lead seq pending (λ c. walk-Follows i seq pending h)
      (λ n s. h) (λ n s p. h)
      (λ n s p.
        walk-Follows i seq (pending ++ lead ∷ [])
          (Follows-snoc i [] pending lead h (HasPredecessor-of_test i lead pending p)))
