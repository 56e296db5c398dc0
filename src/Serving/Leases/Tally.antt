-- ===== src/Serving/Leases/Tally.antt =====
-- How many threads do what on a lease.
use weather.Common.{ℕ, suc, ◌≡◌, refl, ap, ◌∙◌, Bool, true, false, List, [], ◌∷◌, ◌++◌, ◌==◌, All}
use weather.Common.Dict.{text_key}
use weather.Serving.Leases.{
  Phase, outside, creating, failing, releasing_failed, leaving_failed, joining, reading, closing,
  releasing,
}
use weather.Serving.Leases.Counts.{Threads}

abbrev pub is_creating : ℕ → Phase → Bool
is_creating j p = elim p [ creating i ↦ j == i | _ ↦ false ]

abbrev pub is_cleaning : ℕ → Phase → Bool
is_cleaning j p = elim p [ failing i ↦ j == i | releasing_failed i ↦ j == i | _ ↦ false ]

abbrev pub is_leaving : ℕ → Phase → Bool
is_leaving j p = elim p [ leaving_failed i ↦ j == i | _ ↦ false ]

abbrev pub is_joining : ℕ → Phase → Bool
is_joining j p = elim p [ joining i ↦ j == i | _ ↦ false ]

abbrev pub is_reading : ℕ → Phase → Bool
is_reading j p = elim p [ reading i ↦ j == i | _ ↦ false ]

abbrev pub is_closing : ℕ → Phase → Bool
is_closing j p = elim p [ closing i ↦ j == i | releasing i ↦ j == i | _ ↦ false ]

abbrev pub bump : Bool → ℕ → ℕ
bump true n = suc n
bump false n = n

abbrev pub tally : (Phase → Bool) → List Phase → ℕ
tally f [] = 0
tally f (p ∷ ps) = bump (f p) (tally f ps)

bump-bump : (a b : Bool) (n : ℕ) → bump a (bump b n) ≡ bump b (bump a n)
bump-bump true true n = refl
bump-bump true false n = refl
bump-bump false b n = refl

pub tally-middle :
    (f : Phase → Bool) (xs ys : List Phase) (p : Phase)
    → tally f (xs ++ p ∷ ys) ≡ bump (f p) (tally f (xs ++ ys))
tally-middle f [] ys p = refl
tally-middle f (x ∷ xs) ys p =
    rw (tally-middle f xs ys p) (bump-bump (f x) (f p) (tally f (xs ++ ys)))

-- The threads that work on a lease.
abbrev pub at_lease : ℕ → List Phase → Threads
at_lease j ps = record {
  creators = tally (is_creating j) ps;
  cleaners = tally (is_cleaning j) ps;
  leavers = tally (is_leaving j) ps;
  joiners = tally (is_joining j) ps;
  readers = tally (is_reading j) ps;
  closers = tally (is_closing j) ps;
}

abbrev pub with_phase : ℕ → Phase → Threads → Threads
with_phase j p k = record {
  creators = bump (is_creating j p) k.creators;
  cleaners = bump (is_cleaning j p) k.cleaners;
  leavers = bump (is_leaving j p) k.leavers;
  joiners = bump (is_joining j p) k.joiners;
  readers = bump (is_reading j p) k.readers;
  closers = bump (is_closing j p) k.closers;
}

pub at_lease-middle :
    (j : ℕ) (xs ys : List Phase) (p : Phase)
    → at_lease j (xs ++ p ∷ ys) ≡ with_phase j p (at_lease j (xs ++ ys))
at_lease-middle j xs ys p =
    rw
      (
        tally-middle (is_creating j) xs ys p,
        tally-middle (is_cleaning j) xs ys p,
        tally-middle (is_leaving j) xs ys p,
        tally-middle (is_joining j) xs ys p,
        tally-middle (is_reading j) xs ys p,
        tally-middle (is_closing j) xs ys p,
      )
      refl

abbrev pub no_threads : Threads
no_threads = record {
  creators = 0;
  cleaners = 0;
  leavers = 0;
  joiners = 0;
  readers = 0;
  closers = 0;
}

pub at_lease_idle :
    (j : ℕ) (ps : List Phase) → All (λ p. p ≡ outside) ps → at_lease j ps ≡ no_threads
at_lease_idle j [] h = refl
at_lease_idle j (p ∷ ps) h = ap (λ q. with_phase j q (at_lease j ps)) h.0 ∙ at_lease_idle j ps h.1
