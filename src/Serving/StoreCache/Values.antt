-- ===== src/Serving/StoreCache/Values.antt =====
-- store_cache.py: a read gets a dataset that was opened for its own key, and the cache is bounded.
use weather.Common.{
  ℕ, ◌≡◌, ◌≤◌, refl, ◌∙◌, Bool, List, [], ◌∷◌, ◌++◌, length, All, All-append, All-map, arith, subst,
}
use weather.Common.Dict.{pair_key}
use weather.Serving.StoreCache.{
  StoreKey, Dataset, Cache, Thread, leads, waits, returns, clear, World, moved, Step, enter,
  lead_returns, lead_raises, wakes, clears, Reach, start, next,
}
use weather.Serving.StoreCache.Sections.{
  IsFor, IsThread, IsThread-Extends, IsCache, Moves, get_or_open-Moves, open_returns-Moves,
  open_raises-Moves, wake-Moves,
}

pub record IsSound (bound : ℕ) (w : World) : Type 0 where
  pub is_cache : IsCache w.cache
  pub are_threads : All (IsThread w.cache) w.threads
  pub same_bound : w.cache.max_entries ≡ bound

All-split_left :
    {A : Type 0} (P : A → Type 0) (xs : List A) (y : A) (ys : List A)
    → All P (xs ++ y ∷ ys)
    → All P xs
All-split_left P [] y ys h = tt
All-split_left P (x ∷ xs) y ys h = (h.0, All-split_left P xs y ys h.1)

pub All-split_right :
    {A : Type 0} (P : A → Type 0) (xs : List A) (y : A) (ys : List A)
    → All P (xs ++ y ∷ ys)
    → P y × All P ys
All-split_right P [] y ys h = h
All-split_right P (x ∷ xs) y ys h = All-split_right P xs y ys h.1

-- The threads around the one that moves keep what holds of them.
moved-IsSound :
    (bound : ℕ) (s : Cache) (before after : List Thread) (m : Cache × Thread)
    → s.max_entries ≡ bound
    → All (IsThread s) before
    → All (IsThread s) after
    → Moves s m
    → IsSound bound (moved before after m)
unfolding Moves
moved-IsSound bound s before after (s', t) b h k (c, (x, (u, same))) = record {
  is_cache = c;
  are_threads =
      All-append (IsThread s') before (t ∷ after) (All-map _ _ (IsThread-Extends s s' x) before h)
        (u, All-map _ _ (IsThread-Extends s s' x) after k);
  same_bound = same ∙ b;
}

lead-IsFor :
    (s : Cache) (before after : List Thread) (key : StoreKey) (f : ℕ)
    → All (IsThread s) (before ++ leads key f ∷ after)
    → IsFor s key f
unfolding IsThread
lead-IsFor s before after key f h =
    let (k, rest) = All-split_right (IsThread s) before (leads key f) after h in k

wait-IsFor :
    (s : Cache) (before after : List Thread) (key : StoreKey) (f : ℕ)
    → All (IsThread s) (before ++ waits key f ∷ after)
    → IsFor s key f
unfolding IsThread
wait-IsFor s before after key f h =
    let (k, rest) = All-split_right (IsThread s) before (waits key f) after h in k

step-IsSound : (bound : ℕ) (w v : World) → IsSound bound w → Step w v → IsSound bound v
unfolding clear
step-IsSound bound _ _ h (enter {s} {ts} key) =
    moved-IsSound bound s [] ts _ h.same_bound tt h.are_threads (get_or_open-Moves key s h.is_cache)
step-IsSound bound _ _ h (lead_returns {s} before after key f n) =
    moved-IsSound bound s before after _ h.same_bound
      (All-split_left _ before _ after h.are_threads)
      (All-split_right _ before _ after h.are_threads).1
      (open_returns-Moves key f n s h.is_cache (lead-IsFor s before after key f h.are_threads))
step-IsSound bound _ _ h (lead_raises {s} before after key f) =
    moved-IsSound bound s before after _ h.same_bound
      (All-split_left _ before _ after h.are_threads)
      (All-split_right _ before _ after h.are_threads).1 (open_raises-Moves key f s h.is_cache)
step-IsSound bound _ _ h (wakes {s} before after key f) =
    moved-IsSound bound s before after _ h.same_bound
      (All-split_left _ before _ after h.are_threads)
      (All-split_right _ before _ after h.are_threads).1
      (wake-Moves key f _ s h.is_cache (wait-IsFor s before after key f h.are_threads) refl)
step-IsSound bound _ _ h (clears {s} {ts}) = record {
  is_cache = record {
    of_key = tt;
    bounded = omega arith;
    flying = λ k f e. cc;
    landed = h.is_cache.landed;
  };
  are_threads =
      All-map _ _ (IsThread-Extends s (clear s) (omega arith, λ f l. refl)) ts h.are_threads;
  same_bound = h.same_bound;
}

pub reach-IsSound : (bound : ℕ) (w : World) → Reach bound w → IsSound bound w
reach-IsSound bound _ start = record {
  is_cache = record {
    of_key = tt;
    bounded = omega arith;
    flying = λ k f e. cc;
    landed = λ f d l e. cc;
  };
  are_threads = tt;
  same_bound = refl;
}
reach-IsSound bound _ (next {w} {v} r s) = step-IsSound bound w v (reach-IsSound bound w r) s

-- Whatever the order of the threads, a call of `get_or_open` that returns a dataset returns one
-- that was opened for its own key, store and generation, and the cache never holds more than its
-- greatest number of entries.
pub reads_own_generation :
    (bound : ℕ) (w : World) (before after : List Thread) (key : StoreKey) (d : Dataset) (hit : Bool)
    → Reach bound w
    → w.threads ≡ before ++ returns key d hit ∷ after
    → (d.opened_for ≡ key) × (length w.cache.entries ≤ bound)
unfolding IsThread
reads_own_generation bound w before after key d hit r e =
    let sound = reach-IsSound bound w r in
    let (own, rest) =
      All-split_right (IsThread w.cache) before (returns key d hit) after
        (subst (All (IsThread w.cache)) e sound.are_threads) in
    (own, omega (arith, sound.is_cache.bounded, sound.same_bound))
