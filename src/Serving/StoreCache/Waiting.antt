-- ===== src/Serving/StoreCache/Waiting.antt =====
-- store_cache.py: a thread that waits for a flight is not left alone.
use weather.Common.{
  ℕ, suc, ◌≡◌, ◌<◌, refl, sym, ap, ◌∙◌, Bool, true, false, none, some, List, [], ◌∷◌, ◌++◌, ◌==◌,
  All, any, ◌||◌, Bool-cases, Option-cases, inl, inr, arith, subst,
}
use weather.Common.Dict.{lookup, pair_key}
use weather.Serving.StoreCache.{
  StoreKey, Dataset, Outcome, pending, failed, opened, Flight, Cache, Thread, leads, waits, returns,
  fails, set_flight, look_up_flight, look_up_entry, get_or_open, open_returns, open_raises, wake,
  clear, World, moved, Step, enter, lead_returns, lead_raises, wakes, clears, Reach, start, next,
}
use weather.Serving.StoreCache.Sections.{IsThread, same-flight}
use weather.Serving.StoreCache.Values.{All-split_right, reach-IsSound}

abbrev pub is_leader : ℕ → Thread → Bool
is_leader g (leads key f) = f == g
is_leader g (waits key f) = false
is_leader g (returns key d hit) = false
is_leader g (fails key) = false

abbrev pub is_pending : Outcome → Bool
is_pending pending = true
is_pending failed = false
is_pending (opened d) = false

any-append :
    {A : Type 0} (p : A → Bool) (xs ys : List A) → any p (xs ++ ys) ≡ (any p xs || any p ys)
any-append p [] ys = refl
any-append p (x ∷ xs) ys = ground (arith, any-append p xs ys)

-- Every flight without an outcome has a leader.
abbrev IsLed : World → Type 0
IsLed w =
    (g : ℕ)
    → g < w.cache.next_flight
    → is_pending (w.cache.flights g).outcome ≡ true
    → any (is_leader g) w.threads ≡ true

-- A move of a thread after which it leads no less, while no flight becomes pending.
kept-IsLed :
    (before after : List Thread) (t t' : Thread) (s s' : Cache)
    → IsLed (record { cache = s; threads = before ++ t ∷ after })
    → s'.next_flight ≡ s.next_flight
    → ((g : ℕ)
        → is_pending (s'.flights g).outcome ≡ true
        → (is_pending (s.flights g).outcome ≡ true) × (is_leader g t ≡ is_leader g t'))
    → IsLed (record { cache = s'; threads = before ++ t' ∷ after })
kept-IsLed before after t t' s s' h e k g l p =
    let (was, same) = k g p in
    let led = h g (omega (arith, l, e)) was in
    ground (
      arith,
      same,
      led,
      any-append (is_leader g) before (t ∷ after),
      any-append (is_leader g) before (t' ∷ after),
    )

-- The end of a flight: it is no longer pending, and its leader led no other.
ended-kept :
    (flights : ℕ → Flight) (f g : ℕ) (flight : Flight) (key : StoreKey)
    → is_pending flight.outcome ≡ false
    → is_pending (set_flight f flight flights g).outcome ≡ true
    → (is_pending (flights g).outcome ≡ true) × (is_leader g (leads key f) ≡ false)
ended-kept flights f g flight key over p = elim (Bool-cases (f == g)) [
  | inl same ↦ absurd (ground (arith, over, p, same))
  | inr other ↦ ground (arith, p, other)
]

joined-IsLed :
    (s s' : Cache) (t : Thread) (ts : List Thread)
    → IsLed (record { cache = s; threads = ts })
    → s'.next_flight ≡ s.next_flight
    → ((g : ℕ) → s'.flights g ≡ s.flights g)
    → IsLed (record { cache = s'; threads = t ∷ ts })
joined-IsLed s s' t ts h e k g l p =
    let led =
      h g (omega (arith, l, e)) (sym (ap (λ (x : Flight). is_pending x.outcome) (k g)) ∙ p) in
    ground (arith, led)

-- A flight that starts has the thread that started it as its leader.
fresh-IsLed :
    (key : StoreKey) (s : Cache) (ts : List Thread)
    → IsLed (record { cache = s; threads = ts })
    → IsLed (moved [] ts (look_up_flight key s none))
fresh-IsLed key s ts h g l p = elim (Bool-cases (s.next_flight == g)) [
  | inl same ↦ rw same refl
  | inr other ↦
      let led = h g (ground (arith, l, other)) (ground (arith, p, other)) in ground (arith, led)
]

enter-IsLed :
    (key : StoreKey) (s : Cache) (ts : List Thread)
    → IsLed (record { cache = s; threads = ts })
    → IsLed (moved [] ts (get_or_open key s))
unfolding get_or_open
enter-IsLed key s ts h = elim (Option-cases (lookup key s.entries)) [
  | inl absent ↦ rw absent (elim (Option-cases (lookup key s.in_flight)) [
    | inl none_flies ↦ rw none_flies (fresh-IsLed key s ts h)
    | inr (f, flies) ↦ rw flies (joined-IsLed s s (waits key f) ts h refl (λ g. refl))
  ])
  | inr (d, present) ↦
      rw present
        (joined-IsLed s (look_up_entry key s (some d)).0 (returns key d true) ts h refl (λ g. refl))
]

wake-IsLed :
    (before after : List Thread) (key : StoreKey) (f : ℕ) (o : Outcome) (s : Cache)
    → IsLed (record { cache = s; threads = before ++ waits key f ∷ after })
    → IsLed (moved before after (wake key f o s))
wake-IsLed before after key f pending s h = h
wake-IsLed before after key f failed s h =
    kept-IsLed before after (waits key f) (fails key) s s h refl (λ g p. (p, refl))
wake-IsLed before after key f (opened d) s h =
    kept-IsLed before after (waits key f) (returns key d true) s (record s { hits = suc s.hits }) h
      refl (λ g p. (p, refl))

step-IsLed : (w v : World) → IsLed w → Step w v → IsLed v
unfolding open_returns open_raises clear
step-IsLed _ _ h (enter {s} {ts} key) = enter-IsLed key s ts h
step-IsLed _ _ h (lead_returns {s} before after key f n) =
    let d : Dataset = record { opened_for = key; call = n } in
    kept-IsLed before after (leads key f) (returns key d false) s (open_returns key f d s).0 h refl
      (λ g p. ended-kept s.flights f g _ key refl p)
step-IsLed _ _ h (lead_raises {s} before after key f) =
    kept-IsLed before after (leads key f) (fails key) s (open_raises key f s).0 h refl
      (λ g p. ended-kept s.flights f g _ key refl p)
step-IsLed _ _ h (wakes {s} before after key f) = wake-IsLed before after key f _ s h
step-IsLed _ _ h clears = h

reach-IsLed : (bound : ℕ) (w : World) → Reach bound w → IsLed w
reach-IsLed bound _ start = λ g l p. absurd (omega (arith, l))
reach-IsLed bound _ (next {w} {v} r s) = step-IsLed w v (reach-IsLed bound w r) s

further :
    (g : ℕ) (t : Thread) (ts : List Thread)
    → (key : StoreKey) × (before : List Thread) × (after : List Thread) × (ts
        ≡ before ++ leads key g ∷ after)
    → (key : StoreKey) × (before : List Thread) × (after : List Thread) × (t ∷ ts
        ≡ before ++ leads key g ∷ after)
further g t ts (key, before, after, e) = (key, t ∷ before, after, ap (λ (x : List Thread). t ∷ x) e)

waits-older : (s : Cache) (key : StoreKey) (f : ℕ) → IsThread s (waits key f) → f < s.next_flight
unfolding IsThread
waits-older s key f h = h.0

-- A leader is found among the threads.
leader-among :
    (g : ℕ) (ts : List Thread)
    → any (is_leader g) ts ≡ true
    → (key : StoreKey) × (before : List Thread) × (after : List Thread) × (ts
        ≡ before ++ leads key g ∷ after)
leader-among g [] h = cc
leader-among g (leads key f ∷ ts) h = elim (Bool-cases (f == g)) [
  | inl same ↦ (key, [], ts, ap (λ (x : ℕ). leads key x ∷ ts) (ground (arith, same)))
  | inr other ↦ further g (leads key f) ts (leader-among g ts (ground (arith, h, other)))
]
leader-among g (waits key f ∷ ts) h = further g (waits key f) ts (leader-among g ts h)
leader-among g (returns key d hit ∷ ts) h = further g (returns key d hit) ts (leader-among g ts h)
leader-among g (fails key ∷ ts) h = further g (fails key) ts (leader-among g ts h)

-- The leader of a flight that a thread waits for opens for the key of that thread.
leader-key :
    (s : Cache) (key k : StoreKey) (f : ℕ)
    → IsThread s (waits key f)
    → IsThread s (leads k f)
    → k ≡ key
unfolding IsThread
leader-key s key k f h l = sym l.1 ∙ h.1

lead-ends :
    (before after : List Thread) (key : StoreKey) (f n : ℕ) (w : World)
    → w.threads ≡ before ++ leads key f ∷ after
    → (v : World) × Step w v
      × ((v.cache.flights f).outcome ≡ opened (record { opened_for = key; call = n }))
unfolding open_returns
lead-ends before after key f n w e =
    subst
      (λ (ts : List Thread).
        (v : World) × Step (record { cache = w.cache; threads = ts }) v
        × ((v.cache.flights f).outcome ≡ opened (record { opened_for = key; call = n })))
      (sym e)
      (
        _,
        lead_returns before after key f n,
        ap (λ (x : Flight). x.outcome) (same-flight w.cache.flights f f _ (ground arith)),
      )

-- A thread that waits for a flight without an outcome is not left alone, whatever the threads have
-- done and cleared before: a leader still opens for the key of the waiter, and the step in which
-- its opener returns gives the flight the dataset that it opened for that key.
pub waiter_has_leader :
    (bound : ℕ) (w : World) (before after : List Thread) (key : StoreKey) (f n : ℕ)
    → Reach bound w
    → w.threads ≡ before ++ waits key f ∷ after
    → (w.cache.flights f).outcome ≡ pending
    → (v : World) × Step w v
      × ((v.cache.flights f).outcome ≡ opened (record { opened_for = key; call = n }))
waiter_has_leader bound w before after key f n r e p =
    let threads = (reach-IsSound bound w r).are_threads in
    let waiter =
      (All-split_right (IsThread w.cache) before (waits key f) after
        (subst (All (IsThread w.cache)) e threads)).0 in
    let (k, others, rest, q) =
      leader-among f w.threads
        (reach-IsLed bound w r f (waits-older w.cache key f waiter) (ap is_pending p)) in
    let leader =
      (All-split_right (IsThread w.cache) others (leads k f) rest
        (subst (All (IsThread w.cache)) q threads)).0 in
    lead-ends others rest key f n w (
      q
      ∙ ap (λ (x : StoreKey). others ++ leads x f ∷ rest)
          (leader-key w.cache key k f waiter leader))
