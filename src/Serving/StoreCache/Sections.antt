-- ===== src/Serving/StoreCache/Sections.antt =====
-- store_cache.py: what each critical section does to a cache that is sound.
use weather.Common.{
  ℕ, suc, ◌≡◌, ◌≤◌, ◌<◌, refl, sym, ap, ◌∙◌, true, false, none, some, ◌==◌, length, All, Bool-cases,
  Option-cases, inl, inr, arith, subst,
}
use weather.Common.Dict.{
  lookup, insert, erase, pair_key, pair_eq, pair_eq_iff, lookup-insert, lookup-erase,
}
use weather.Serving.StoreCache.{
  StoreKey, Dataset, Outcome, pending, failed, opened, Flight, Cache, Thread, leads, waits, returns,
  fails, to_end, set_flight, look_up_flight, look_up_entry, get_or_open, open_returns, open_raises,
  wake,
}
use weather.Serving.StoreCache.Entries.{
  IsEntry, to_end-IsEntry, evict-IsEntry, length-evict, length-to_end, lookup-IsEntry,
}

-- A flight that exists and is for a key.
abbrev pub IsFor : Cache → StoreKey → ℕ → Type 0
IsFor s key f = (f < s.next_flight) × ((s.flights f).flight_key ≡ key)

-- A thread deals with flights for its key, and returns what was opened for its key.
unfoldable pub IsThread : Cache → Thread → Type 0
IsThread s (leads key f) = IsFor s key f
IsThread s (waits key f) = IsFor s key f
IsThread s (returns key d hit) = d.opened_for ≡ key
IsThread s (fails key) = Unit

pub record IsCache (s : Cache) : Type 0 where
  pub of_key : All IsEntry s.entries
  pub bounded : length s.entries ≤ s.max_entries
  pub flying : (key : StoreKey) (f : ℕ) → lookup key s.in_flight ≡ some f → IsFor s key f
  pub landed :
      (f : ℕ) (d : Dataset)
      → f < s.next_flight
      → (s.flights f).outcome ≡ opened d
      → d.opened_for ≡ (s.flights f).flight_key

-- A later cache knows the flights of an earlier one.
abbrev pub Extends : Cache → Cache → Type 0
Extends s s' =
    (s.next_flight ≤ s'.next_flight)
    × ((f : ℕ) → f < s.next_flight → (s'.flights f).flight_key ≡ (s.flights f).flight_key)

pub IsThread-Extends : (s s' : Cache) → Extends s s' → (t : Thread) → IsThread s t → IsThread s' t
unfolding IsThread
IsThread-Extends s s' x (leads key f) h = (omega (arith, h.0, x.0), x.1 f h.0 ∙ h.1)
IsThread-Extends s s' x (waits key f) h = (omega (arith, h.0, x.0), x.1 f h.0 ∙ h.1)
IsThread-Extends s s' x (returns key d hit) h = h
IsThread-Extends s s' x (fails key) h = tt

-- What a critical section of a thread does to a sound cache.
unfoldable pub Moves : Cache → Cache × Thread → Type 0
Moves s (s', t) = IsCache s' × (Extends s s' × (IsThread s' t × (s'.max_entries ≡ s.max_entries)))

-- The end of a flight, for its key.
abbrev ended : (ℕ → Flight) → ℕ → Outcome → Flight
ended flights f o = record { flight_key = (flights f).flight_key; outcome = o }

ended-key :
    (flights : ℕ → Flight) (f g : ℕ) (o : Outcome)
    → (set_flight f (ended flights f o) flights g).flight_key ≡ (flights g).flight_key
ended-key flights f g o = elim (Bool-cases (f == g)) [
  | inl same ↦ rw same (ap (λ (h : ℕ). (flights h).flight_key) (ground (arith, same)))
  | inr other ↦ rw other refl
]

other-flight :
    (flights : ℕ → Flight) (f g : ℕ) (flight : Flight)
    → (f == g) ≡ false
    → set_flight f flight flights g ≡ flights g
other-flight flights f g flight n = rw n refl

pub same-flight :
    (flights : ℕ → Flight) (f g : ℕ) (flight : Flight)
    → (f == g) ≡ true
    → set_flight f flight flights g ≡ flight
same-flight flights f g flight y = rw y refl

-- A hit moves an entry to the end.
hit-Moves :
    (key : StoreKey) (s : Cache) (d : Dataset)
    → IsCache s
    → lookup key s.entries ≡ some d
    → Moves s (look_up_entry key s (some d))
unfolding Moves IsThread
hit-Moves key s d h e = (
  record {
    of_key = to_end-IsEntry key d s.entries (lookup-IsEntry key d s.entries h.of_key e) h.of_key;
    bounded = omega (arith, length-to_end key d s.entries e, h.bounded);
    flying = h.flying;
    landed = h.landed;
  },
  ((omega arith, λ f l. refl), (lookup-IsEntry key d s.entries h.of_key e, refl)),
)

-- A miss joins the flight of the key, or starts one.
join-Moves :
    (key : StoreKey) (s : Cache) (f : ℕ)
    → IsCache s
    → lookup key s.in_flight ≡ some f
    → Moves s (look_up_flight key s (some f))
unfolding Moves IsThread
join-Moves key s f h e = (h, ((omega arith, λ g l. refl), (h.flying key f e, refl)))

-- A table of flights in which one entry is replaced.
landed-set :
    (s : Cache) (f : ℕ) (flight : Flight) (bound : ℕ)
    → IsCache s
    → ((d : Dataset) → flight.outcome ≡ opened d → d.opened_for ≡ flight.flight_key)
    → ((g : ℕ) → g < bound → (f == g) ≡ false → g < s.next_flight)
    → (g : ℕ) (d : Dataset) → g < bound
    → (set_flight f flight s.flights g).outcome ≡ opened d
    → d.opened_for ≡ (set_flight f flight s.flights g).flight_key
landed-set s f flight bound h fine older g d l e = elim (Bool-cases (f == g)) [
  | inl same ↦
      let q = same-flight s.flights f g flight same in
      fine d (sym (ap (λ (x : Flight). x.outcome) q) ∙ e)
      ∙ sym (ap (λ (x : Flight). x.flight_key) q)
  | inr other ↦
      let q = other-flight s.flights f g flight other in
      h.landed g d (older g l other) (sym (ap (λ (x : Flight). x.outcome) q) ∙ e)
      ∙ sym (ap (λ (x : Flight). x.flight_key) q)
]

abbrev fresh_flight : StoreKey → Flight
fresh_flight key = record { flight_key = key; outcome = pending }

fresh-older :
    (s : Cache) (key : StoreKey) (g : ℕ)
    → g < s.next_flight
    → (set_flight s.next_flight (fresh_flight key) s.flights g).flight_key
      ≡ (s.flights g).flight_key
fresh-older s key g l =
    ap (λ (x : Flight). x.flight_key)
      (other-flight s.flights s.next_flight g (fresh_flight key) (ground arith))

fresh_self :
    (s : Cache) (key : StoreKey)
    → (set_flight s.next_flight (fresh_flight key) s.flights s.next_flight).flight_key ≡ key
fresh_self s key =
    ap (λ (x : Flight). x.flight_key)
      (same-flight s.flights s.next_flight s.next_flight (fresh_flight key) (ground arith))

fresh-flying :
    (s : Cache) (key k : StoreKey) (f : ℕ)
    → IsCache s
    → lookup k (insert key s.next_flight s.in_flight) ≡ some f
    → (f < suc s.next_flight)
      × ((set_flight s.next_flight (fresh_flight key) s.flights f).flight_key ≡ k)
fresh-flying s key k f h e = elim (Bool-cases (pair_eq key k)) [
  | inl same ↦
      let is-next : s.next_flight ≡ f =
        ground (arith, e, same, lookup-insert key k s.next_flight s.in_flight) in
      (
        omega (arith, is-next),
        subst (λ (g : ℕ). (set_flight s.next_flight (fresh_flight key) s.flights g).flight_key ≡ k)
            is-next (fresh_self s key ∙ (pair_eq_iff key k).0 same),
      )
  | inr other ↦
      let found : lookup k s.in_flight ≡ some f =
        ground (arith, e, other, lookup-insert key k s.next_flight s.in_flight) in
      let (l, for_key) = h.flying k f found in (omega (arith, l), fresh-older s key f l ∙ for_key)
]

lead-Moves : (key : StoreKey) (s : Cache) → IsCache s → Moves s (look_up_flight key s none)
unfolding Moves IsThread
lead-Moves key s h = (
  record {
    of_key = h.of_key;
    bounded = h.bounded;
    flying = λ k f e. fresh-flying s key k f h e;
    landed =
        landed-set s s.next_flight (fresh_flight key) (suc s.next_flight) h (λ d e. cc)
          (λ g l n. ground arith);
  },
  ((omega arith, λ g l. fresh-older s key g l), ((omega arith, fresh_self s key), refl)),
)

pub get_or_open-Moves : (key : StoreKey) (s : Cache) → IsCache s → Moves s (get_or_open key s)
unfolding get_or_open
get_or_open-Moves key s h = elim (Option-cases (lookup key s.entries)) [
  | inl absent ↦ rw absent (elim (Option-cases (lookup key s.in_flight)) [
    | inl none_flies ↦ rw none_flies (lead-Moves key s h)
    | inr (f, flies) ↦ rw flies (join-Moves key s f h flies)
  ])
  | inr (d, present) ↦ rw present (hit-Moves key s d h present)
]

opened-inj : (c d : Dataset) → opened c ≡ opened d → c ≡ d
opened-inj c d e = cc

opened-key : (c d : Dataset) → opened c ≡ opened d → d.opened_for ≡ c.opened_for
opened-key c d e = ap (λ (x : Dataset). x.opened_for) (sym (opened-inj c d e))

-- The key of a flight that has ended is no longer in flight, and the other flights are as before.
ended-flying :
    (s : Cache) (key k : StoreKey) (f g : ℕ) (o : Outcome)
    → IsCache s
    → lookup k (erase key s.in_flight) ≡ some g
    → (g < s.next_flight) × ((set_flight f (ended s.flights f o) s.flights g).flight_key ≡ k)
ended-flying s key k f g o h e =
    let found : lookup k s.in_flight ≡ some g = ground (arith, e, lookup-erase key k s.in_flight) in
    let (l, for_key) = h.flying k g found in (l, ended-key s.flights f g o ∙ for_key)

pub open_returns-Moves :
    (key : StoreKey) (f n : ℕ) (s : Cache)
    → IsCache s
    → IsFor s key f
    → Moves s (open_returns key f (record { opened_for = key; call = n }) s)
unfolding Moves IsThread open_returns
open_returns-Moves key f n s h k =
    let d : Dataset = record { opened_for = key; call = n } in
    (
      record {
        of_key =
            evict-IsEntry s.max_entries (to_end key d s.entries)
              (to_end-IsEntry key d s.entries refl h.of_key);
        bounded = length-evict s.max_entries (to_end key d s.entries);
        flying = λ k g e. ended-flying s key k f g (opened d) h e;
        landed =
            landed-set s f (ended s.flights f (opened d)) s.next_flight h
              (λ c e. opened-key d c e ∙ sym k.1) (λ g l other. l);
      },
      ((omega arith, λ g l. ended-key s.flights f g (opened d)), (refl, refl)),
    )

pub open_raises-Moves :
    (key : StoreKey) (f : ℕ) (s : Cache) → IsCache s → Moves s (open_raises key f s)
unfolding Moves IsThread open_raises
open_raises-Moves key f s h = (
  record {
    of_key = h.of_key;
    bounded = h.bounded;
    flying = λ k g e. ended-flying s key k f g failed h e;
    landed = landed-set s f (ended s.flights f failed) s.next_flight h (λ c e. cc) (λ g l other. l);
  },
  ((omega arith, λ g l. ended-key s.flights f g failed), (tt, refl)),
)

pub wake-Moves :
    (key : StoreKey) (f : ℕ) (o : Outcome) (s : Cache)
    → IsCache s
    → IsFor s key f
    → (s.flights f).outcome ≡ o
    → Moves s (wake key f o s)
unfolding Moves IsThread
wake-Moves key f pending s h k e = (h, ((omega arith, λ g l. refl), (k, refl)))
wake-Moves key f failed s h k e = (h, ((omega arith, λ g l. refl), (tt, refl)))
wake-Moves key f (opened d) s h k e = (
  record { of_key = h.of_key; bounded = h.bounded; flying = h.flying; landed = h.landed },
  ((omega arith, λ g l. refl), (h.landed f d k.0 e ∙ k.1, refl)),
)
