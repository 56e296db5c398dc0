-- ===== src/Serving/StoreCache.antt =====
-- services/api/src/api/core/store_cache.py: the cache of opened stores, and the threads that read
-- through it. Each step is one critical section of one thread; the call of an opener, the wait for
-- its event and the moves of the other threads lie between them. A dataset is known by the key for
-- which its opener was called and the number of the call.
pub mod Entries
pub mod Sections
pub mod Values
pub mod Waiting
mod Examples
use weather.Common.{
  ℕ, suc, ◌+◌, ◌≡◌, Bool, true, false, Option, none, some, List, [], ◌∷◌, ◌++◌, ltb, ◌==◌,
  if◌then◌else◌, length,
}
use weather.Common.Text.{Text}
use weather.Common.Dict.{Dict, lookup, insert, erase, pair_key}

-- (store path, serving generation)
abbrev pub StoreKey : Type 0
StoreKey = Text × Text

pub record Dataset : Type 0 where
  pub opened_for : StoreKey
  pub call : ℕ

pub data Outcome : Type 0 where
  pending failed : Outcome
  opened : Dataset → Outcome

-- A `_Flight`, with the key for which its leader opens.
pub record Flight : Type 0 where
  pub flight_key : StoreKey
  pub outcome : Outcome

-- A flight is known by the number of its creation.
pub record Cache : Type 0 where
  pub max_entries : ℕ
  pub entries : Dict StoreKey Dataset
  pub in_flight : Dict StoreKey ℕ
  pub flights : ℕ → Flight
  pub next_flight : ℕ
  pub hits : ℕ
  pub misses : ℕ

-- Where a thread is in `get_or_open`.
pub data Thread : Type 0 where
  leads waits : StoreKey → ℕ → Thread
  returns : StoreKey → Dataset → Bool → Thread
  fails : StoreKey → Thread

-- `entries.move_to_end(key)` for a value.
abbrev pub to_end : StoreKey → Dataset → Dict StoreKey Dataset → Dict StoreKey Dataset
to_end key d entries = erase key entries ++ (key, d) ∷ []

-- `while len(entries) > max_entries: entries.popitem(last=False)`
unfoldable pub evict : ℕ → Dict StoreKey Dataset → Dict StoreKey Dataset
evict bound [] = []
evict bound (e ∷ entries) =
    let fewer = evict bound entries in
    if ltb bound (suc (length entries)) then fewer else e ∷ entries

abbrev pub set_flight : ℕ → Flight → (ℕ → Flight) → ℕ → Flight
set_flight f flight flights g = if f == g then flight else flights g

-- The first critical section: a hit, a flight to wait for, or a new flight to lead.
abbrev pub look_up_flight : StoreKey → Cache → Option ℕ → Cache × Thread
look_up_flight key s (some f) = (s, waits key f)
look_up_flight key s none = (
  record s {
    in_flight = insert key s.next_flight s.in_flight;
    flights = set_flight s.next_flight (record { flight_key = key; outcome = pending }) s.flights;
    next_flight = suc s.next_flight;
  },
  leads key s.next_flight,
)

abbrev pub look_up_entry : StoreKey → Cache → Option Dataset → Cache × Thread
look_up_entry key s (some d) =
    (record s { entries = to_end key d s.entries; hits = suc s.hits }, returns key d true)
look_up_entry key s none = look_up_flight key s (lookup key s.in_flight)

unfoldable pub get_or_open : StoreKey → Cache → Cache × Thread
get_or_open key s = look_up_entry key s (lookup key s.entries)

-- The critical section of a leader whose opener has returned.
unfoldable pub open_returns : StoreKey → ℕ → Dataset → Cache → Cache × Thread
unfolding evict
open_returns key f d s = (
  record s {
    misses = suc s.misses;
    entries = evict s.max_entries (to_end key d s.entries);
    in_flight = erase key s.in_flight;
    flights =
        set_flight f (record { flight_key = (s.flights f).flight_key; outcome = opened d })
          s.flights;
  },
  returns key d false,
)

-- The critical section of a leader whose opener has raised.
unfoldable pub open_raises : StoreKey → ℕ → Cache → Cache × Thread
open_raises key f s = (
  record s {
    in_flight = erase key s.in_flight;
    flights =
        set_flight f (record { flight_key = (s.flights f).flight_key; outcome = failed }) s.flights;
  },
  fails key,
)

-- What a thread does that waited for a flight whose event is set.
abbrev pub wake : StoreKey → ℕ → Outcome → Cache → Cache × Thread
wake key f pending s = (s, waits key f)
wake key f failed s = (s, fails key)
wake key f (opened d) s = (record s { hits = suc s.hits }, returns key d true)

unfoldable pub clear : Cache → Cache
clear s = record s { entries = []; in_flight = [] }

abbrev pub make_cache : ℕ → Cache
make_cache bound = record {
  max_entries = bound;
  entries = [];
  in_flight = [];
  flights = λ f. record { flight_key = ([], []); outcome = pending };
  next_flight = 0;
  hits = 0;
  misses = 0;
}

-- The cache with the threads inside `get_or_open`, those that have left it included.
pub record World : Type 0 where
  pub cache : Cache
  pub threads : List Thread

-- A thread in the midst of the others moves.
abbrev pub moved : List Thread → List Thread → Cache × Thread → World
moved before after (s, t) = record { cache = s; threads = before ++ t ∷ after }

pub data Step : World → World → Type 0 where
  enter :
      {s : Cache} {ts : List Thread} (key : StoreKey)
      → Step (record { cache = s; threads = ts }) (moved [] ts (get_or_open key s))
  lead_returns :
      {s : Cache} (before after : List Thread) (key : StoreKey) (f n : ℕ)
      → Step
          (record { cache = s; threads = before ++ leads key f ∷ after })
          (moved before after (open_returns key f (record { opened_for = key; call = n }) s))
  lead_raises :
      {s : Cache} (before after : List Thread) (key : StoreKey) (f : ℕ)
      → Step
          (record { cache = s; threads = before ++ leads key f ∷ after })
          (moved before after (open_raises key f s))
  wakes :
      {s : Cache} (before after : List Thread) (key : StoreKey) (f : ℕ)
      → Step
          (record { cache = s; threads = before ++ waits key f ∷ after })
          (moved before after (wake key f (s.flights f).outcome s))
  clears :
      {s : Cache} {ts : List Thread}
      → Step (record { cache = s; threads = ts }) (record { cache = clear s; threads = ts })

-- What the steps reach from an empty cache.
pub data Reach (bound : ℕ) : World → Type 0 where
  start : Reach bound (record { cache = make_cache bound; threads = [] })
  next : {w v : World} → Reach bound w → Step w v → Reach bound v
