-- ===== src/Serving/Leases/Counts.antt =====
-- What the state of a lease says of the threads that work on it, and how the actions keep it.
use weather.Common.{ℕ, suc, ◌+◌, ◌≤◌, ◌≡◌, refl, Bool, true, false, ◌⊎◌, inl, inr, arith}
use weather.Serving.Leases.{LeaseState, initializing, active, failed, closed, is_open}

-- How many threads work on one lease, by what they do.
pub record Threads : Type 0 where
  pub creators : ℕ
  pub cleaners : ℕ
  pub leavers : ℕ
  pub joiners : ℕ
  pub readers : ℕ
  pub closers : ℕ

abbrev pub holders : Threads → ℕ
holders k = k.creators + k.cleaners + k.leavers + k.joiners + k.readers

-- A lease that is initializing has its one creator; an active one holds the gate and has threads;
-- a failed one holds the gate only until its creator has cleaned up; a closed one has no holders,
-- and holds the gate only until the last thread has released it.
abbrev pub Agrees : LeaseState → Bool → Threads → Type 0
Agrees initializing gate k =
    (k.creators ≡ 1) × (k.cleaners + k.leavers ≡ 0) × (k.readers ≡ 0) × (k.closers ≡ 0)
Agrees active gate k =
    (gate ≡ true)
    × (k.creators ≡ 0)
    × (k.cleaners + k.leavers ≡ 0)
    × (k.closers ≡ 0)
    × (1 ≤ holders k)
Agrees failed gate k =
    (k.creators ≡ 0) × (k.readers ≡ 0) × (k.closers ≡ 0) × ((gate ≡ false) ⊎ (1 ≤ k.cleaners))
Agrees closed gate k = (holders k ≡ 0) × ((gate ≡ false) ⊎ (1 ≤ k.closers))

pub creates :
    (s : LeaseState) (gate : Bool) (k : Threads)
    → Agrees s gate (record k { creators = suc k.creators })
    → Agrees active true (record k { readers = suc k.readers })
creates initializing gate k h = ground arith
creates active gate k h = ground arith
creates failed gate k h = ground arith
creates closed gate k h = ground arith

pub create_fails :
    (s : LeaseState) (gate got_gate : Bool) (k : Threads)
    → Agrees s gate (record k { creators = suc k.creators })
    → Agrees failed got_gate (record k { cleaners = suc k.cleaners })
create_fails initializing gate g k h = (omega arith, omega arith, omega arith, inr (omega arith))
create_fails active gate g k h = ground arith
create_fails failed gate g k h = ground arith
create_fails closed gate g k h = ground arith

-- The creator of a failed lease releases its session, and then leaves.
pub cleans :
    (s : LeaseState) (gate : Bool) (k : Threads)
    → Agrees s gate (record k { cleaners = suc k.cleaners })
    → Agrees s false (record k { leavers = suc k.leavers })
cleans initializing gate k h = ground arith
cleans active gate k h = ground arith
cleans failed gate k h = (omega arith, omega arith, omega arith, inl refl)
cleans closed gate k h = ground arith

pub leaves :
    (s : LeaseState) (gate : Bool) (k : Threads)
    → Agrees s gate (record k { leavers = suc k.leavers })
    → Agrees s gate k
leaves initializing gate k h = ground arith
leaves active gate k h = ground arith
leaves failed gate k h = h
leaves closed gate k h = ground arith

pub last_reader :
    (s : LeaseState) (gate : Bool) (k : Threads)
    → holders k ≡ 0
    → Agrees s gate (record k { readers = suc k.readers })
    → Agrees closed gate (record k { closers = suc k.closers })
last_reader s gate k none_left h = (omega arith, inr (omega arith))

pub reader_leaves :
    (s : LeaseState) (gate : Bool) (k : Threads)
    → 1 ≤ holders k
    → Agrees s gate (record k { readers = suc k.readers })
    → Agrees s gate k
reader_leaves initializing gate k some_left h = ground arith
reader_leaves active gate k some_left h = ground arith
reader_leaves failed gate k some_left h = ground arith
reader_leaves closed gate k some_left h = ground arith

pub closer_releases :
    (s : LeaseState) (gate : Bool) (k : Threads)
    → Agrees s gate (record k { closers = suc k.closers })
    → Agrees s false k
closer_releases initializing gate k h = ground arith
closer_releases active gate k h = ground arith
closer_releases failed gate k h = ground arith
closer_releases closed gate k h = (h.0, inl refl)

pub joins :
    (s : LeaseState) (gate : Bool) (k : Threads)
    → is_open s ≡ true
    → Agrees s gate k
    → Agrees s gate (record k { joiners = suc k.joiners })
joins initializing gate k o h = h
joins active gate k o h = ground arith
joins failed gate k o h = cc
joins closed gate k o h = cc

pub gives_up :
    (s : LeaseState) (gate : Bool) (k : Threads)
    → s ≡ initializing
    → Agrees s gate (record k { joiners = suc k.joiners })
    → Agrees s gate k
gives_up initializing gate k e h = h
gives_up active gate k e h = cc
gives_up failed gate k e h = cc
gives_up closed gate k e h = cc

-- A joiner that finds its lease past its initialization and not failed finds it active.
pub starts_reading :
    (s : LeaseState) (gate : Bool) (k : Threads)
    → (s ≡ active) ⊎ (s ≡ closed)
    → Agrees s gate (record k { joiners = suc k.joiners })
    → Agrees s gate (record k { readers = suc k.readers })
starts_reading initializing gate k e h = elim e [ inl a ↦ cc | inr c ↦ cc ]
starts_reading active gate k e h = ground arith
starts_reading failed gate k e h = elim e [ inl a ↦ cc | inr c ↦ cc ]
starts_reading closed gate k e h = ground arith

pub sees_failure :
    (s : LeaseState) (gate : Bool) (k : Threads)
    → s ≡ failed
    → Agrees s gate (record k { joiners = suc k.joiners })
    → Agrees s gate k
sees_failure initializing gate k e h = cc
sees_failure active gate k e h = cc
sees_failure failed gate k e h = h
sees_failure closed gate k e h = cc

pub closed_idle :
    (s : LeaseState) (gate : Bool) (k : Threads) → s ≡ closed → Agrees s gate k → holders k ≡ 0
closed_idle initializing gate k e h = cc
closed_idle active gate k e h = cc
closed_idle failed gate k e h = cc
closed_idle closed gate k e h = h.0

pub readers_active :
    (s : LeaseState) (gate : Bool) (k : Threads)
    → 1 ≤ k.readers
    → Agrees s gate k
    → (s ≡ active) × (gate ≡ true)
readers_active initializing gate k r h = ground arith
readers_active active gate k r h = (refl, h.0)
readers_active failed gate k r h = ground arith
readers_active closed gate k r h = ground arith
