-- ===== src/Serving/Leases.antt =====
-- services/api/src/api/core/reader_gate.py: the in-process leases by which concurrent reads of a
-- store share one database connection and its shared lock.
use weather.Common.{
  ℕ, suc, ◌+◌, ◌-◌, ◌≡◌, Bool, true, false, ◌&&◌, Option, none, some, List, [], ◌∷◌, ◌++◌, ltb,
  ◌==◌, if◌then◌else◌, replicate,
}
use weather.Common.Text.{Text}
use weather.Common.Dict.{Dict, lookup, insert, erase, text_key}
pub mod Counts
pub mod Tally
pub mod Actions
pub mod Safety
mod Examples

pub data LeaseState : Type 0 where
  initializing active failed closed : LeaseState

-- `_StoreGateLease`; `gate_held` is that of its session.
pub record Lease : Type 0 where
  pub key : Text
  pub created_at : ℕ
  pub ref_count : ℕ
  pub state : LeaseState
  pub gate_held : Bool

-- Where a thread stands in `gated_read`, with the lease that it works on: outside; as its creator,
-- before the outcome and in the three actions after a failure; as a joiner in the wait; in
-- `materialize`; and as the last to leave, before it drops the lease and before it releases.
pub data Phase : Type 0 where
  outside : Phase
  creating failing releasing_failed leaving_failed joining reading closing releasing : ℕ → Phase

-- Leases by their creation, which is their identity; `table` is `_leases`.
pub record Gate : Type 0 where
  pub leases : ℕ → Lease
  pub next : ℕ
  pub table : Dict Text ℕ

-- In milliseconds.
abbrev pub max_lifetime : ℕ
max_lifetime = 5000

abbrev pub is_open : LeaseState → Bool
is_open initializing = true
is_open active = true
is_open failed = false
is_open closed = false

abbrev pub is_joinable : ℕ → Lease → Bool
is_joinable now l = is_open l.state && ltb (now - l.created_at) max_lifetime

-- The lease that a call for a key joins, if there is one to join.
abbrev pub found : ℕ → (ℕ → Lease) → Option ℕ → Option ℕ
found now leases none = none
found now leases (some i) = if is_joinable now (leases i) then some i else none

-- A change of one lease.
abbrev pub change : ℕ → (Lease → Lease) → (ℕ → Lease) → ℕ → Lease
change i f leases j = if j == i then f (leases j) else leases j

abbrev pub on_lease : ℕ → (Lease → Lease) → Gate → Gate
on_lease i f g = record g { leases = change i f g.leases }

abbrev pub add_ref : Lease → Lease
add_ref l = record l { ref_count = l.ref_count + 1 }

-- A count that the code never lowers below zero, as the theorems show.
abbrev pub drop_ref : Lease → Lease
drop_ref l = record l { ref_count = l.ref_count - 1 }

abbrev pub new_lease : Text → ℕ → Lease
new_lease key now = record {
  key = key;
  created_at = now;
  ref_count = 1;
  state = initializing;
  gate_held = false;
}

-- The new state, the lease, and whether the caller created it, for the lease to join.
abbrev pub acquired : Option ℕ → Text → ℕ → Gate → Gate × ℕ × Bool
acquired (some i) key now g = (on_lease i add_ref g, i, false)
acquired none key now g = (
  record {
    leases = change g.next (λ _. new_lease key now) g.leases;
    next = suc g.next;
    table = insert key g.next g.table;
  },
  g.next,
  true,
)

-- `_acquire_or_join_lease`
abbrev pub acquire_or_join : Text → ℕ → Gate → Gate × ℕ × Bool
acquire_or_join key now g = acquired (found now g.leases (lookup key g.table)) key now g

abbrev pub entered : ℕ → Bool → Phase
entered i true = creating i
entered i false = joining i

-- `if _leases.get(key) is lease: _leases.pop(key, None)`
abbrev pub forgotten : Text → ℕ → Dict Text ℕ → Option ℕ → Dict Text ℕ
forgotten key i table none = table
forgotten key i table (some j) = if j == i then erase key table else table

abbrev pub forget : ℕ → Gate → Gate
forget i g =
    let key = (g.leases i).key in record g { table = forgotten key i g.table (lookup key g.table) }

abbrev pub release : Lease → Lease
release l = record l { gate_held = false }

-- The first lock of `_exit_lease`: the lease, and what is left to do.
abbrev pub leave : Lease → Lease
leave l = if l.ref_count - 1 == 0 then record l { ref_count = 0; state = closed } else drop_ref l

abbrev pub after_leave : ℕ → Lease → Phase
after_leave i l = if l.ref_count - 1 == 0 then closing i else outside

-- What a joiner finds after its wait.
abbrev pub after_wait : ℕ → LeaseState → Phase
after_wait i initializing = joining i
after_wait i active = reading i
after_wait i failed = outside
after_wait i closed = reading i

abbrev pub drop_if_failed : LeaseState → Lease → Lease
drop_if_failed initializing l = l
drop_if_failed active l = l
drop_if_failed failed l = drop_ref l
drop_if_failed closed l = l

abbrev pub joined : Lease → Lease
joined l = drop_if_failed l.state l

abbrev pub activate : Lease → Lease
activate l = record l { state = active; gate_held = true }

-- The session may have acquired the gate before the revalidation refused the run.
abbrev pub fail : Bool → Lease → Lease
fail got_gate l = record l { state = failed; gate_held = got_gate }

-- What one thread does at a time: the next critical section, or call of the session.
pub data Act : Phase → Gate → Phase → Gate → Type 0 where
  enters :
      (key : Text) (now : ℕ) (g : Gate)
      → Act outside g
          (entered (acquire_or_join key now g).1 (acquire_or_join key now g).2)
          (acquire_or_join key now g).0
  succeeds : (i : ℕ) (g : Gate) → Act (creating i) g (reading i) (on_lease i activate g)
  fails :
      (i : ℕ) (got_gate : Bool) (g : Gate)
      → Act (creating i) g (failing i) (on_lease i (fail got_gate) g)
  forgets_failed : (i : ℕ) (g : Gate) → Act (failing i) g (releasing_failed i) (forget i g)
  releases_failed :
      (i : ℕ) (g : Gate) → Act (releasing_failed i) g (leaving_failed i) (on_lease i release g)
  leaves_failed : (i : ℕ) (g : Gate) → Act (leaving_failed i) g outside (on_lease i drop_ref g)
  times_out :
      (i : ℕ) (g : Gate)
      → (g.leases i).state ≡ initializing
      → Act (joining i) g outside (on_lease i drop_ref g)
  proceeds :
      (i : ℕ) (g : Gate) → Act (joining i) g (after_wait i (g.leases i).state) (on_lease i joined g)
  exits : (i : ℕ) (g : Gate) → Act (reading i) g (after_leave i (g.leases i)) (on_lease i leave g)
  forgets : (i : ℕ) (g : Gate) → Act (closing i) g (releasing i) (forget i g)
  releases : (i : ℕ) (g : Gate) → Act (releasing i) g outside (on_lease i release g)

abbrev pub no_lease : Lease
no_lease = record { key = []; created_at = 0; ref_count = 0; state = closed; gate_held = false }

-- The threads of the process, each acting at any time.
pub data Reach (threads : ℕ) : List Phase → Gate → Type 0 where
  begins :
      Reach threads
        (replicate threads outside)
        (record { leases = λ i. no_lease; next = 0; table = [] })
  later :
      (xs ys : List Phase) {p q : Phase} {g h : Gate}
      → Reach threads (xs ++ p ∷ ys) g
      → Act p g q h
      → Reach threads (xs ++ q ∷ ys) h
