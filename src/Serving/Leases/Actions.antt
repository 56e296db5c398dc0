-- ===== src/Serving/Leases/Actions.antt =====
-- How each action of a thread keeps what the state of a lease says of its threads.
use weather.Common.{
  ℕ, suc, ◌-◌, ◌≤◌, ◌≡◌, refl, sym, subst, Bool, true, false, inl, inr, ◌==◌, arith, if◌then◌else◌,
}
use weather.Common.Text.{Text}
use weather.Common.Dict.{text_key}
use weather.Serving.Leases.{
  Lease, LeaseState, initializing, active, failed, closed, outside, closing, after_wait, is_open,
  new_lease, joined, leave, drop_ref, drop_if_failed, release, activate, fail, add_ref,
}
use weather.Serving.Leases.Counts.{
  Threads, holders, Agrees, creates, create_fails, cleans, leaves, last_reader, reader_leaves,
  closer_releases, joins, gives_up, starts_reading, sees_failure, closed_idle,
}
use weather.Serving.Leases.Tally.{bump, with_phase}

-- What holds of a lease and the threads on it; a lease not created yet is closed, without a thread.
pub record IsSound (next j : ℕ) (l : Lease) (k : Threads) : Type 0 where
  pub refs : l.ref_count ≡ holders k
  pub agrees : Agrees l.state l.gate_held k
  pub fresh : next ≤ j → (k.closers ≡ 0) × (l.state ≡ closed) × (l.gate_held ≡ false)

-- The actions, as they change one lease when they are on it, and no other.
module _ (next j : ℕ) (l : Lease) (k : Threads) where
  pub on_success :
      (here : Bool)
      → IsSound next j l (record k { creators = bump here k.creators })
      → IsSound next j (if here then activate l else l) (record k { readers = bump here k.readers })
  on_success false s = s
  on_success true s = record {
    refs = omega (arith, s.refs);
    agrees = creates l.state l.gate_held k s.agrees;
    fresh =
        λ h. let idle = closed_idle l.state l.gate_held _ (s.fresh h).1 s.agrees in ground arith;
  }

  pub on_failure :
      (here got_gate : Bool)
      → IsSound next j l (record k { creators = bump here k.creators })
      → IsSound next j
          (if here then fail got_gate l else l)
          (record k { cleaners = bump here k.cleaners })
  on_failure false got_gate s = s
  on_failure true got_gate s = record {
    refs = omega (arith, s.refs);
    agrees = create_fails l.state l.gate_held got_gate k s.agrees;
    fresh =
        λ h. let idle = closed_idle l.state l.gate_held _ (s.fresh h).1 s.agrees in ground arith;
  }

  pub on_cleaning :
      (here : Bool)
      → IsSound next j l (record k { cleaners = bump here k.cleaners })
      → IsSound next j (if here then release l else l) (record k { leavers = bump here k.leavers })
  on_cleaning false s = s
  on_cleaning true s = record {
    refs = omega (arith, s.refs);
    agrees = cleans l.state l.gate_held k s.agrees;
    fresh = λ h. let never = s.fresh h in (never.0, never.1, refl);
  }

  pub on_leaving :
      (here : Bool)
      → IsSound next j l (record k { leavers = bump here k.leavers })
      → IsSound next j (if here then drop_ref l else l) k
  on_leaving false s = s
  on_leaving true s = record {
    refs = omega (arith, s.refs);
    agrees = leaves l.state l.gate_held k s.agrees;
    fresh = s.fresh;
  }

  pub on_release :
      (here : Bool)
      → IsSound next j l (record k { closers = bump here k.closers })
      → IsSound next j (if here then release l else l) k
  on_release false s = s
  on_release true s = record {
    refs = omega (arith, s.refs);
    agrees = closer_releases l.state l.gate_held k s.agrees;
    fresh = λ h. let never = s.fresh h in ground arith;
  }

-- What a joiner becomes after its wait, by the state that it found.
abbrev pub waited : Bool → LeaseState → Threads → Threads
waited here initializing k = record k { joiners = bump here k.joiners }
waited here active k = record k { readers = bump here k.readers }
waited here failed k = k
waited here closed k = record k { readers = bump here k.readers }

pub after_wait-waited :
    (i j : ℕ) (s : LeaseState) (k : Threads) → waited (j == i) s k ≡ with_phase j (after_wait i s) k
after_wait-waited i j initializing k = refl
after_wait-waited i j active k = refl
after_wait-waited i j failed k = refl
after_wait-waited i j closed k = refl

abbrev pub exited : Bool → Bool → Threads → Threads
exited here true k = record k { closers = bump here k.closers }
exited here false k = k

pub after_leave-exited :
    (i j : ℕ) (last : Bool) (k : Threads)
    → exited (j == i) last k ≡ with_phase j (if last then closing i else outside) k
after_leave-exited i j true k = refl
after_leave-exited i j false k = refl

module _ (next j : ℕ) (l : Lease) (k : Threads) where
  pub on_timeout :
      (here : Bool)
      → (here ≡ true → l.state ≡ initializing)
      → IsSound next j l (record k { joiners = bump here k.joiners })
      → IsSound next j (if here then drop_ref l else l) k
  on_timeout false e s = s
  on_timeout true e s = record {
    refs = omega (arith, s.refs);
    agrees = gives_up l.state l.gate_held k (e refl) s.agrees;
    fresh = s.fresh;
  }

  pub on_join :
      (here : Bool)
      → (here ≡ true → is_open l.state ≡ true)
      → IsSound next j l k
      → IsSound next j (if here then add_ref l else l) (record k { joiners = bump here k.joiners })
  on_join false o s = s
  on_join true o s = record {
    refs = omega (arith, s.refs);
    agrees = joins l.state l.gate_held k (o refl) s.agrees;
    fresh = s.fresh;
  }

  pub on_create :
      (here : Bool) (key : Text) (now : ℕ)
      → (here ≡ true → j ≡ next)
      → IsSound next j l k
      → IsSound
          (suc next)
          j
          (if here then new_lease key now else l)
          (record k { creators = bump here k.creators })
  on_create false key now e s = record {
    refs = s.refs;
    agrees = s.agrees;
    fresh = λ h. s.fresh (omega arith);
  }
  on_create true key now e s =
      let same = e refl in
      let never = s.fresh (omega arith) in
      let idle = closed_idle l.state l.gate_held k never.1 s.agrees in
      record {
        refs = omega arith;
        agrees = (omega arith, omega arith, omega arith, never.0);
        fresh = λ h. ground arith;
      }

  pub on_wait :
      (here : Bool) (found : LeaseState)
      → (here ≡ true → l.state ≡ found)
      → IsSound next j l (record k { joiners = bump here k.joiners })
      → IsSound next j (if here then joined l else l) (waited here found k)
  on_wait false initializing e s = s
  on_wait false active e s = s
  on_wait false failed e s = s
  on_wait false closed e s = s
  on_wait true initializing e s =
      subst (λ d. IsSound next j (drop_if_failed d l) (record k { joiners = suc k.joiners }))
        (sym (e refl)) s
  on_wait true active e s =
      let after : IsSound next j l (record k { readers = suc k.readers }) = record {
        refs = omega (arith, s.refs);
        agrees = starts_reading l.state l.gate_held k (inl (e refl)) s.agrees;
        fresh = s.fresh;
      } in
      subst (λ d. IsSound next j (drop_if_failed d l) (record k { readers = suc k.readers }))
        (sym (e refl)) after
  on_wait true failed e s =
      let after : IsSound next j (drop_ref l) k = record {
        refs = omega (arith, s.refs);
        agrees = sees_failure l.state l.gate_held k (e refl) s.agrees;
        fresh = s.fresh;
      } in
      subst (λ d. IsSound next j (drop_if_failed d l) k) (sym (e refl)) after
  on_wait true closed e s =
      let after : IsSound next j l (record k { readers = suc k.readers }) = record {
        refs = omega (arith, s.refs);
        agrees = starts_reading l.state l.gate_held k (inr (e refl)) s.agrees;
        fresh = s.fresh;
      } in
      subst (λ d. IsSound next j (drop_if_failed d l) (record k { readers = suc k.readers }))
        (sym (e refl)) after

  pub on_exit :
      (here last : Bool)
      → (here ≡ true → (l.ref_count - 1 == 0) ≡ last)
      → IsSound next j l (record k { readers = bump here k.readers })
      → IsSound next j (if here then leave l else l) (exited here last k)
  on_exit false true e s = s
  on_exit false false e s = s
  on_exit true true e s =
      let none_left : holders k ≡ 0 = ground (arith, e refl, s.refs) in
      rw (e refl) (record {
        refs = omega arith;
        agrees = last_reader l.state l.gate_held k none_left s.agrees;
        fresh = λ h.
            let idle = closed_idle l.state l.gate_held _ (s.fresh h).1 s.agrees in ground arith;
      })
  on_exit true false e s = rw (e refl) (record {
    refs = omega (arith, s.refs);
    agrees = reader_leaves l.state l.gate_held k (ground (arith, e refl, s.refs)) s.agrees;
    fresh = s.fresh;
  })
