-- ===== src/Serving/Leases/Safety.antt =====
-- Whatever the interleaving, a thread reads under the gate of its lease, and no gate stays behind.
use weather.Common.{
  ℕ, zero, suc, ◌-◌, ◌≤◌, ◌≡◌, refl, sym, ap, ◌∙◌, subst, Bool, true, false, inl, List, ◌∷◌, ◌++◌,
  replicate, ◌==◌, arith, All, ◌≢◌, if◌then◌else◌, Option, none, some,
}
use weather.Common.Text.{Text}
use weather.Common.Dict.{lookup, text_key}
use weather.Serving.Leases.{
  Lease, LeaseState, initializing, active, failed, closed, Phase, outside, joining, reading, Gate,
  acquired, found, Act, enters, succeeds, fails, forgets_failed, releases_failed, leaves_failed,
  times_out, proceeds, exits, forgets, releases, Reach, begins, later, entered, is_joinable,
  is_open, no_lease,
}
use weather.Serving.Leases.Counts.{readers_active, Threads, holders, Agrees, closed_idle}
use weather.Serving.Leases.Tally.{
  is_reading, is_joining, tally-middle, at_lease_idle, no_threads, tally, at_lease, with_phase,
  at_lease-middle,
}
use weather.Serving.Leases.Actions.{
  IsSound, on_success, on_failure, on_cleaning, on_leaving, on_release, on_timeout, on_join,
  on_create, on_wait, on_exit, after_wait-waited, after_leave-exited,
}

joinable-open :
    (now : ℕ) (leases : ℕ → Lease) (j i : ℕ) (b : Bool)
    → is_joinable now (leases j) ≡ b
    → (if b then some j else none) ≡ some i
    → is_open (leases i).state ≡ true
joinable-open now leases j i true e h =
    let same : j ≡ i = cc in
    let open_j : is_open (leases j).state ≡ true = ground arith in
    subst (λ n. is_open (leases n).state ≡ true) same open_j
joinable-open now leases j i false e h = cc

found-open :
    (now : ℕ) (leases : ℕ → Lease) (o : Option ℕ) (i : ℕ)
    → found now leases o ≡ some i
    → is_open (leases i).state ≡ true
found-open now leases none i h = cc
found-open now leases (some j) i h =
    joinable-open now leases j i (is_joinable now (leases j)) refl h

at_same {ℓ} :
    {A : Type ℓ} (f : Lease → A) (leases : ℕ → Lease) (j i : ℕ)
    → (j == i) ≡ true
    → f (leases j) ≡ f (leases i)
at_same f leases j i h = let same : j ≡ i = ground arith in ap (λ n. f (leases n)) same

on_enter :
    (key : Text) (now : ℕ) (g : Gate) (j : ℕ) (k : Threads) (o : Option ℕ)
    → ((i : ℕ) → o ≡ some i → is_open (g.leases i).state ≡ true)
    → IsSound g.next j (g.leases j) k
    → let r = acquired o key now g in
      IsSound r.0.next j (r.0.leases j) (with_phase j (entered r.1 r.2) k)
on_enter key now g j k none opens s =
    on_create g.next j (g.leases j) k (j == g.next) key now (λ h. ground arith) s
on_enter key now g j k (some i) opens s =
    on_join g.next j (g.leases j) k (j == i)
      (λ h. at_same (λ l. is_open l.state) g.leases j i h ∙ opens i refl) s

Act-IsSound :
    {p : Phase} {g : Gate} {q : Phase} {h : Gate}
    → Act p g q h
    → (j : ℕ) (k : Threads) → IsSound g.next j (g.leases j) (with_phase j p k)
    → IsSound h.next j (h.leases j) (with_phase j q k)
Act-IsSound (enters key now g) j k s =
    on_enter key now g j k (found now g.leases (lookup key g.table))
      (found-open now g.leases (lookup key g.table)) s
Act-IsSound (succeeds i g) j k s = on_success g.next j (g.leases j) k (j == i) s
Act-IsSound (fails i got_gate g) j k s = on_failure g.next j (g.leases j) k (j == i) got_gate s
Act-IsSound (forgets_failed i g) j k s = record {
  refs = s.refs;
  agrees = s.agrees;
  fresh = s.fresh;
}
Act-IsSound (releases_failed i g) j k s = on_cleaning g.next j (g.leases j) k (j == i) s
Act-IsSound (leaves_failed i g) j k s = on_leaving g.next j (g.leases j) k (j == i) s
Act-IsSound (times_out i g e) j k s =
    on_timeout g.next j (g.leases j) k (j == i) (λ h. at_same (λ l. l.state) g.leases j i h ∙ e) s
Act-IsSound (proceeds i g) j k s =
    subst (IsSound g.next j _) (after_wait-waited i j (g.leases i).state k) (
      on_wait g.next j (g.leases j) k (j == i) (g.leases i).state
        (at_same (λ l. l.state) g.leases j i) s)
Act-IsSound (exits i g) j k s =
    subst (IsSound g.next j _) (after_leave-exited i j ((g.leases i).ref_count - 1 == 0) k) (
      on_exit g.next j (g.leases j) k (j == i) ((g.leases i).ref_count - 1 == 0)
        (at_same (λ l. l.ref_count - 1 == 0) g.leases j i) s)
Act-IsSound (forgets i g) j k s = record { refs = s.refs; agrees = s.agrees; fresh = s.fresh }
Act-IsSound (releases i g) j k s = on_release g.next j (g.leases j) k (j == i) s

begins-IsSound : (threads j : ℕ) → IsSound 0 j no_lease (at_lease j (replicate threads outside))
begins-IsSound zero j = record {
  refs = refl;
  agrees = (refl, inl refl);
  fresh = λ h. (refl, refl, refl);
}
begins-IsSound (suc threads) j = begins-IsSound threads j

Reach-IsSound :
    (threads : ℕ) {ps : List Phase} {g : Gate}
    → Reach threads ps g
    → (j : ℕ) → IsSound g.next j (g.leases j) (at_lease j ps)
Reach-IsSound threads begins j = begins-IsSound threads j
Reach-IsSound threads (later xs ys {p} {q} {g} {h} r act) j =
    subst (IsSound h.next j (h.leases j)) (sym (at_lease-middle j xs ys q)) (
      Act-IsSound act j (at_lease j (xs ++ ys)) (
        subst (IsSound g.next j (g.leases j)) (at_lease-middle j xs ys p)
          (Reach-IsSound threads r j)))

-- A thread that reads a store does so under an active lease whose session holds the gate, whatever
-- the interleaving of the threads.
pub reads_under_gate :
    (threads : ℕ) (xs ys : List Phase) (i : ℕ) (g : Gate)
    → Reach threads (xs ++ reading i ∷ ys) g
    → ((g.leases i).state ≡ active) × ((g.leases i).gate_held ≡ true)
reads_under_gate threads xs ys i g r =
    let here : (i == i) ≡ true = ground arith in
    let s = (Reach-IsSound threads r i).agrees in
    readers_active (g.leases i).state (g.leases i).gate_held (at_lease i (xs ++ reading i ∷ ys))
      (rw (tally-middle (is_reading i) xs ys (reading i), here) (omega arith)) s

-- A thread that has joined a lease keeps it from being closed: it never finds it closed after its
-- wait, when it would read without the gate.
pub joined_not_closed :
    (threads : ℕ) (xs ys : List Phase) (i : ℕ) (g : Gate)
    → Reach threads (xs ++ joining i ∷ ys) g
    → (g.leases i).state ≢ closed
joined_not_closed threads xs ys i g r e =
    let here : (i == i) ≡ true = ground arith in
    let s = (Reach-IsSound threads r i).agrees in
    let idle = closed_idle (g.leases i).state (g.leases i).gate_held _ e s in
    let some_joiner : 1 ≤ tally (is_joining i) (xs ++ joining i ∷ ys) =
      rw (tally-middle (is_joining i) xs ys (joining i), here) (omega arith) in
    omega arith

nobody_holds : (s : LeaseState) (gate : Bool) → Agrees s gate no_threads → gate ≡ false
nobody_holds initializing gate h = ground arith
nobody_holds active gate h = ground arith
nobody_holds failed gate h = ground arith
nobody_holds closed gate h = ground arith

-- When all threads are outside again, no lease has references left and no session holds a gate.
pub no_gate_left :
    (threads : ℕ) (ps : List Phase) (g : Gate)
    → Reach threads ps g
    → All (λ p. p ≡ outside) ps
    → (i : ℕ) → ((g.leases i).ref_count ≡ 0) × ((g.leases i).gate_held ≡ false)
no_gate_left threads ps g r idle i =
    let s = Reach-IsSound threads r i in
    let nobody = at_lease_idle i ps idle in
    (
      subst (λ k. (g.leases i).ref_count ≡ holders k) nobody s.refs,
      nobody_holds (g.leases i).state (g.leases i).gate_held
          (subst (Agrees (g.leases i).state (g.leases i).gate_held) nobody s.agrees),
    )
