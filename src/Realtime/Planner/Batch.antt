-- ===== src/Realtime/Planner/Batch.antt =====
-- The plan as a whole: the horizon is accounted for, the wave is bounded, and its targets
-- reconcile each model.
use weather.Common.{
  ℕ, ◌≤◌, ◌≡◌, ◌≢◌, ◌↔◌, refl, sym, subst, Bool, true, false, not, ◌&&◌, ◌||◌, none, some, List, [],
  ◌++◌, elem, All, All-map, All-take, All-elem, length, length-take, keep, drop, elem-keep,
  take-append-drop, ◌-◌, min, leb, any, Option-cases, ◌∷◌, ap, ◌∙◌, first, arith, Bool-cases, ◌⊎◌,
  inl, inr,
}
use mathlib.Core.List.{append-nil}
use weather.Common.Dict.{Dict, lookup, nat_key}
use weather.Domain.Horizon.{leads_from, is_empty}
use weather.Realtime.Planner.{
  Inputs, predecessor, horizon_complete, WavePolicy, Walk, walk, both_committed, gfs_committed,
  gefs_committed, shared_complete,
}
use weather.Realtime.Planner.Plan.{
  seen_at, oldest_age, pending_age, plan_for, final_reason, is_wave_due, candidate_of,
}
use weather.Realtime.Planner.Pending.{IsStuck, Split, walk-Split, IsEligible, walk-IsEligible}
use weather.Realtime.Planner.Order.{Follows, Follows-take, walk-Follows}
use weather.Realtime.Planner.Reasons.{
  walk_never_predecessor, reason_of, walk_never_complete, walk_committed,
}

eligible :
    (i : Inputs) (xs : List ℕ)
    → All (IsEligible i) xs
    → All (λ l. (shared_complete i l ≡ true) × (both_committed i l ≡ false)) xs
eligible i xs h = All-map _ _ (λ l e. (e.published, e.uncommitted)) xs h

-- For how long a lead has been seen complete, which is no time for one seen for the first time.
abbrev pub waited : Dict ℕ ℕ → ℕ → ℕ → ℕ
waited timing now lead = elim (lookup lead timing) [ none ↦ 0 | some t ↦ now - t ]

waited-seen :
    (timing : Dict ℕ ℕ) (now lead : ℕ) → waited timing now lead ≡ now - seen_at timing now lead
waited-seen timing now lead = elim (Option-cases (lookup lead timing)) [
  | inl absent ↦ rw (waited, seen_at, absent) (omega arith)
  | inr (t, found) ↦ rw (waited, seen_at, found) refl
]

longer : (now wait a b : ℕ) → leb wait (now - min a b) ≡ (leb wait (now - a) || leb wait (now - b))
longer now wait a b = ground arith

-- The oldest has waited long enough when one of them has.
oldest_age-any :
    (timing : Dict ℕ ℕ) (now wait best : ℕ) (pending : List ℕ)
    → leb wait (oldest_age timing now best pending)
      ≡ (leb wait (now - best) || any (λ lead. leb wait (waited timing now lead)) pending)
unfolding oldest_age
oldest_age-any timing now wait best [] = ground arith
oldest_age-any timing now wait best (lead ∷ pending) =
    oldest_age-any timing now wait (min best (seen_at timing now lead)) pending
    ∙ ground (arith, longer now wait best (seen_at timing now lead), waited-seen timing now lead)

due-eq :
    (policy : WavePolicy) (timing : Dict ℕ ℕ) (now : ℕ) (pending : List ℕ)
    → is_wave_due policy pending (pending_age timing now pending) ≡ (
        not (is_empty pending)
        && (leb policy.max_leads (length pending)
            || any (λ lead. leb policy.max_wait (waited timing now lead)) pending))
due-eq policy timing now [] = refl
due-eq policy timing now (lead ∷ pending) =
    ap (λ b. leb policy.max_leads (length (lead ∷ pending)) || b)
      (oldest_age-any timing now policy.max_wait (seen_at timing now lead) pending
        ∙ ap
            (λ a.
              leb policy.max_wait a || any (λ l. leb policy.max_wait (waited timing now l)) pending)
            (sym (waited-seen timing now lead)))

candidate-length :
    (policy : WavePolicy) (due : Bool) (pending : List ℕ)
    → length (candidate_of policy due pending) ≤ policy.max_leads
candidate-length policy true pending = omega (arith, length-take policy.max_leads pending)
candidate-length policy false pending = omega arith

-- A list with nothing in it but what is committed, where nothing is pending.
treated-nil :
    (i : Inputs) (xs : List ℕ)
    → All (λ l. (both_committed i l ≡ true) ⊎ (elem l [] ≡ true)) xs
    → All (λ l. both_committed i l ≡ true) xs
treated-nil i xs h = All-map _ _ (λ l t. elim t [ inl c ↦ c | inr e ↦ cc ]) xs h

complete-All :
    (i : Inputs) (seq : List ℕ) (w : Walk)
    → Split i seq w
    → reason_of w.blocked ≢ some horizon_complete
    → final_reason w.blocked w.pending ≡ some horizon_complete
    → All (λ l. both_committed i l ≡ true) seq
complete-All i seq w s never e =
    let nothing : w.blocked ≡ none = ground arith in
    let nil : w.pending ≡ [] = ground arith in
    let ends : s.after ≡ [] = ground (arith, s.stops) in
    subst (All (λ l. both_committed i l ≡ true))
      (sym (s.split_eq ∙ ap (◌++◌ s.before) ends ∙ append-nil s.before))
      (treated-nil i s.before (
        subst (λ p. All (λ l. (both_committed i l ≡ true) ⊎ (elem l p ≡ true)) s.before) nil
          s.treated))

reconcile :
    (i : Inputs) (l : ℕ) (xs : List ℕ)
    → All (λ l. (shared_complete i l ≡ true) × (both_committed i l ≡ false)) xs
    → let gfs = keep (λ k. not (gfs_committed i k)) xs in
      let gefs = keep (λ k. not (gefs_committed i k)) xs in
      (elem l gfs ≡ (elem l xs && not (gfs_committed i l)))
      × (elem l gefs ≡ (elem l xs && not (gefs_committed i l)))
      × ((elem l gfs || elem l gefs) ≡ elem l xs)
reconcile i l xs h =
    let e = elem-keep (λ k. not (gfs_committed i k)) l xs in
    let f = elem-keep (λ k. not (gefs_committed i k)) l xs in
    (
      e,
      f,
      elim (Bool-cases (elem l xs)) [
        | inl m ↦ let n = (All-elem _ l xs h m).1 in rw (e, f, m) (ground arith)
        | inr m ↦ rw (e, f, m) refl
      ],
    )

module _ (i : Inputs) (policy : WavePolicy) (timing : Dict ℕ ℕ) (now : ℕ) (seq : List ℕ) where
  -- The plan accounts for the horizon: the leads before the blocked lead, or all of them where no
  -- lead is blocked, are each committed for both models or pending; and the blocked lead is
  -- not committed for both, and is not published by both or has to wait for its predecessor.
  pub plan_covers :
      let p = plan_for i policy timing now seq in
      (before : List ℕ) × (after : List ℕ) × (seq ≡ before ++ after)
      × All (λ l. (both_committed i l ≡ true) ⊎ (elem l p.pending_complete_leads ≡ true)) before
      × (p.next_blocked_lead ≡ first after)
      × IsStuck i p.pending_complete_leads p.next_blocked_lead
  unfolding plan_for
  plan_covers =
      let s = walk-Split i seq [] in (s.before, s.after, s.split_eq, s.treated, s.stops, s.stuck)

  -- Every lead of the wave is published by both models, is not yet committed for both, and, where
  -- it is a reset lead, has the lead three hours before it committed or ahead of it in the wave,
  -- for each model.
  pub wave_eligible :
      let p = plan_for i policy timing now seq in
      All (λ l. (shared_complete i l ≡ true) × (both_committed i l ≡ false)) p.wave_candidate
      × Follows i [] p.wave_candidate
  unfolding plan_for
  wave_eligible = elim (Bool-cases (plan_for i policy timing now seq).wave_due) [
    | inl due ↦ rw due (
      All-take _ policy.max_leads _
          (eligible i (walk i seq []).pending (walk-IsEligible i seq [] tt)),
      Follows-take i [] policy.max_leads _ (walk-Follows i seq [] tt),
    )
    | inr idle ↦ rw idle (tt, tt)
  ]

  -- A wave is due exactly when a lead is pending and there are at least `max_leads` of them or one of
  -- them was seen complete at least `max_wait` ago. Its leads are then the first of the pending
  -- ones, at most `max_leads`; otherwise there are none.
  pub wave_bounded :
      let p = plan_for i policy timing now seq in
      (p.wave_due ≡ (
        not (is_empty p.pending_complete_leads)
        && (leb policy.max_leads (length p.pending_complete_leads)
            || any
                (λ lead. leb policy.max_wait (waited timing now lead))
                p.pending_complete_leads)))
      × (p.wave_due ≡ false → p.wave_candidate ≡ [])
      × (length p.wave_candidate ≤ policy.max_leads)
      × ((rest : List ℕ) × ((p.wave_due ≡ true)
            → p.pending_complete_leads ≡ p.wave_candidate ++ rest))
  unfolding plan_for
  wave_bounded = (
    due-eq policy timing now (walk i seq []).pending,
    λ idle. rw idle,
    candidate-length policy _ (walk i seq []).pending,
    (
      drop policy.max_leads (walk i seq []).pending,
      λ due. rw due (sym (take-append-drop policy.max_leads _)),
    ),
  )

  -- Each model is sent the leads of the wave that it has not committed, and no others; and every
  -- lead of the wave goes to at least one of the two.
  pub wave_targets_reconcile :
      (l : ℕ)
      → let p = plan_for i policy timing now seq in
        (elem l p.wave_targets_gfs ≡ (elem l p.wave_candidate && not (gfs_committed i l)))
        × (elem l p.wave_targets_gefs ≡ (elem l p.wave_candidate && not (gefs_committed i l)))
        × ((elem l p.wave_targets_gfs || elem l p.wave_targets_gefs) ≡ elem l p.wave_candidate)
  unfolding plan_for
  wave_targets_reconcile l =
      reconcile i l (plan_for i policy timing now seq).wave_candidate wave_eligible.0

  -- The plan says that the horizon is complete exactly when both models have committed every lead
  -- of it.
  pub horizon_complete_iff :
      let p = plan_for i policy timing now seq in
      (p.blocked_reason ≡ some horizon_complete) ↔ All (λ l. both_committed i l ≡ true) seq
  unfolding plan_for
  horizon_complete_iff = (
    complete-All i seq (walk i seq []) (walk-Split i seq []) (walk_never_complete i seq []),
    λ h. rw (walk_committed i seq [] h) refl,
  )

final-reason_of :
    (w : Walk)
    → reason_of w.blocked ≢ some predecessor
    → final_reason w.blocked w.pending ≢ some predecessor
final-reason_of w h e = ground arith

-- On a horizon that starts at lead 0 and goes up by three hours, as the canonical one does, no
-- lead is ever blocked for want of its predecessor.
pub never_blocked_by_predecessor :
    (i : Inputs) (policy : WavePolicy) (timing : Dict ℕ ℕ) (now n : ℕ)
    → (plan_for i policy timing now (leads_from 0 3 n)).blocked_reason ≢ some predecessor
unfolding plan_for
never_blocked_by_predecessor i policy timing now n =
    final-reason_of (walk i (leads_from 0 3 n) []) (walk_never_predecessor i 0 n [] (inl refl))
