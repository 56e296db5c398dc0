-- ===== src/Ingest/Reclaim/Serving.antt =====
-- gc/planner.py: the candidates of the serving window are of runs that are not retired.
use weather.Common.{
  ℕ, ◌*◌, ◌≡◌, refl, Bool, true, false, Option, none, some, List, [], ◌∷◌, ◌++◌, leb, ◌==◌,
  if◌then◌else◌, All, All-append, length, Bool-cases, inl, inr, arith, subst,
}
use weather.Common.Int.{ℤ, pos}
use weather.Common.Result.{ok, >>=-eq-ok, ok-inj}
use weather.Common.Text.{Text}
use weather.Common.Dict.{lookup, insert, nat_key}
use weather.Domain.Time.{DateTime, aware, add_time, hour}
use weather.Domain.Horizon.{Registry}
use weather.Domain.Coverage.{is_lead_servable, default_threshold}
use weather.Domain.Temporal.{is_valid_time_protected}
use weather.Domain.Canonical.{CanonicalCandidate}
use weather.Domain.Canonical.Bulk.{var_time_key}
use weather.Ingest.Reclaim.{
  Runs, MemberMap, LeadRecord, ByRunLead, CandidatesByValid, lead_candidate, candidate_of,
  members_of, sort_members, append_candidate, group_candidates, insert_by_lead, sort_by_lead,
  sort_all,
}
use weather.Ingest.Reclaim.Pass.{protected_candidates}
use weather.Ingest.Reclaim.Targets.{IsKept, KeyKept, CandidateKept}

-- The candidates of a valid time.
abbrev pub TimeKept : Runs → ℕ × List CanonicalCandidate → Type 0
TimeKept runs (t, cs) = All (CandidateKept runs) cs

insert-TimeKept :
    (runs : Runs) (t : ℕ) (cs : List CanonicalCandidate) (d : CandidatesByValid)
    → All (CandidateKept runs) cs
    → All (TimeKept runs) d
    → All (TimeKept runs) (insert t cs d)
insert-TimeKept runs t cs [] k h = (k, tt)
insert-TimeKept runs t cs ((s, ds) ∷ d) k h = elim (Bool-cases (s == t)) [
  | inl same ↦ rw same (k, h.1)
  | inr other ↦ rw other (h.0, insert-TimeKept runs t cs d k h.1)
]

pub lookup-TimeKept :
    (runs : Runs) (t : ℕ) (cs : List CanonicalCandidate) (d : CandidatesByValid)
    → All (TimeKept runs) d
    → lookup t d ≡ some cs
    → All (CandidateKept runs) cs
lookup-TimeKept runs t cs [] h e = cc
lookup-TimeKept runs t cs ((s, ds) ∷ d) h e = elim (Bool-cases (s == t)) [
  | inl same ↦ subst (All (CandidateKept runs)) (ground (arith, e, same)) h.0
  | inr other ↦ lookup-TimeKept runs t cs d h.1 (ground (arith, e, other))
]

-- The list under a key, with one more at its end.
appended :
    (runs : Runs) (c : CanonicalCandidate) (o : Option (List CanonicalCandidate))
    → CandidateKept runs c
    → ((cs : List CanonicalCandidate) → o ≡ some cs → All (CandidateKept runs) cs)
    → All (CandidateKept runs) (elim o [ none ↦ c ∷ [] | some cs ↦ cs ++ c ∷ [] ])
appended runs c none k h = (k, tt)
appended runs c (some cs) k h = All-append (CandidateKept runs) cs (c ∷ []) (h cs refl) (k, tt)

append_candidate-kept :
    (runs : Runs) (t : ℕ) (o : Option CanonicalCandidate) (d : CandidatesByValid)
    → ((c : CanonicalCandidate) → o ≡ some c → CandidateKept runs c)
    → All (TimeKept runs) d
    → All (TimeKept runs) (append_candidate t o d)
append_candidate-kept runs t none d k h = h
append_candidate-kept runs t (some c) d k h =
    insert-TimeKept runs t _ d
      (appended runs c (lookup t d) (k c refl) (λ cs e. lookup-TimeKept runs t cs d h e)) h

some-run :
    (runs : Runs) (run : Text) (lead : ℕ) (rec : LeadRecord) (ms : Option (List ℤ))
    (c : CanonicalCandidate)
    → IsKept runs run
    → some (lead_candidate run lead rec ms) ≡ some c
    → CandidateKept runs c
some-run runs run lead rec ms c k e = subst (IsKept runs) (cc e) k

candidate_of-kept :
    (runs : Runs) (ensemble : Bool) (expected : ℤ) (members : MemberMap) (run : Text) (lead : ℕ)
    (rec : LeadRecord) (c : CanonicalCandidate)
    → IsKept runs run
    → candidate_of ensemble expected members (run, lead) rec ≡ some c
    → CandidateKept runs c
unfolding candidate_of
candidate_of-kept runs false expected members run lead rec c k e =
    some-run runs run lead rec none c k e
candidate_of-kept runs true expected members run lead rec c k e =
    elim (Bool-cases
      (is_lead_servable (length (members_of members run lead)) expected default_threshold)) [
        | inl served ↦
            some-run runs run lead rec (some (sort_members (members_of members run lead))) c k
              (ground (arith, e, served))
        | inr few ↦ absurd (ground (arith, e, few))
      ]

group-kept :
    (runs : Runs) (ensemble : Bool) (expected : ℤ) (members : MemberMap) (items : ByRunLead)
    (d grouped : CandidatesByValid)
    → All (KeyKept runs) items
    → All (TimeKept runs) d
    → group_candidates ensemble expected members items d ≡ ok grouped
    → All (TimeKept runs) grouped
unfolding group_candidates
group-kept runs ensemble expected members [] d grouped k h e =
    subst (All (TimeKept runs)) (ok-inj e) h
group-kept runs ensemble expected members (((run, lead), rec) ∷ items) d grouped k h e =
    let (t, a, b) = >>=-eq-ok (add_time rec.run_meta.cycle (lead * hour)) _ e in
    group-kept runs ensemble expected members items _ grouped k.1
      (append_candidate-kept runs t (candidate_of ensemble expected members (run, lead) rec) d
        (λ c f. candidate_of-kept runs ensemble expected members run lead rec c k.0 f) h)
      b

insert_by_lead-kept :
    (runs : Runs) (c : CanonicalCandidate) (cs : List CanonicalCandidate)
    → CandidateKept runs c
    → All (CandidateKept runs) cs
    → All (CandidateKept runs) (insert_by_lead c cs)
insert_by_lead-kept runs c [] k h = (k, tt)
insert_by_lead-kept runs c (d ∷ ds) k h =
    elim (Bool-cases (leb c.lead_time_hours d.lead_time_hours)) [
      | inl first ↦ rw first (k, h)
      | inr later ↦ rw later (h.0, insert_by_lead-kept runs c ds k h.1)
    ]

sort_by_lead-kept :
    (runs : Runs) (cs : List CanonicalCandidate)
    → All (CandidateKept runs) cs
    → All (CandidateKept runs) (sort_by_lead cs)
unfolding sort_by_lead
sort_by_lead-kept runs [] h = tt
sort_by_lead-kept runs (c ∷ cs) h =
    insert_by_lead-kept runs c (sort_by_lead cs) h.0 (sort_by_lead-kept runs cs h.1)

sort_all-kept :
    (runs : Runs) (d : CandidatesByValid) → All (TimeKept runs) d → All (TimeKept runs) (sort_all d)
unfolding sort_all
sort_all-kept runs [] h = tt
sort_all-kept runs ((t, cs) ∷ d) h = (sort_by_lead-kept runs cs h.0, sort_all-kept runs d h.1)

kept_if :
    (runs : Runs) (b : Bool) (entry : ℕ × List CanonicalCandidate) (rest : CandidatesByValid)
    → TimeKept runs entry
    → All (TimeKept runs) rest
    → All (TimeKept runs) (if b then entry ∷ rest else rest)
kept_if runs true entry rest k h = (k, h)
kept_if runs false entry rest k h = h

protected-kept :
    (runs : Runs) (r : Registry) (model : Text) (now : DateTime) (d window : CandidatesByValid)
    → All (TimeKept runs) d
    → protected_candidates r model now d ≡ ok window
    → All (TimeKept runs) window
unfolding protected_candidates
protected-kept runs r model now [] window h e = subst (All (TimeKept runs)) (ok-inj e) tt
protected-kept runs r model now ((t, cs) ∷ d) window h e =
    let (b, a, e') = >>=-eq-ok (is_valid_time_protected r (aware t) now (some model) (pos 3)) _ e in
    let (rest, c, e'') = >>=-eq-ok (protected_candidates r model now d) _ e' in
    subst (All (TimeKept runs)) (ok-inj e'')
      (kept_if runs b (t, cs) rest h.0 (protected-kept runs r model now d rest h.1 c))

-- From the leads of the loop over the product rows to the serving window.
pub window-kept :
    (runs : Runs) (r : Registry) (model : Text) (now : DateTime) (ensemble : Bool) (expected : ℤ)
    (members : MemberMap) (items : ByRunLead) (grouped window : CandidatesByValid)
    → All (KeyKept runs) items
    → group_candidates ensemble expected members items [] ≡ ok grouped
    → protected_candidates r model now (sort_all grouped) ≡ ok window
    → All (TimeKept runs) window
window-kept runs r model now ensemble expected members items grouped window k e f =
    protected-kept runs r model now (sort_all grouped) window
      (sort_all-kept runs grouped
        (group-kept runs ensemble expected members items [] grouped k tt e))
      f
