-- ===== src/Ingest/Reclaim/Window.antt =====
-- gc/planner.py: the candidates by valid time, and those of the serving window.
use weather.Common.{
  ℕ, ◌*◌, ◌≡◌, refl, sym, ◌∙◌, Bool, true, false, Option, none, some, List, [], ◌∷◌, ◌==◌,
  if◌then◌else◌, Bool-cases, inl, inr, arith, subst,
}
use weather.Common.Int.{ℤ, pos}
use weather.Common.Result.{ok, >>=-eq-ok, ok-inj}
use weather.Common.Text.{Text}
use weather.Common.Dict.{lookup, insert, lookup-insert, nat_key}
use weather.Domain.Time.{DateTime, aware, add_time, hour}
use weather.Domain.Horizon.{Registry}
use weather.Domain.Temporal.{is_valid_time_protected}
use weather.Domain.Canonical.{CanonicalCandidate}
use weather.Domain.Canonical.Bulk.Agreement.{IsDict}
use weather.Ingest.Reclaim.{
  MemberMap, ByRunLead, CandidatesByValid, candidate_of, append_candidate, group_candidates,
  sort_all,
}
use weather.Ingest.Reclaim.Pass.{protected_candidates}

insert-IsDict :
    (t : ℕ) (cs : List CanonicalCandidate) (d : CandidatesByValid)
    → IsDict d
    → IsDict (insert t cs d)
unfolding IsDict
insert-IsDict t cs [] h = (refl, tt)
insert-IsDict t cs ((s, ds) ∷ d) h = elim (Bool-cases (s == t)) [
  | inl same ↦ rw same h
  | inr other ↦
      rw other (ground (arith, lookup-insert t s cs d, h.0, other), insert-IsDict t cs d h.1)
]

append_candidate-IsDict :
    (t : ℕ) (o : Option CanonicalCandidate) (d : CandidatesByValid)
    → IsDict d
    → IsDict (append_candidate t o d)
append_candidate-IsDict t none d h = h
append_candidate-IsDict t (some c) d h = insert-IsDict t _ d h

group-IsDict :
    (ensemble : Bool) (expected : ℤ) (members : MemberMap) (items : ByRunLead)
    (d grouped : CandidatesByValid)
    → IsDict d
    → group_candidates ensemble expected members items d ≡ ok grouped
    → IsDict grouped
unfolding group_candidates
group-IsDict ensemble expected members [] d grouped h e = subst IsDict (ok-inj e) h
group-IsDict ensemble expected members (((run, lead), rec) ∷ items) d grouped h e =
    let (t, a, b) = >>=-eq-ok (add_time rec.run_meta.cycle (lead * hour)) _ e in
    group-IsDict ensemble expected members items _ grouped
      (append_candidate-IsDict t (candidate_of ensemble expected members (run, lead) rec) d h) b

sort_all-none : (k : ℕ) (d : CandidatesByValid) → lookup k d ≡ none → lookup k (sort_all d) ≡ none
unfolding sort_all
sort_all-none k [] h = refl
sort_all-none k ((t, cs) ∷ d) h = elim (Bool-cases (t == k)) [
  | inl same ↦ absurd (ground (arith, h, same))
  | inr other ↦ rw other (sort_all-none k d (ground (arith, h, other)))
]

sort_all-IsDict : (d : CandidatesByValid) → IsDict d → IsDict (sort_all d)
unfolding sort_all IsDict
sort_all-IsDict [] h = tt
sort_all-IsDict ((t, cs) ∷ d) h = (sort_all-none t d h.0, sort_all-IsDict d h.1)

module _ (r : Registry) (model : Text) (now : DateTime) where
  kept-none :
      (k : ℕ) (b : Bool) (t : ℕ) (cs : List CanonicalCandidate) (rest : CandidatesByValid)
      → (t == k) ≡ false
      → lookup k rest ≡ none
      → lookup k (if b then (t, cs) ∷ rest else rest) ≡ none
  kept-none k true t cs rest other h = rw other h
  kept-none k false t cs rest other h = h

  kept-IsDict :
      (b : Bool) (t : ℕ) (cs : List CanonicalCandidate) (rest : CandidatesByValid)
      → lookup t rest ≡ none
      → IsDict rest
      → IsDict (if b then (t, cs) ∷ rest else rest)
  unfolding IsDict
  kept-IsDict true t cs rest n h = (n, h)
  kept-IsDict false t cs rest n h = h

  protected-none :
      (k : ℕ) (d window : CandidatesByValid)
      → lookup k d ≡ none
      → protected_candidates r model now d ≡ ok window
      → lookup k window ≡ none
  unfolding protected_candidates
  protected-none k [] window h e =
      subst (λ (w : CandidatesByValid). lookup k w ≡ none) (ok-inj e) refl
  protected-none k ((t, cs) ∷ d) window h e = elim (Bool-cases (t == k)) [
    | inl same ↦ absurd (ground (arith, h, same))
    | inr other ↦
        let (b, a, e') =
          >>=-eq-ok (is_valid_time_protected r (aware t) now (some model) (pos 3)) _ e in
        let (rest, c, e'') = >>=-eq-ok (protected_candidates r model now d) _ e' in
        subst (λ (w : CandidatesByValid). lookup k w ≡ none) (ok-inj e'')
          (kept-none k b t cs rest other (protected-none k d rest (ground (arith, h, other)) c))
  ]

  protected-IsDict :
      (d window : CandidatesByValid)
      → IsDict d
      → protected_candidates r model now d ≡ ok window
      → IsDict window
  unfolding protected_candidates IsDict
  protected-IsDict [] window h e = subst IsDict (ok-inj e) tt
  protected-IsDict ((t, cs) ∷ d) window h e =
      let (b, a, e') =
        >>=-eq-ok (is_valid_time_protected r (aware t) now (some model) (pos 3)) _ e in
      let (rest, c, e'') = >>=-eq-ok (protected_candidates r model now d) _ e' in
      subst IsDict (ok-inj e'')
        (kept-IsDict b t cs rest (protected-none t d rest h.0 c) (protected-IsDict d rest h.1 c))

  kept-some :
      (k : ℕ) (b : Bool) (t : ℕ) (cs found : List CanonicalCandidate) (rest : CandidatesByValid)
      → (t == k) ≡ false
      → lookup k rest ≡ some found
      → lookup k (if b then (t, cs) ∷ rest else rest) ≡ some found
  kept-some k true t cs found rest other h = rw other h
  kept-some k false t cs found rest other h = h

  -- The window has every protected time that has candidates, with all of them.
  pub protected-lookup :
      (k : ℕ) (found : List CanonicalCandidate) (d window : CandidatesByValid)
      → lookup k d ≡ some found
      → is_valid_time_protected r (aware k) now (some model) (pos 3) ≡ ok true
      → protected_candidates r model now d ≡ ok window
      → lookup k window ≡ some found
  unfolding protected_candidates
  protected-lookup k found [] window h p e = cc
  protected-lookup k found ((t, cs) ∷ d) window h p e =
      let (b, a, e') =
        >>=-eq-ok (is_valid_time_protected r (aware t) now (some model) (pos 3)) _ e in
      let (rest, c, e'') = >>=-eq-ok (protected_candidates r model now d) _ e' in
      subst (λ (w : CandidatesByValid). lookup k w ≡ some found) (ok-inj e'')
        (elim (Bool-cases (t == k)) [
          | inr other ↦
              kept-some k b t cs found rest other
                (protected-lookup k found d rest (ground (arith, h, other)) p c)
          | inl same ↦
              let at : t ≡ k = ground (arith, same) in
              let kept : b ≡ true = ok-inj (
                sym a
                ∙ subst
                    (λ (i : ℕ).
                      is_valid_time_protected r (aware i) now (some model) (pos 3) ≡ ok true)
                    (sym at) p) in
              subst (λ (x : Bool). lookup k (if x then (t, cs) ∷ rest else rest) ≡ some found)
                (sym kept) (ground (arith, h, same))
        ])

-- The serving window has each time once.
pub window-IsDict :
    (r : Registry) (model : Text) (now : DateTime) (ensemble : Bool) (expected : ℤ)
    (members : MemberMap) (items : ByRunLead) (grouped window : CandidatesByValid)
    → group_candidates ensemble expected members items [] ≡ ok grouped
    → protected_candidates r model now (sort_all grouped) ≡ ok window
    → IsDict window
unfolding IsDict
window-IsDict r model now ensemble expected members items grouped window e f =
    protected-IsDict r model now (sort_all grouped) window
      (sort_all-IsDict grouped (group-IsDict ensemble expected members items [] grouped tt e)) f
