-- ===== src/Domain/Canonical/Bulk/Agreement.antt =====
-- canonical.py, `select_canonical_sources_bulk`: it agrees with the functions for one valid time.
use weather.Common.{
  ℕ, ◌≡◌, refl, sym, ap, ◌∙◌, inl, inr, Bool, true, false, Option, none, some, List, [], ◌∷◌, any,
  arith, Bool-cases, if◌then◌else◌, leb, ◌==◌,
}
use weather.Common.Text.{Text, text_eq}
use weather.Common.Dict.{Dict, lookup, insert, lookup-insert, lookup-insert_self, nat_key}
use weather.Domain.Time.{DateTime}
use weather.Domain.Reclamation.{has}
use weather.Domain.Temporal.{is_precipitation_companion}
use weather.Domain.Canonical.{
  CanonicalCandidate, precipitation, select_variable_source, select_canonical_anchor,
}
use weather.Domain.Canonical.Source.{companion-source}
use weather.Domain.Canonical.Bulk.{
  CanonicalResolutionResult, companions, needs_precipitation, var_time_key, resolve_precipitation,
  resolve_time, resolve_times, insert_sorted, sort_items, no_resolution, variable_list, is_wanted,
  allowed_times, select_canonical_sources_bulk,
}
use weather.Domain.Canonical.Bulk.Pass.{
  skips, same-text, resolve_precipitation-lookup, resolve_variables-lookup,
  resolve_precipitation-anchors, resolve_variables-anchors,
}

-- A dictionary holds each key once.
unfoldable pub IsDict : {A : Type 0} → List (ℕ × A) → Type 0
IsDict [] = Unit
IsDict ((t, x) ∷ d) = (lookup t d ≡ none) × IsDict d

lookup-insert_sorted :
    {A : Type 0} (k t : ℕ) (x : A) (d : List (ℕ × A))
    → lookup k (insert_sorted t x d) ≡ (if t == k then some x else lookup k d)
lookup-insert_sorted k t x [] = refl
lookup-insert_sorted k t x ((s, y) ∷ d) = ground (arith, lookup-insert_sorted k t x d)

lookup-sort_items : {A : Type 0} (k : ℕ) (d : List (ℕ × A)) → lookup k (sort_items d) ≡ lookup k d
lookup-sort_items k [] = refl
lookup-sort_items k ((t, x) ∷ d) =
    lookup-insert_sorted k t x (sort_items d) ∙ rw (lookup-sort_items k d) refl

-- A variable under its own name, a companion in lower case and without spaces.
abbrev IsPlain : Text → Type 0
IsPlain w = is_precipitation_companion (some w) ≡ has companions w

any-has :
    (p : Text → Bool) (xs : List Text) (w : Text) → has xs w ≡ true → p w ≡ true → any p xs ≡ true
any-has p [] w h k = cc
any-has p (x ∷ xs) w h k = elim (Bool-cases (text_eq w x)) [
  | inl same ↦ ground (arith, k, same-text w x p same)
  | inr other ↦ ground (arith, any-has p xs w (ground (arith, h, other)) k)
]

-- Precipitation is resolved whenever it, or a companion, is asked for.
listed-needs :
    (var_list : List Text) (w : Text)
    → has var_list w ≡ true
    → skips w ≡ true
    → needs_precipitation var_list ≡ true
listed-needs var_list w h k = elim (Bool-cases (is_precipitation_companion (some w))) [
  | inl y ↦ ground (arith, any-has (λ v. is_precipitation_companion (some v)) var_list w h y)
  | inr n ↦ ground (arith, h, same-text w precipitation (has var_list) (ground (arith, n, k)))
]

-- The source of precipitation is that of every variable which the second loop skips.
skipped-source :
    (c : CanonicalCandidate) (cs : List CanonicalCandidate) (w : Text)
    → skips w ≡ true
    → select_variable_source (c ∷ cs) precipitation (some c)
      ≡ select_variable_source (c ∷ cs) w (some c)
skipped-source c cs w k = elim (Bool-cases (is_precipitation_companion (some w))) [
  | inl y ↦ sym (companion-source c cs w (some c) y)
  | inr n ↦
      same-text w precipitation (λ u. select_variable_source (c ∷ cs) u (some c)) (ground arith)
]

-- The pass over a wanted time records its anchor, and each variable that is asked for.
resolve_time-hit :
    (var_list : List Text) (t : ℕ) (c : CanonicalCandidate) (cs : List CanonicalCandidate)
    (r : CanonicalResolutionResult) (w : Text)
    → has var_list w ≡ true
    → IsPlain w
    → lookup (w, t) (resolve_time var_list true t (c ∷ cs) r).variable_sources
      ≡ some (select_variable_source (c ∷ cs) w (some c))
unfolding resolve_time
resolve_time-hit var_list t c cs r w h k =
    let q = record r { anchors = insert t c r.anchors } in
    resolve_variables-lookup var_list t (c ∷ cs) c (resolve_precipitation var_list t (c ∷ cs) c q) w
      t
    ∙ elim (Bool-cases (skips w)) [
      | inl y ↦ ground (
        arith,
        h,
        k,
        y,
        listed-needs var_list w h y,
        skipped-source c cs w y,
        resolve_precipitation-lookup var_list t (c ∷ cs) c q w t,
      )
      | inr n ↦ ground (arith, h, n)
    ]

time-anchors :
    (var_list : List Text) (t : ℕ) (c : CanonicalCandidate) (cs : List CanonicalCandidate)
    (r : CanonicalResolutionResult)
    → (resolve_time var_list true t (c ∷ cs) r).anchors ≡ insert t c r.anchors
unfolding resolve_time
time-anchors var_list t c cs r =
    resolve_variables-anchors var_list t (c ∷ cs) c _
    ∙ resolve_precipitation-anchors var_list t (c ∷ cs) c
        (record r { anchors = insert t c r.anchors })

-- The pass over one time leaves the others alone.
resolve_time-miss :
    (var_list : List Text) (wanted : Bool) (t : ℕ) (cands : List CanonicalCandidate)
    (r : CanonicalResolutionResult) (w : Text) (s : ℕ)
    → (s == t) ≡ false
    → (lookup s (resolve_time var_list wanted t cands r).anchors ≡ lookup s r.anchors)
      × (lookup (w, s) (resolve_time var_list wanted t cands r).variable_sources
          ≡ lookup (w, s) r.variable_sources)
unfolding resolve_time
resolve_time-miss var_list false t cands r w s n = (refl, refl)
resolve_time-miss var_list true t [] r w s n = (refl, refl)
resolve_time-miss var_list true t (c ∷ cs) r w s n =
    let q = record r { anchors = insert t c r.anchors } in
    (
      ap (lookup s) (time-anchors var_list t c cs r)
          ∙ ground (arith, n, lookup-insert t s c r.anchors),
      resolve_variables-lookup var_list t (c ∷ cs) c (resolve_precipitation var_list t (c ∷ cs) c q)
            w s
          ∙ ground (arith, n, resolve_precipitation-lookup var_list t (c ∷ cs) c q w s),
    )

-- The passes over other times leave a time alone.
resolve_times-miss :
    (var_list : List Text) (wanted : ℕ → Bool) (items : List (ℕ × List CanonicalCandidate))
    (r : CanonicalResolutionResult) (w : Text) (s : ℕ)
    → lookup s items ≡ none
    → (lookup s (resolve_times var_list wanted items r).anchors ≡ lookup s r.anchors)
      × (lookup (w, s) (resolve_times var_list wanted items r).variable_sources
          ≡ lookup (w, s) r.variable_sources)
unfolding resolve_times
resolve_times-miss var_list wanted [] r w s n = (refl, refl)
resolve_times-miss var_list wanted ((t, cands) ∷ items) r w s n =
    let (a, b) =
      resolve_times-miss var_list wanted items (resolve_time var_list (wanted t) t cands r) w s
        (ground (arith, n)) in
    let (c, d) = resolve_time-miss var_list (wanted t) t cands r w s (ground (arith, n)) in
    (a ∙ c, b ∙ d)

time-is :
    (var_list : List Text) (b : Bool) (t : ℕ) (cands : List CanonicalCandidate)
    (r : CanonicalResolutionResult) (c : CanonicalCandidate) (cs : List CanonicalCandidate)
    → b ≡ true
    → cands ≡ c ∷ cs
    → resolve_time var_list b t cands r ≡ resolve_time var_list true t (c ∷ cs) r
time-is var_list b t cands r c cs e f = rw (e, f) refl

first-hit :
    (var_list : List Text) (wanted : ℕ → Bool) (items : List (ℕ × List CanonicalCandidate))
    (r : CanonicalResolutionResult) (w : Text) (t : ℕ) (cands : List CanonicalCandidate)
    (c : CanonicalCandidate) (cs : List CanonicalCandidate)
    → wanted t ≡ true
    → cands ≡ c ∷ cs
    → lookup t items ≡ none
    → has var_list w ≡ true
    → IsPlain w
    → (lookup t (resolve_times var_list wanted ((t, cands) ∷ items) r).anchors ≡ some c)
      × (lookup (w, t) (resolve_times var_list wanted ((t, cands) ∷ items) r).variable_sources
          ≡ some (select_variable_source (c ∷ cs) w (some c)))
unfolding resolve_times
first-hit var_list wanted items r w t cands c cs e f n h i =
    let (a, b) =
      resolve_times-miss var_list wanted items (resolve_time var_list (wanted t) t cands r) w t n in
    let same = time-is var_list (wanted t) t cands r c cs e f in
    (
      a
          ∙ ap (λ (q : CanonicalResolutionResult). lookup t q.anchors) same
          ∙ ap (lookup t) (time-anchors var_list t c cs r)
          ∙ lookup-insert_self t c r.anchors,
      b
          ∙ ap (λ (q : CanonicalResolutionResult). lookup (w, t) q.variable_sources) same
          ∙ resolve_time-hit var_list t c cs r w h i,
    )

resolve_times-hit :
    (var_list : List Text) (wanted : ℕ → Bool) (items : List (ℕ × List CanonicalCandidate))
    (r : CanonicalResolutionResult) (w : Text) (s : ℕ) (c : CanonicalCandidate)
    (cs : List CanonicalCandidate)
    → IsDict items
    → lookup s items ≡ some (c ∷ cs)
    → wanted s ≡ true
    → has var_list w ≡ true
    → IsPlain w
    → (lookup s (resolve_times var_list wanted items r).anchors ≡ some c)
      × (lookup (w, s) (resolve_times var_list wanted items r).variable_sources
          ≡ some (select_variable_source (c ∷ cs) w (some c)))
unfolding resolve_times IsDict
resolve_times-hit var_list wanted [] r w s c cs d e k h i = absurd (ground arith)
resolve_times-hit var_list wanted ((t, cands) ∷ items) r w s c cs d e k h i =
    elim (Bool-cases (t == s)) [
      | inl same ↦
          let s-is : s ≡ t = ground arith in
          let here : wanted t ≡ true = ground (arith, k, s-is) in
          let cands-are : cands ≡ c ∷ cs = ground (arith, e, same) in
          rw s-is (
            first-hit var_list wanted items r w t cands c cs here cands-are (ground (arith, d.0)) h
              i)
      | inr other ↦
          resolve_times-hit var_list wanted items _ w s c cs d.1 (ground (arith, e, other)) k h i
    ]

IsDict-insert_sorted :
    {A : Type 0} (t : ℕ) (x : A) (d : List (ℕ × A))
    → lookup t d ≡ none
    → IsDict d
    → IsDict (insert_sorted t x d)
unfolding IsDict
IsDict-insert_sorted t x [] n h = (refl, tt)
IsDict-insert_sorted t x ((s, y) ∷ d) n h = elim (Bool-cases (leb t s)) [
  | inl below ↦ rw below (n, h)
  | inr above ↦ rw above (
    ground (arith, n, h.0, lookup-insert_sorted s t x d),
    IsDict-insert_sorted t x d (ground (arith, n)) h.1,
  )
]

IsDict-sort_items : {A : Type 0} (d : List (ℕ × A)) → IsDict d → IsDict (sort_items d)
unfolding IsDict
IsDict-sort_items [] h = tt
IsDict-sort_items ((t, x) ∷ d) h =
    IsDict-insert_sorted t x (sort_items d) (lookup-sort_items t d ∙ h.0) (IsDict-sort_items d h.1)

-- Resolving many valid times at once agrees with resolving one: for every wanted time that has
-- candidates, the anchor is the newest of them, and the source of each variable that is asked
-- for is what `select_variable_source` answers for the time and its anchor. Names of companions
-- are in lower case and without spaces.
pub bulk_agrees :
    (d : Dict ℕ (List CanonicalCandidate)) (vars : Option (List Text))
    (targets : Option (List DateTime)) (start : Option ℕ) (w : Text) (t : ℕ)
    (c : CanonicalCandidate) (cs : List CanonicalCandidate)
    → IsDict d
    → lookup t d ≡ some (c ∷ cs)
    → is_wanted start (allowed_times targets) t ≡ true
    → has (variable_list vars) w ≡ true
    → is_precipitation_companion (some w) ≡ has companions w
    → (lookup t (select_canonical_sources_bulk d vars targets start).anchors
        ≡ select_canonical_anchor (c ∷ cs))
      × (lookup (w, t) (select_canonical_sources_bulk d vars targets start).variable_sources
          ≡ some (select_variable_source (c ∷ cs) w (select_canonical_anchor (c ∷ cs))))
unfolding select_canonical_sources_bulk select_canonical_anchor
bulk_agrees d vars targets start w t c cs h e k listed plain =
    resolve_times-hit (variable_list vars) (is_wanted start (allowed_times targets)) (sort_items d)
      no_resolution w t c cs (IsDict-sort_items d h) (lookup-sort_items t d ∙ e) k listed plain
