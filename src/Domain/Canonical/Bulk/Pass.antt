-- ===== src/Domain/Canonical/Bulk/Pass.antt =====
-- canonical.py, `select_canonical_sources_bulk`: what one pass of the loop records.
use weather.Common.{
  ℕ, ◌≡◌, refl, ◌∙◌, inl, inr, Bool, true, false, not, Option, some, List, [], ◌∷◌, arith,
  Bool-cases, if◌then◌else◌, ◌&&◌, ◌||◌, ◌==◌,
}
use weather.Common.Text.{Text, text_eq, text_eq_iff}
use weather.Common.Dict.{Dict, lookup, insert, lookup-insert, nat_key}
use weather.Domain.Reclamation.{has}
use weather.Domain.Temporal.{is_precipitation_companion}
use weather.Domain.Canonical.{CanonicalCandidate, precipitation, select_variable_source}
use weather.Domain.Canonical.Bulk.{
  VarTime, var_time_key, CanonicalResolutionResult, companions, resolve_companions,
  needs_precipitation, resolve_precipitation, resolve_variables, with_companion, with_precipitation,
  with_variable,
}

text_eq_sym : (a b : Text) → text_eq a b ≡ text_eq b a
text_eq_sym a b = ground (arith, text_eq_iff a b, text_eq_iff b a)

lookup-insert_time :
    {A : Type 0} (v w : Text) (t s : ℕ) (x : A) (d : Dict VarTime A)
    → lookup (w, s) (insert (v, t) x d)
      ≡ (if text_eq w v && (s == t) then some x else lookup (w, s) d)
lookup-insert_time v w t s x d = ground (arith, lookup-insert (v, t) (w, s) x d, text_eq_sym v w)

abbrev pub skips : Text → Bool
skips v = text_eq v precipitation || is_precipitation_companion (some v)

pub same-text {ℓ} : {A : Type ℓ} (w v : Text) (f : Text → A) → text_eq w v ≡ true → f v ≡ f w
same-text w v f e = rw ((text_eq_iff w v).0 e) refl

companion-step :
    {A : Type 0} (w comp : Text) (later here : Bool) (var_list : List Text) (x y : A)
    → (if here && (later && has var_list w)
        then x
        else (if has var_list comp && (text_eq w comp && here) then x else y))
      ≡ (if here && ((text_eq w comp || later) && has var_list w) then x else y)
companion-step w comp later here var_list x y = elim (Bool-cases (text_eq w comp)) [
  | inl e ↦ ground (arith, e, same-text w comp (has var_list) e)
  | inr n ↦ ground (arith, n)
]

variable-step :
    {A : Type 0} (w v : Text) (later here : Bool) (f : Text → A) (y : A)
    → (if here && (later && not (skips w))
        then f w
        else (if not (skips v) && (text_eq w v && here) then f v else y))
      ≡ (if here && ((text_eq w v || later) && not (skips w)) then f w else y)
variable-step w v later here f y = elim (Bool-cases (text_eq w v)) [
  | inl e ↦ ground (arith, e, same-text w v f e, same-text w v skips e)
  | inr n ↦ ground (arith, n)
]

with_companion-lookup :
    (listed : Bool) (comp : Text) (t : ℕ) (p_src : Option CanonicalCandidate)
    (r : CanonicalResolutionResult) (w : Text) (s : ℕ)
    → lookup (w, s) (if listed then with_companion comp t p_src r else r).variable_sources ≡ (
        if listed && (text_eq w comp && (s == t))
        then some p_src
        else lookup (w, s) r.variable_sources)
with_companion-lookup true comp t p_src r w s =
    lookup-insert_time comp w t s p_src r.variable_sources
with_companion-lookup false comp t p_src r w s = refl

pub resolve_companions-lookup :
    (comps var_list : List Text) (t : ℕ) (p_src : Option CanonicalCandidate)
    (r : CanonicalResolutionResult) (w : Text) (s : ℕ)
    → lookup (w, s) (resolve_companions comps var_list t p_src r).variable_sources ≡ (
        if (s == t) && (has comps w && has var_list w)
        then some p_src
        else lookup (w, s) r.variable_sources)
unfolding resolve_companions
resolve_companions-lookup [] var_list t p_src r w s = ground arith
resolve_companions-lookup (comp ∷ comps) var_list t p_src r w s =
    resolve_companions-lookup comps var_list t p_src _ w s
    ∙ rw (with_companion-lookup (has var_list comp) comp t p_src r w s)
        (companion-step w comp (has comps w) (s == t) var_list _ _)

with_variable-lookup :
    (skipped : Bool) (v : Text) (t : ℕ) (cands : List CanonicalCandidate)
    (anchor : CanonicalCandidate) (r : CanonicalResolutionResult) (w : Text) (s : ℕ)
    → lookup (w, s) (if skipped then r else with_variable v t cands anchor r).variable_sources ≡ (
        if not skipped && (text_eq w v && (s == t))
        then some (select_variable_source cands v (some anchor))
        else lookup (w, s) r.variable_sources)
with_variable-lookup true v t cands anchor r w s = refl
with_variable-lookup false v t cands anchor r w s = lookup-insert_time v w t s _ r.variable_sources

pub resolve_variables-lookup :
    (vs : List Text) (t : ℕ) (cands : List CanonicalCandidate) (anchor : CanonicalCandidate)
    (r : CanonicalResolutionResult) (w : Text) (s : ℕ)
    → lookup (w, s) (resolve_variables vs t cands anchor r).variable_sources ≡ (
        if (s == t) && (has vs w && not (skips w))
        then some (select_variable_source cands w (some anchor))
        else lookup (w, s) r.variable_sources)
unfolding resolve_variables
resolve_variables-lookup [] t cands anchor r w s = ground arith
resolve_variables-lookup (v ∷ vs) t cands anchor r w s =
    resolve_variables-lookup vs t cands anchor _ w s
    ∙ rw (with_variable-lookup (skips v) v t cands anchor r w s) (
        variable-step w v (has vs w) (s == t)
          (λ u. some (select_variable_source cands u (some anchor))) _)

precipitation-lookup :
    (needed : Bool) (var_list : List Text) (t : ℕ) (p_src : Option CanonicalCandidate)
    (r q : CanonicalResolutionResult) (w : Text) (s : ℕ)
    → lookup
        (w, s)
        (if needed then resolve_companions companions var_list t p_src q else r).variable_sources
      ≡ (if needed
          then (if (s == t) && (has companions w && has var_list w)
              then some p_src
              else lookup (w, s) q.variable_sources)
          else lookup (w, s) r.variable_sources)
precipitation-lookup true var_list t p_src r q w s =
    resolve_companions-lookup companions var_list t p_src q w s
precipitation-lookup false var_list t p_src r q w s = refl

pub resolve_precipitation-lookup :
    (var_list : List Text) (t : ℕ) (cands : List CanonicalCandidate) (anchor : CanonicalCandidate)
    (r : CanonicalResolutionResult) (w : Text) (s : ℕ)
    → lookup (w, s) (resolve_precipitation var_list t cands anchor r).variable_sources ≡ (
        if needs_precipitation var_list
          && ((s == t) && (text_eq w precipitation || (has companions w && has var_list w)))
        then some (select_variable_source cands precipitation (some anchor))
        else lookup (w, s) r.variable_sources)
unfolding resolve_precipitation
resolve_precipitation-lookup var_list t cands anchor r w s =
    let p_src = select_variable_source cands precipitation (some anchor) in
    precipitation-lookup (needs_precipitation var_list) var_list t p_src r
      (with_precipitation t anchor p_src r) w s
    ∙ ground (arith, lookup-insert_time precipitation w t s p_src r.variable_sources)

-- The anchors are recorded before anything else, and left alone after that.
resolve_companions-anchors :
    (comps var_list : List Text) (t : ℕ) (p_src : Option CanonicalCandidate)
    (r : CanonicalResolutionResult)
    → (resolve_companions comps var_list t p_src r).anchors ≡ r.anchors
unfolding resolve_companions
resolve_companions-anchors [] var_list t p_src r = refl
resolve_companions-anchors (comp ∷ comps) var_list t p_src r =
    resolve_companions-anchors comps var_list t p_src _ ∙ go (has var_list comp)
  where
    go : (b : Bool) → (if b then with_companion comp t p_src r else r).anchors ≡ r.anchors
    go true = refl
    go false = refl

pub resolve_precipitation-anchors :
    (var_list : List Text) (t : ℕ) (cands : List CanonicalCandidate) (anchor : CanonicalCandidate)
    (r : CanonicalResolutionResult)
    → (resolve_precipitation var_list t cands anchor r).anchors ≡ r.anchors
unfolding resolve_precipitation
resolve_precipitation-anchors var_list t cands anchor r =
    go (needs_precipitation var_list)
      (with_precipitation t anchor (select_variable_source cands precipitation (some anchor)) r)
      refl
  where
    go :
        (b : Bool) (q : CanonicalResolutionResult)
        → q.anchors ≡ r.anchors
        → (if b
            then resolve_companions companions var_list t
                (select_variable_source cands precipitation (some anchor))
                q
            else r).anchors
          ≡ r.anchors
    go true q e = resolve_companions-anchors companions var_list t _ q ∙ e
    go false q e = refl

pub resolve_variables-anchors :
    (vs : List Text) (t : ℕ) (cands : List CanonicalCandidate) (anchor : CanonicalCandidate)
    (r : CanonicalResolutionResult)
    → (resolve_variables vs t cands anchor r).anchors ≡ r.anchors
unfolding resolve_variables
resolve_variables-anchors [] t cands anchor r = refl
resolve_variables-anchors (v ∷ vs) t cands anchor r =
    resolve_variables-anchors vs t cands anchor _ ∙ go (skips v)
  where
    go : (b : Bool) → (if b then r else with_variable v t cands anchor r).anchors ≡ r.anchors
    go true = refl
    go false = refl
