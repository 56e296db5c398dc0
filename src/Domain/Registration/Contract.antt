-- ===== src/Domain/Registration/Contract.antt =====
-- model_registration.py: what a clean audit promises of the three registries.
use weather.Common.{
  ℕ, ◌≡◌, refl, sym, ap, ◌∙◌, subst, Bool, true, false, ◌&&◌, ◌||◌, not, Option, none, List, [],
  ◌∷◌, keep, any, all, Bool-cases, Option-cases, inl, inr, arith,
}
use weather.Common.Int.{ℤ}
use weather.Common.Result.{ok}
use weather.Common.Text.{Text, text_eq, text_eq_iff, normalize}
use weather.Common.Sorted.{text_ltb, any-insert_distinct}
use weather.Common.Normal.{normalize_idem}
use weather.Common.Dict.{lookup, contains, text_key}
use weather.Domain.Horizon.{
  Registry, is_canonical_lead_horizon_registered, is_empty, version_horizon,
  canonical_lead_time_hours,
}
use weather.Domain.Cadence.{
  CadenceTable, is_cycle_cadence_registered, canonical_cycle_cadence_hours,
}
use weather.Domain.Coverage.{MemberTable, is_expected_members_registered, get_expected_members}
use weather.Domain.Registration.{is_clean, normalized, audit_model_registration}

-- An audit reads the normal forms of the models that are not empty.
any-normalized :
    (p : Text → Bool) (ms : List Text)
    → any p (normalized ms) ≡ any (λ m. not (is_empty m) && p (normalize m)) ms
unfolding normalized
any-normalized p [] = refl
any-normalized p ([] ∷ ms) = any-normalized p ms
any-normalized p ((c ∷ m) ∷ ms) =
    any-insert_distinct text_ltb text_eq p (normalize (c ∷ m)) (normalized ms)
      (λ y. (text_eq_iff (normalize (c ∷ m)) y).0)
    ∙ ap (λ b. p (normalize (c ∷ m)) || b) (any-normalized p ms)

is_empty-keep : (p : Text → Bool) (xs : List Text) → is_empty (keep p xs) ≡ not (any p xs)
is_empty-keep p [] = refl
is_empty-keep p (x ∷ xs) = elim (Bool-cases (p x)) [
  | inl y ↦ rw y refl
  | inr n ↦ rw n (is_empty-keep p xs)
]

abbrev is_registered : Registry → CadenceTable → MemberTable → Text → Bool
is_registered horizons cadences members m =
    is_canonical_lead_horizon_registered horizons m
    && is_cycle_cadence_registered cadences m
    && is_expected_members_registered members m

-- Each registry takes the normal form of a model for the model.
same_horizon :
    (horizons : Registry) (m : Text)
    → is_canonical_lead_horizon_registered horizons (normalize m)
      ≡ is_canonical_lead_horizon_registered horizons m
unfolding is_canonical_lead_horizon_registered
same_horizon horizons m =
    ap (λ (k : Text). contains k horizons.canonical_horizons) (normalize_idem m)

same_cadence :
    (cadences : CadenceTable) (m : Text)
    → is_cycle_cadence_registered cadences (normalize m) ≡ is_cycle_cadence_registered cadences m
unfolding is_cycle_cadence_registered
same_cadence cadences m = ap (λ (k : Text). contains k cadences) (normalize_idem m)

same_members :
    (members : MemberTable) (m : Text)
    → is_expected_members_registered members (normalize m)
      ≡ is_expected_members_registered members m
unfolding is_expected_members_registered
same_members members m = ap (λ (k : Text). contains k members) (normalize_idem m)

-- No model that is not empty fails one of three tests.
none_fails :
    (f g h k : Text → Bool) (ms : List Text)
    → not (
        any (λ m. not (f m) && not (g m)) ms
        || any (λ m. not (f m) && not (h m)) ms
        || any (λ m. not (f m) && not (k m)) ms)
      ≡ all (λ m. f m || (g m && h m && k m)) ms
none_fails f g h k [] = refl
none_fails f g h k (m ∷ ms) = ground (arith, none_fails f g h k ms)

-- Whether a registry misses a model, in the words of the list that the audit was given.
missing_any :
    (registered : Text → Bool) (ms : List Text)
    → ((m : Text) → registered (normalize m) ≡ registered m)
    → is_empty (keep (λ m. not (registered m)) (normalized ms))
      ≡ not (any (λ m. not (is_empty m) && not (registered m)) ms)
missing_any registered ms same =
    is_empty-keep (λ m. not (registered m)) (normalized ms)
    ∙ ap not (
        any-normalized (λ m. not (registered m)) ms
        ∙ ap (λ (p : Text → Bool). any p ms) (λ i m. not (is_empty m) && not (same m i)))

clean_by :
    (x y z a b c : Bool)
    → x ≡ not a
    → y ≡ not b
    → z ≡ not c
    → not (not x || not y || not z) ≡ not (a || b || c)
clean_by x y z a b c e f g = ground (arith, e, f, g)

pub audit-is_clean :
    (horizons : Registry) (cadences : CadenceTable) (members : MemberTable) (ms : List Text)
    → is_clean (audit_model_registration horizons cadences members ms)
      ≡ all (λ m. is_empty m || is_registered horizons cadences members m) ms
unfolding is_clean audit_model_registration
audit-is_clean horizons cadences members ms =
    clean_by _ _ _ _ _ _
      (missing_any (is_canonical_lead_horizon_registered horizons) ms (same_horizon horizons))
      (missing_any (is_cycle_cadence_registered cadences) ms (same_cadence cadences))
      (missing_any (is_expected_members_registered members) ms (same_members members))
    ∙ none_fails is_empty (is_canonical_lead_horizon_registered horizons)
        (is_cycle_cadence_registered cadences) (is_expected_members_registered members) ms

found_has :
    (p : Text → Bool) (m : Text) (ms : List Text)
    → all p ms ≡ true
    → any (text_eq m) ms ≡ true
    → p m ≡ true
found_has p m [] h e = cc
found_has p m (x ∷ ms) h e = elim (Bool-cases (text_eq m x)) [
  | inl same ↦ subst (λ (y : Text). p y ≡ true) (sym ((text_eq_iff m x).0 same)) (ground (arith, h))
  | inr other ↦ found_has p m ms (ground (arith, h)) (ground (arith, e, other))
]

horizon_known :
    (horizons : Registry) (m : Text) (version : Option Text)
    → is_canonical_lead_horizon_registered horizons m ≡ true
    → (leads : List ℕ) × (canonical_lead_time_hours horizons m version none ≡ ok leads)
unfolding is_canonical_lead_horizon_registered canonical_lead_time_hours
horizon_known horizons m version h = elim (Option-cases (version_horizon horizons m version)) [
  | inr (leads, own) ↦ (leads, rw (canonical_lead_time_hours, own) refl)
  | inl no_own ↦ elim (Option-cases (lookup (normalize m) horizons.canonical_horizons)) [
    | inr (leads, found) ↦ (leads, rw (canonical_lead_time_hours, no_own, found) refl)
    | inl absent ↦ absurd (ground (arith, h, absent))
  ]
]

cadence_known :
    (cadences : CadenceTable) (m : Text) (d : Option ℤ)
    → is_cycle_cadence_registered cadences m ≡ true
    → canonical_cycle_cadence_hours cadences m d ≡ canonical_cycle_cadence_hours cadences m none
unfolding is_cycle_cadence_registered canonical_cycle_cadence_hours
cadence_known cadences m d h = elim (Option-cases (lookup (normalize m) cadences)) [
  | inr (hours, found) ↦ rw (canonical_cycle_cadence_hours, found) refl
  | inl absent ↦ absurd (ground (arith, h, absent))
]

members_known :
    (members : MemberTable) (m : Text) (d : Option ℤ)
    → is_expected_members_registered members m ≡ true
    → get_expected_members members m d ≡ get_expected_members members m none
unfolding is_expected_members_registered get_expected_members
members_known members m d h = elim (Option-cases (lookup (normalize m) members)) [
  | inr (count, found) ↦ rw (get_expected_members, found) refl
  | inl absent ↦ absurd (ground (arith, h, absent))
]

-- When the audit of some models is clean, then for each of them whose id is not empty the lookup
-- of the horizon without a default returns, with any version, and the defaults that callers pass
-- for the cadence and for the number of members change nothing.
pub clean_needs_no_default :
    (horizons : Registry) (cadences : CadenceTable) (members : MemberTable) (ms : List Text)
    (m : Text) (version : Option Text) (d e : Option ℤ)
    → is_clean (audit_model_registration horizons cadences members ms) ≡ true
    → any (text_eq m) ms ≡ true
    → is_empty m ≡ false
    → ((leads : List ℕ) × (canonical_lead_time_hours horizons m version none ≡ ok leads))
      × (canonical_cycle_cadence_hours cadences m d ≡ canonical_cycle_cadence_hours cadences m none)
      × (get_expected_members members m e ≡ get_expected_members members m none)
clean_needs_no_default horizons cadences members ms m version d e clean among full =
    let all_known = sym (audit-is_clean horizons cadences members ms) ∙ clean in
    let known =
      found_has (λ m. is_empty m || is_registered horizons cadences members m) m ms all_known
        among in
    (
      horizon_known horizons m version (ground (arith, known, full)),
      cadence_known cadences m d (ground (arith, known, full)),
      members_known members m e (ground (arith, known, full)),
    )
