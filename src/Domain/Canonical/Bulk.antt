-- ===== src/Domain/Canonical/Bulk.antt =====
-- packages/domain/src/domain/canonical.py: `select_canonical_sources_bulk`, the resolution of
-- all valid times at once. The keys of the results are a variable and a valid time.
pub mod Pass
pub mod Agreement
use weather.Common.{
  ℕ, zero, map, ◌≡◌, ◌↔◌, arith, suc, ◌*◌, Bool, true, false, not, ◌&&◌, ◌||◌, Option, none, some,
  List, [], ◌∷◌, ltb, leb, ◌==◌, if◌then◌else◌, length, first, any, keep,
}
use weather.Common.Int.{ℤ, leb_ℤ}
use weather.Common.Result.{Result}
use weather.Common.Text.{Text, codes, text_eq, text_eq_iff}
use weather.Common.Dict.{Dict, insert, Key, nat_key}
use weather.Domain.Time.{DateTime, ensure_utc, add_time, hour}
use weather.Domain.Temporal.{is_precipitation_companion, requires_lead0_display_fallback}
use weather.Domain.Coverage.{is_lead_servable, default_threshold}
use weather.Domain.Reclamation.{has, is_subset, det, mean, mem}
use weather.Domain.Canonical.{CanonicalCandidate, select_variable_source, precipitation}

-- Keys (variable, valid time) of the results.
abbrev pub VarTime : Type 0
VarTime = Text × ℕ

pub record CanonicalResolutionResult : Type 0 where
  pub anchors : Dict ℕ CanonicalCandidate
  pub variable_sources : Dict VarTime (Option CanonicalCandidate)
  pub interval_fallbacks : Dict VarTime CanonicalCandidate
  pub companion_dependencies : Dict VarTime CanonicalCandidate

pub var_time_iff : (p q : VarTime) → ((text_eq p.0 q.0 && (p.1 == q.1)) ≡ true) ↔ (p ≡ q)
var_time_iff (a, s) (b, t) = ground (arith, text_eq_iff a b)

instance abbrev pub var_time_key : Key VarTime
var_time_key = record {
  eq = λ p q. text_eq p.0 q.0 && (p.1 == q.1);
  eq_iff = λ p q. var_time_iff p q;
}

-- `if source is not None: d[key] = source`, when the test holds.
abbrev pub insert_source :
    Bool
    → VarTime
    → Option CanonicalCandidate
    → Dict VarTime CanonicalCandidate
    → Dict VarTime CanonicalCandidate
insert_source test key none d = d
insert_source test key (some c) d = if test then insert key c d else d

abbrev pub companions : List Text
companions = codes "crain" ∷ codes "csnow" ∷ codes "cfrzr" ∷ codes "cicep" ∷ []

abbrev pub with_companion :
    Text → ℕ → Option CanonicalCandidate → CanonicalResolutionResult → CanonicalResolutionResult
with_companion comp t p_src r = record r {
  variable_sources = insert (comp, t) p_src r.variable_sources;
  companion_dependencies = insert_source true (comp, t) p_src r.companion_dependencies;
}

-- The loop over the companions, which share the source of precipitation.
unfoldable pub resolve_companions :
    List Text
    → List Text
    → ℕ
    → Option CanonicalCandidate
    → CanonicalResolutionResult
    → CanonicalResolutionResult
resolve_companions [] var_list t p_src r = r
resolve_companions (comp ∷ comps) var_list t p_src r =
    resolve_companions comps var_list t p_src
      (if has var_list comp then with_companion comp t p_src r else r)

abbrev pub needs_precipitation : List Text → Bool
needs_precipitation var_list =
    has var_list precipitation || any (λ v. is_precipitation_companion (some v)) var_list

abbrev pub is_analysis : CanonicalCandidate → Bool
is_analysis anchor = anchor.lead_time_hours == 0

abbrev pub with_precipitation :
    ℕ
    → CanonicalCandidate
    → Option CanonicalCandidate
    → CanonicalResolutionResult
    → CanonicalResolutionResult
with_precipitation t anchor p_src r = record r {
  variable_sources = insert (precipitation, t) p_src r.variable_sources;
  interval_fallbacks =
      insert_source (is_analysis anchor) (precipitation, t) p_src r.interval_fallbacks;
}

-- The part of the loop body that resolves precipitation and its companions.
unfoldable pub resolve_precipitation :
    List Text
    → ℕ
    → List CanonicalCandidate
    → CanonicalCandidate
    → CanonicalResolutionResult
    → CanonicalResolutionResult
unfolding resolve_companions
resolve_precipitation var_list t cands anchor r =
    if needs_precipitation var_list
    then (let p_src = select_variable_source cands precipitation (some anchor) in
        resolve_companions companions var_list t p_src (with_precipitation t anchor p_src r))
    else r

abbrev pub with_variable :
    Text
    → ℕ
    → List CanonicalCandidate
    → CanonicalCandidate
    → CanonicalResolutionResult
    → CanonicalResolutionResult
with_variable v t cands anchor r =
    let src = select_variable_source cands v (some anchor) in
    record r {
      variable_sources = insert (v, t) src r.variable_sources;
      interval_fallbacks =
          insert_source (text_eq v (codes "cloud_cover_3h") && is_analysis anchor) (v, t) src
            r.interval_fallbacks;
    }

-- The loop over the other variables.
unfoldable pub resolve_variables :
    List Text
    → ℕ
    → List CanonicalCandidate
    → CanonicalCandidate
    → CanonicalResolutionResult
    → CanonicalResolutionResult
resolve_variables [] t cands anchor r = r
resolve_variables (v ∷ vs) t cands anchor r = resolve_variables vs t cands anchor (
    if text_eq v precipitation || is_precipitation_companion (some v)
    then r
    else with_variable v t cands anchor r)

-- The tests at the head of the loop body.
abbrev pub is_wanted : Option ℕ → Option (List ℕ) → ℕ → Bool
is_wanted start allowed t =
    not (elim start [ none ↦ false | some s ↦ ltb t s ])
    && elim allowed [ none ↦ true | some ts ↦ any (◌==◌ t) ts ]

unfoldable pub resolve_time :
    List Text
    → Bool
    → ℕ
    → List CanonicalCandidate
    → CanonicalResolutionResult
    → CanonicalResolutionResult
unfolding resolve_precipitation resolve_variables
resolve_time var_list false t cands r = r
resolve_time var_list true t [] r = r
resolve_time var_list true t (anchor ∷ older) r =
    resolve_variables var_list t (anchor ∷ older) anchor (
      resolve_precipitation var_list t (anchor ∷ older) anchor
        (record r { anchors = insert t anchor r.anchors }))

unfoldable pub resolve_times :
    List Text
    → (ℕ → Bool)
    → Dict ℕ (List CanonicalCandidate)
    → CanonicalResolutionResult
    → CanonicalResolutionResult
unfolding resolve_time
resolve_times var_list wanted [] r = r
resolve_times var_list wanted ((t, cands) ∷ items) r =
    resolve_times var_list wanted items (resolve_time var_list (wanted t) t cands r)

-- `sorted` on the items of a dictionary, by their keys.
abbrev pub insert_sorted {ℓ} : {A : Type ℓ} → ℕ → A → List (ℕ × A) → List (ℕ × A)
insert_sorted t x [] = (t, x) ∷ []
insert_sorted t x ((s, y) ∷ d) =
    if leb t s then (t, x) ∷ (s, y) ∷ d else (s, y) ∷ insert_sorted t x d

abbrev pub sort_items {ℓ} : {A : Type ℓ} → List (ℕ × A) → List (ℕ × A)
sort_items [] = []
sort_items ((t, x) ∷ d) = insert_sorted t x (sort_items d)

abbrev pub no_resolution : CanonicalResolutionResult
no_resolution = record {
  anchors = [];
  variable_sources = [];
  interval_fallbacks = [];
  companion_dependencies = [];
}

-- `list(variables) if variables is not None else []`
abbrev pub variable_list : Option (List Text) → List Text
variable_list none = []
variable_list (some vs) = vs

-- `{_ensure_utc(vt) for vt in target_valid_times}`
abbrev pub allowed_times : Option (List DateTime) → Option (List ℕ)
allowed_times none = none
allowed_times (some ts) = some (map ensure_utc ts)

unfoldable pub select_canonical_sources_bulk :
    Dict ℕ (List CanonicalCandidate)
    → Option (List Text)
    → Option (List DateTime)
    → Option ℕ
    → CanonicalResolutionResult
unfolding resolve_times
select_canonical_sources_bulk candidates_by_valid vars targets start =
    resolve_times (variable_list vars) (is_wanted start (allowed_times targets))
      (sort_items candidates_by_valid) no_resolution
