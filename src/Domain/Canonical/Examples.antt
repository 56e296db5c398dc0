-- ===== src/Domain/Canonical/Examples.antt =====
-- Tests of canonical.py's functions, and the theorems about them at concrete inputs.
use weather.Common.{ℕ, ◌+◌, ◌*◌, ◌-◌, ◌≡◌, refl, true, none, some, List, [], ◌∷◌, All, any}
use weather.Common.Int.{pos, negsuc}
use weather.Common.Text.{codes, strip_lower}
use weather.Common.Dict.{Dict, lookup, nat_key}
use weather.Domain.Time.{aware, hour, day}
use weather.Domain.Coverage.{is_lead_servable}
use weather.Domain.Reclamation.{mean, mem}
use weather.Domain.Temporal.{is_precipitation_companion, requires_lead0_display_fallback}
use weather.Domain.Canonical.{
  CanonicalCandidate, select_own, precipitation, select_canonical_anchor, select_within,
  select_variable_source,
}
use weather.Domain.Canonical.Source.{IsSearch, represents, select_within_lem, source-IsSearch}
use weather.Domain.Canonical.Bulk.{select_canonical_sources_bulk, var_time_key}
use weather.Domain.Canonical.Bulk.Agreement.{IsDict, bulk_agrees}
use weather.Domain.Canonical.Fence.{
  FenceKey, build_fence_index, in_variables, in_members, in_means,
  filter_candidates_by_physical_fence,
}
use weather.Domain.Canonical.Fence.Index.{
  fences_variable, fences_member, fences_mean, index_refines_scan,
}
use weather.Domain.Canonical.Fence.Narrowing.{Served, filtered-Served}
use weather.Domain.Canonical.Fence.Unchanged.{TimeFree, IsFree, MembersFree}

abbrev noon : ℕ
noon = 739_868 * day + 12 * hour

-- An analysis at noon, and the forecast for noon of the cycle before it.
abbrev analysis : CanonicalCandidate
analysis = record {
  cycle_time = noon;
  lead_time_hours = 0;
  run_id = codes "run2";
  store_path = codes "s2";
  product_types = codes "surface" ∷ [];
  variables = codes "temperature_2m" ∷ codes "wind_u_10m" ∷ [];
  member_indices = none;
  status = codes "ready";
}

abbrev forecast : CanonicalCandidate
forecast = record {
  cycle_time = noon - 6 * hour;
  lead_time_hours = 6;
  run_id = codes "run1";
  store_path = codes "s1";
  product_types = codes "surface" ∷ codes "ensemble_mean" ∷ [];
  variables = codes "temperature_2m" ∷ precipitation ∷ codes "crain" ∷ [];
  member_indices = some (pos 1 ∷ pos 2 ∷ []);
  status = codes "ready";
}

abbrev both : List CanonicalCandidate
both = analysis ∷ forecast ∷ []

rain_test : select_variable_source both (codes "crain") none ≡ some forecast
unfolding select_variable_source select_within select_own is_precipitation_companion
    requires_lead0_display_fallback strip_lower
rain_test = refl

wind_test : select_variable_source both (codes "wind_10m") none ≡ none
unfolding select_variable_source select_within select_own is_precipitation_companion
    requires_lead0_display_fallback strip_lower
wind_test = refl

select_within_lem_example :
    select_within 5 both (codes "crain") none
    ≡ some (select_variable_source both (codes "crain") none)
select_within_lem_example = select_within_lem 3 both (codes "crain") none

source-IsSearch_example :
    IsSearch
      (represents (codes "crain") analysis)
      both
      (select_variable_source both (codes "crain") none)
source-IsSearch_example = source-IsSearch analysis (forecast ∷ []) (codes "crain") none

abbrev at_noon : Dict ℕ (List CanonicalCandidate)
at_noon = (noon, both) ∷ []

at_noon-IsDict : IsDict at_noon
unfolding IsDict
at_noon-IsDict = (refl, tt)

rain-companion : is_precipitation_companion (some (codes "crain")) ≡ true
unfolding is_precipitation_companion strip_lower
rain-companion = refl

bulk_agrees_example :
    (lookup noon
        (select_canonical_sources_bulk at_noon
          (some (codes "crain" ∷ []))
          (some (aware noon ∷ []))
          (some noon)).anchors
      ≡ select_canonical_anchor both)
    × (lookup
          (codes "crain", noon)
          (select_canonical_sources_bulk at_noon
            (some (codes "crain" ∷ []))
            (some (aware noon ∷ []))
            (some noon)).variable_sources
        ≡ some (select_variable_source both (codes "crain") (select_canonical_anchor both)))
bulk_agrees_example =
    bulk_agrees at_noon (some (codes "crain" ∷ [])) (some (aware noon ∷ [])) (some noon)
      (codes "crain") noon analysis (forecast ∷ []) at_noon-IsDict refl refl refl rain-companion

-- A fenced member, and a fenced variable of the older run.
abbrev fence : List FenceKey
fence =
    (codes "run1", 6, codes "temperature_2m", mem, pos 2)
    ∷ (codes "run1", 6, codes "temperature_2m", mean, negsuc 0)
    ∷ []

index_refines_scan_example :
    (in_variables (build_fence_index fence) (codes "run1") 6 (codes "temperature_2m")
      ≡ any (fences_variable (codes "run1") 6 (codes "temperature_2m")) fence)
    × (in_members (build_fence_index fence) (codes "run1") 6 (pos 2)
        ≡ any (fences_member (codes "run1") 6 (pos 2)) fence)
    × (in_means (build_fence_index fence) (codes "run1") 6
        ≡ any (fences_mean (codes "run1") 6) fence)
index_refines_scan_example =
    index_refines_scan fence (codes "run1") 6 (codes "temperature_2m") (pos 2)

filtered-Served_example :
    All (Served fence true (pos 1)) (filter_candidates_by_physical_fence at_noon fence true (pos 1))
filtered-Served_example =
    filtered-Served at_noon (codes "run1", 6, codes "temperature_2m", mem, pos 2)
      ((codes "run1", 6, codes "temperature_2m", mean, negsuc 0) ∷ []) true (pos 1)
      (((λ e. cc), ((λ e. cc), tt)), tt)

-- A fence of another run.
abbrev other_fence : List FenceKey
other_fence = (codes "run7", 6, codes "temperature_2m", mem, pos 2) ∷ []

at_noon-Free : All (TimeFree other_fence true (pos 2)) at_noon
unfolding TimeFree IsFree MembersFree is_lead_servable
at_noon-Free = (
  (
    λ e. cc,
    (
      ((refl, (refl, tt)), λ t. tt),
      (((refl, (refl, (refl, tt))), λ t. ((refl, (refl, tt)), refl, refl)), tt),
    ),
  ),
  tt,
)

-- An ensemble candidate whose one variable is fenced in the mean stays, with no variable left ...
abbrev ensemble : CanonicalCandidate
ensemble = record forecast {
  product_types = codes "ensemble_mean" ∷ codes "ensemble_member" ∷ [];
  variables = codes "temperature_2m" ∷ [];
  member_indices = some (pos 1 ∷ []);
}

abbrev emptied : CanonicalCandidate
emptied = record ensemble { product_types = codes "ensemble_member" ∷ []; variables = [] }

emptied_test :
    filter_candidates_by_physical_fence
      ((noon, ensemble ∷ []) ∷ [])
      ((codes "run1", 6, codes "temperature_2m", mean, negsuc 0) ∷ [])
      true
      (pos 1)
    ≡ (noon, emptied ∷ []) ∷ []
unfolding filter_candidates_by_physical_fence is_lead_servable
emptied_test = refl

-- ... and is then the source of that variable.
emptied_source_test :
    select_variable_source (emptied ∷ []) (codes "temperature_2m") (some emptied) ≡ some emptied
unfolding select_variable_source select_within select_own is_precipitation_companion
    requires_lead0_display_fallback strip_lower
emptied_source_test = refl
