-- ===== src/Ingest/Reclaim/Holds.antt =====
-- gc/planner.py: the units that are held, as predecessors of an ingestion or by canonical serving.
use weather.Common.{
  ℕ, zero, suc, ◌+◌, ◌*◌, ◌/◌, Bool, true, false, not, ◌||◌, Option, none, some, List, [], ◌∷◌,
  ◌++◌, ltb, leb, ◌==◌, if◌then◌else◌, any,
}
use weather.Common.Int.{ℤ, pos, negsuc, pos_part}
use weather.Common.Result.{Result, ok, ◌>>=◌}
use weather.Common.Text.{Text, codes, text_eq}
use weather.Common.Dict.{Dict}
use weather.Domain.Time.{sub_time, hour}
use weather.Domain.Horizon.{Registry, model_max_lead_hours}
use weather.Domain.Temporal.{
  get_variable_temporal_metadata, is_precipitation_companion, requires_lead0_display_fallback,
}
use weather.Domain.Reclamation.{get_predecessor_lead, predecessor_variables, det, mean, mem}
use weather.Domain.Canonical.{CanonicalCandidate}
use weather.Domain.Canonical.Bulk.{VarTime, CanonicalResolutionResult}
use weather.Domain.Canonical.Fence.{eq_ℤ}
use weather.Ingest.Reclaim.{UnitKey, RunMeta, ByRunLead}

-- The members of a tuple, or none of it.
abbrev pub member_list : Option (List ℤ) → List ℤ
member_list none = []
member_list (some ms) = ms

abbrev pub member_holds : Text → ℕ → Text → List ℤ → List UnitKey
member_holds run lead variable [] = []
member_holds run lead variable (m ∷ ms) =
    (run, lead, variable, mem, m) ∷ member_holds run lead variable ms

-- The units of a variable: the mean with the members, or the deterministic one.
abbrev pub variable_holds : Bool → Text → ℕ → Text → List ℤ → List UnitKey
variable_holds true run lead variable ms =
    (run, lead, variable, mean, negsuc 0) ∷ member_holds run lead variable ms
variable_holds false run lead variable ms = (run, lead, variable, det, pos 0) ∷ []

abbrev pub candidate_holds : Bool → CanonicalCandidate → Text → List UnitKey
candidate_holds ensemble c variable =
    variable_holds ensemble c.run_id c.lead_time_hours variable (member_list c.member_indices)

-- `range(1, count + 1)`
abbrev pub members_to : ℕ → List ℤ
members_to zero = []
members_to (suc n) = members_to n ++ pos (suc n) ∷ []

-- `count` leads from `lead` on, `step` apart.
abbrev pub leads_by : ℕ → ℕ → ℕ → List ℕ
leads_by lead step zero = []
leads_by lead step (suc count) = lead ∷ leads_by (lead + step) step count

abbrev pub committed_leads : Text → ByRunLead → List ℕ
committed_leads run [] = []
committed_leads run (((r, lead), rec) ∷ items) =
    if text_eq r run then lead ∷ committed_leads run items else committed_leads run items

-- The hold for one reset lead of one variable.
unfoldable pub reset_holds : Bool → ℤ → Text → List ℕ → Text → ℕ → ℕ → ℕ → Result (List UnitKey)
reset_holds ensemble expected run committed variable width period reset =
    if any (◌==◌ reset) committed then ok [] else (do
      pred ← get_predecessor_lead reset (pos width) (pos period)
      if any (λ l. eq_ℤ (pos l) pred) committed
          then ok (
              variable_holds ensemble run (pos_part pred) variable (members_to (pos_part expected)))
          else ok [])

unfoldable pub resets_holds :
    Bool → ℤ → Text → List ℕ → Text → ℕ → ℕ → List ℕ → Result (List UnitKey)
unfolding reset_holds
resets_holds ensemble expected run committed variable width period [] = ok []
resets_holds ensemble expected run committed variable width period (reset ∷ resets) = do
  a ← reset_holds ensemble expected run committed variable width period reset
  b ← resets_holds ensemble expected run committed variable width period resets
  ok (a ++ b)

-- The loop over the predecessor variables; the periods of the metadata are positive.
unfoldable pub run_variable_holds : Bool → ℤ → Text → List ℕ → ℕ → List Text → Result (List UnitKey)
unfolding resets_holds
run_variable_holds ensemble expected run committed max_lead [] = ok []
run_variable_holds ensemble expected run committed max_lead (v ∷ vs) = do
  meta ← get_variable_temporal_metadata (some v)
  let width = meta.interval_width_hours
  let period = meta.reset_period_hours
  a ←
      (if leb period width
        then ok []
        else resets_holds ensemble expected run committed v width period
            (leads_by period period (max_lead / period)))
  b ← run_variable_holds ensemble expected run committed max_lead vs
  ok (a ++ b)

-- The loop over the live runs: predecessors of incomplete runs that may still be recovered.
unfoldable pub predecessor_holds :
    Registry → Text → Bool → ℤ → ℕ → ByRunLead → Dict Text RunMeta → Result (List UnitKey)
unfolding run_variable_holds
predecessor_holds r model ensemble expected serving_start by_lead [] = ok []
predecessor_holds r model ensemble expected serving_start by_lead ((run, meta) ∷ runs) = do
  max_lead ← model_max_lead_hours r model (some meta.version) none
  min_recovery ← sub_time serving_start (max_lead * hour)
  a ←
      (if ltb meta.cycle min_recovery || text_eq meta.run_status (codes "ready")
        then ok []
        else run_variable_holds ensemble expected run (committed_leads run by_lead) max_lead
            predecessor_variables)
  b ← predecessor_holds r model ensemble expected serving_start by_lead runs
  ok (a ++ b)

abbrev pub is_interval_variable : Text → Bool
is_interval_variable v =
    requires_lead0_display_fallback (some v) || is_precipitation_companion (some v)

-- The variables of an anchor, at analysis time without those over an interval.
unfoldable pub anchor_variable_holds : Bool → CanonicalCandidate → List Text → List UnitKey
anchor_variable_holds ensemble c [] = []
anchor_variable_holds ensemble c (v ∷ vs) =
    (if ltb 0 c.lead_time_hours || not (is_interval_variable v)
      then candidate_holds ensemble c v
      else [])
    ++ anchor_variable_holds ensemble c vs

unfoldable pub anchor_holds : Bool → Dict ℕ CanonicalCandidate → List UnitKey
unfolding anchor_variable_holds
anchor_holds ensemble [] = []
anchor_holds ensemble ((t, c) ∷ d) =
    anchor_variable_holds ensemble c c.variables ++ anchor_holds ensemble d

-- The sources of the variables.
unfoldable pub source_holds : Bool → Dict VarTime (Option CanonicalCandidate) → List UnitKey
source_holds ensemble [] = []
source_holds ensemble ((key, none) ∷ d) = source_holds ensemble d
source_holds ensemble (((v, t), some c) ∷ d) =
    candidate_holds ensemble c v ++ source_holds ensemble d

-- The components of the sources of wind.
unfoldable pub wind_holds : Bool → Dict VarTime (Option CanonicalCandidate) → List UnitKey
wind_holds ensemble [] = []
wind_holds ensemble ((key, none) ∷ d) = wind_holds ensemble d
wind_holds ensemble (((v, t), some c) ∷ d) =
    (if text_eq v (codes "wind_10m")
      then candidate_holds ensemble c (codes "wind_u_10m")
        ++ candidate_holds ensemble c (codes "wind_v_10m")
      else [])
    ++ wind_holds ensemble d

unfoldable pub canonical_holds : Bool → CanonicalResolutionResult → List UnitKey
unfolding anchor_holds source_holds wind_holds
canonical_holds ensemble res =
    anchor_holds ensemble res.anchors
    ++ (source_holds ensemble res.variable_sources ++ wind_holds ensemble res.variable_sources)
