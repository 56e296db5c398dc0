-- ===== src/Ingest/Reclaim.antt =====
-- services/ingestion/src/ingestion/gc/planner.py: the rows that the reclamation planner reads, the
-- units of a run, and the candidates for canonical resolution. What the database answers is an
-- argument, and an unordered set is a list that is read by membership.
pub mod Holds
pub mod Targets
pub mod Serving
pub mod Window
pub mod Early
pub mod Held
pub mod Late
pub mod Planned
pub mod Reads
pub mod Pass
pub mod Safety
pub mod Retired
mod Examples
use weather.Common.{
  ℕ, zero, suc, ◌+◌, ◌*◌, Bool, true, false, not, ◌&&◌, ◌||◌, Option, none, some, List, [], ◌∷◌,
  ◌++◌, ltb, leb, ◌==◌, if◌then◌else◌, length, any,
}
use weather.Common.Int.{ℤ, pos, negsuc, leb_ℤ}
use weather.Common.Result.{Result, ok, raises, Error, ◌>>=◌, ◌>>◌, or_raise}
use weather.Common.Text.{Text, codes, text_eq, normalize}
use weather.Common.Dict.{Dict, lookup, insert, Key, text_key, nat_key}
use weather.Domain.Time.{DateTime, aware, ensure_utc, add_time, hour}
use weather.Domain.Reclamation.{
  PhysicalShardTarget, make_target, make_shard_relative_key, det, mean, mem, has,
}
use weather.Domain.Coverage.{is_lead_servable, default_threshold}
use weather.Domain.Canonical.{CanonicalCandidate}
use weather.Domain.Canonical.Bulk.{VarTime, var_time_key}
use weather.Domain.Canonical.Fence.{eq_ℤ}

-- A row of `forecast_cycle_lifecycle`, as far as the planner reads it.
pub record CycleFence : Type 0 where
  pub deletion_started_at : Option ℕ
  pub deleted_at : Option ℕ

pub record RunRow : Type 0 where
  pub id : Text
  pub cycle_time : DateTime
  pub status : Text
  pub zarr_store_path : Text
  pub version_string : Text

pub record ProductRow : Type 0 where
  pub run_id : Text
  pub lead_time_hours : ℕ
  pub variable_id : Text
  pub product_type : Text

-- (run_id, lead_time_hours, variable_code, target_kind, member_index)
abbrev pub UnitKey : Type 0
UnitKey = Text × ℕ × Text × Text × ℤ

-- The members of each run and lead, from the rows of `ensemble_member_products`.
abbrev pub MemberMap : Type 0
MemberMap = Dict VarTime (List ℤ)

abbrev pub is_set : Option ℕ → Bool
is_set none = false
is_set (some t) = true

-- `dict.get(key, [])`
abbrev pub members_of : MemberMap → Text → ℕ → List ℤ
members_of members run lead = elim (lookup (run, lead) members) [ none ↦ [] | some ms ↦ ms ]

-- The loop that fills the dictionary from its rows.
unfoldable pub member_map : List (Text × ℕ × ℤ) → MemberMap → MemberMap
member_map [] members = members
member_map ((run, lead, m) ∷ rows) members =
    member_map rows (insert (run, lead) (members_of members run lead ++ m ∷ []) members)

abbrev pub is_cycle_tombstoned : Dict VarTime CycleFence → Text → ℕ → Bool
is_cycle_tombstoned fences model cycle = elim (lookup (normalize model, cycle) fences) [
  | none ↦ false
  | some f ↦ is_set f.deleted_at
]

abbrev pub is_cycle_claimed : Dict VarTime CycleFence → Text → ℕ → Bool
is_cycle_claimed fences model cycle = elim (lookup (normalize model, cycle) fences) [
  | none ↦ false
  | some f ↦ is_set f.deletion_started_at
]

pub record RunMeta : Type 0 where
  pub cycle : ℕ
  pub run_status : Text
  pub store : Text
  pub version : Text

-- The runs of a model after the loop over their rows, with the loop's last `c_utc`.
pub record Runs : Type 0 where
  pub live : Dict Text RunMeta
  pub retired : List Text
  pub last_cycle : Option ℕ

unfoldable pub scan_run : Dict VarTime CycleFence → Text → RunRow → Runs → Runs
scan_run fences model row runs =
    let c_utc = ensure_utc row.cycle_time in
    if is_cycle_tombstoned fences model c_utc
    then record runs { last_cycle = some c_utc }
    else if is_cycle_claimed fences model c_utc
    then record runs { last_cycle = some c_utc; retired = runs.retired ++ row.id ∷ [] }
    else record runs {
      last_cycle = some c_utc;
      live =
          insert row.id
            (record {
              cycle = c_utc;
              run_status = row.status;
              store = row.zarr_store_path;
              version = row.version_string;
            })
            runs.live;
    }

unfoldable pub scan_runs : Dict VarTime CycleFence → Text → List RunRow → Runs → Runs
unfolding scan_run
scan_runs fences model [] runs = runs
scan_runs fences model (row ∷ rows) runs =
    scan_runs fences model rows (scan_run fences model row runs)

abbrev pub member_units : List ℤ → List (Text × ℤ)
member_units [] = []
member_units (m ∷ ms) = (mem, m) ∷ member_units ms

-- The kinds and members of the units of one product row.
unfoldable pub row_units : Bool → MemberMap → ProductRow → List (Text × ℤ)
row_units false members row = (det, pos 0) ∷ []
row_units true members row =
    (if text_eq row.product_type (codes "ensemble_mean") then (mean, negsuc 0) ∷ [] else [])
    ++ member_units (members_of members row.run_id row.lead_time_hours)

abbrev pub unit_keys : ProductRow → List (Text × ℤ) → List UnitKey
unit_keys r [] = []
unit_keys r ((kind, m) ∷ us) =
    (r.run_id, r.lead_time_hours, r.variable_id, kind, m) ∷ unit_keys r us

unfoldable pub enumerate_committed_unit_tuples : Bool → MemberMap → List ProductRow → List UnitKey
unfolding row_units
enumerate_committed_unit_tuples ensemble members [] = []
enumerate_committed_unit_tuples ensemble members (row ∷ rows) =
    unit_keys row (row_units ensemble members row)
    ++ enumerate_committed_unit_tuples ensemble members rows

-- The target of a unit: the cycle time that is recorded, and the one by which it is valid.
unfoldable pub unit_target : Text → ℕ → ℕ → Text → UnitKey → Result PhysicalShardTarget
unit_target model recorded cycle store (run, lead, variable, kind, member) = do
  valid ← add_time cycle (lead * hour)
  key ← make_shard_relative_key variable kind lead member
  make_target run model (aware recorded) lead variable kind member (aware valid) store key

unfoldable pub unit_targets : Text → ℕ → ℕ → Text → List UnitKey → Result (List PhysicalShardTarget)
unfolding unit_target
unit_targets model recorded cycle store [] = ok []
unit_targets model recorded cycle store (u ∷ us) = do
  t ← unit_target model recorded cycle store u
  ts ← unit_targets model recorded cycle store us
  ok (t ∷ ts)

-- An entry of `by_run_lead`.
pub record LeadRecord : Type 0 where
  pub run_meta : RunMeta
  pub product_types : List Text
  pub variables : List Text

abbrev pub add_product : RunMeta → ProductRow → Option LeadRecord → LeadRecord
add_product meta row none = record {
  run_meta = meta;
  product_types = row.product_type ∷ [];
  variables = row.variable_id ∷ [];
}
add_product meta row (some rec) = record rec {
  product_types = row.product_type ∷ rec.product_types;
  variables = row.variable_id ∷ rec.variables;
}

abbrev pub ByRunLead : Type 0
ByRunLead = Dict VarTime LeadRecord

-- The loop over the product rows: the record of each run and lead, and the shards.
unfoldable pub scan_products :
    Text
    → Bool
    → Runs
    → MemberMap
    → List ProductRow
    → ByRunLead
    → Result (ByRunLead × List PhysicalShardTarget)
unfolding unit_targets row_units
scan_products model ensemble runs members [] by_lead = ok (by_lead, [])
scan_products model ensemble runs members (row ∷ rows) by_lead =
    let skipped = scan_products model ensemble runs members rows by_lead in
    if has runs.retired row.run_id then skipped else (do
      meta ← or_raise (lookup row.run_id runs.live) Error.key_error
      let key : VarTime = (row.run_id, row.lead_time_hours)
      shards ←
          unit_targets model meta.cycle meta.cycle meta.store
            (unit_keys row (row_units ensemble members row))
      rest ←
          scan_products model ensemble runs members rows
            (insert key (add_product meta row (lookup key by_lead)) by_lead)
      ok (rest.0, shards ++ rest.1))

-- `tuple(sorted(members))`
abbrev pub insert_member : ℤ → List ℤ → List ℤ
insert_member m [] = m ∷ []
insert_member m (n ∷ ns) = if leb_ℤ m n then m ∷ n ∷ ns else n ∷ insert_member m ns

abbrev pub sort_members : List ℤ → List ℤ
sort_members [] = []
sort_members (m ∷ ms) = insert_member m (sort_members ms)

abbrev pub lead_candidate : Text → ℕ → LeadRecord → Option (List ℤ) → CanonicalCandidate
lead_candidate run lead rec members = record {
  cycle_time = rec.run_meta.cycle;
  lead_time_hours = lead;
  run_id = run;
  store_path = rec.run_meta.store;
  product_types = rec.product_types;
  variables = rec.variables;
  member_indices = members;
  status = rec.run_meta.run_status;
}

-- The candidate of a run and lead, unless the loop continues; its product types are never empty.
unfoldable pub candidate_of :
    Bool → ℤ → MemberMap → VarTime → LeadRecord → Option CanonicalCandidate
candidate_of false expected members (run, lead) rec = some (lead_candidate run lead rec none)
candidate_of true expected members (run, lead) rec =
    let raw = members_of members run lead in
    if is_lead_servable (length raw) expected default_threshold
    then some (lead_candidate run lead rec (some (sort_members raw)))
    else none

abbrev pub CandidatesByValid : Type 0
CandidatesByValid = Dict ℕ (List CanonicalCandidate)

-- `setdefault(v_time, []).append(cand)`
abbrev pub append_candidate : ℕ → Option CanonicalCandidate → CandidatesByValid → CandidatesByValid
append_candidate t none d = d
append_candidate t (some c) d =
    insert t (elim (lookup t d) [ none ↦ c ∷ [] | some cs ↦ cs ++ c ∷ [] ]) d

unfoldable pub group_candidates :
    Bool → ℤ → MemberMap → ByRunLead → CandidatesByValid → Result CandidatesByValid
unfolding candidate_of
group_candidates ensemble expected members [] d = ok d
group_candidates ensemble expected members (((run, lead), rec) ∷ items) d = do
  t ← add_time rec.run_meta.cycle (lead * hour)
  group_candidates ensemble expected members items
      (append_candidate t (candidate_of ensemble expected members (run, lead) rec) d)

-- `cands.sort(key=lead)`, a stable sort.
abbrev pub insert_by_lead : CanonicalCandidate → List CanonicalCandidate → List CanonicalCandidate
insert_by_lead c [] = c ∷ []
insert_by_lead c (d ∷ ds) =
    if leb c.lead_time_hours d.lead_time_hours then c ∷ d ∷ ds else d ∷ insert_by_lead c ds

unfoldable pub sort_by_lead : List CanonicalCandidate → List CanonicalCandidate
sort_by_lead [] = []
sort_by_lead (c ∷ cs) = insert_by_lead c (sort_by_lead cs)

unfoldable pub sort_all : CandidatesByValid → CandidatesByValid
unfolding sort_by_lead
sort_all [] = []
sort_all ((t, cs) ∷ d) = (t, sort_by_lead cs) ∷ sort_all d
