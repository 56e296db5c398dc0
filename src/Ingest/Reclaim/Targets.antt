-- ===== src/Ingest/Reclaim/Targets.antt =====
-- gc/planner.py: the run, the lead and the times of a target, and the runs of the candidates.
use weather.Common.{
  ℕ, ◌+◌, ◌*◌, ◌≡◌, refl, sym, ◌∙◌, Bool, true, false, ◌&&◌, some, List, [], ◌∷◌, ◌++◌, ltb, ◌==◌,
  All, All-append, Bool-cases, inl, inr, arith, subst,
}
use weather.Common.Int.{ℤ}
use weather.Common.Result.{ok, Error, ◌>>=◌, >>=-eq-ok, ok-inj, or_raise}
use weather.Common.Text.{Text, text_eq, normalize}
use weather.Common.Dict.{lookup, insert, text_key, nat_key}
use weather.Domain.Time.{aware, add_time, hour, max_instant}
use weather.Domain.Reclamation.{
  PhysicalShardTarget, make_target, make_shard_relative_key, normalize_member_index, has,
}
use weather.Domain.Canonical.{CanonicalCandidate}
use weather.Domain.Canonical.Bulk.{VarTime, var_time_key}
use weather.Ingest.Reclaim.{
  UnitKey, ProductRow, Runs, MemberMap, LeadRecord, ByRunLead, unit_target, unit_targets, unit_keys,
  row_units, add_product, scan_products,
}

-- What a target takes from its arguments.
pub record Made (run : Text) (lead cycle valid : ℕ) (t : PhysicalShardTarget) : Type 0 where
  pub run_is : t.run_id ≡ run
  pub lead_is : t.lead_time_hours ≡ lead
  pub cycle_is : t.cycle_time ≡ cycle
  pub valid_is : t.valid_time ≡ valid

make_target-Made :
    (run model : Text) (cycle lead : ℕ) (variable kind : Text) (member : ℤ) (valid : ℕ)
    (store key : Text) (t : PhysicalShardTarget)
    → make_target run model (aware cycle) lead variable kind member (aware valid) store key ≡ ok t
    → Made run lead cycle valid t
unfolding make_target
make_target-Made run model cycle lead variable kind member valid store key t h =
    let (m, a, b) = >>=-eq-ok (normalize_member_index (normalize kind) (some member)) _ h in
    subst (Made run lead cycle valid) (ok-inj b)
      (record { run_is = refl; lead_is = refl; cycle_is = refl; valid_is = refl })

add_time-ok : (t d s : ℕ) → add_time t d ≡ ok s → s ≡ t + d
add_time-ok t d s h = elim (Bool-cases (ltb max_instant (t + d))) [
  | inl over ↦ absurd (ground (arith, h, over))
  | inr within ↦ ground (arith, h, within)
]

pub unit_target-Made :
    (model : Text) (recorded cycle : ℕ) (store : Text) (u : UnitKey) (t : PhysicalShardTarget)
    → unit_target model recorded cycle store u ≡ ok t
    → Made u.0 u.1 recorded (cycle + u.1 * hour) t
unfolding unit_target
unit_target-Made model recorded cycle store (run, lead, variable, kind, member) t h =
    let (valid, a, b) = >>=-eq-ok (add_time cycle (lead * hour)) _ h in
    let (key, c, d) = >>=-eq-ok (make_shard_relative_key variable kind lead member) _ b in
    subst (λ v. Made run lead recorded v t) (add_time-ok cycle (lead * hour) valid a)
      (make_target-Made run model recorded lead variable kind member valid store key t d)

-- Of a run that is not retired.
abbrev pub IsKept : Runs → Text → Type 0
IsKept runs run = has runs.retired run ≡ false

abbrev pub TargetKept : Runs → PhysicalShardTarget → Type 0
TargetKept runs t = IsKept runs t.run_id

abbrev pub KeyKept : Runs → VarTime × LeadRecord → Type 0
KeyKept runs ((run, lead), rec) = IsKept runs run

abbrev pub CandidateKept : Runs → CanonicalCandidate → Type 0
CandidateKept runs c = IsKept runs c.run_id

unit_keys-run :
    (row : ProductRow) (us : List (Text × ℤ))
    → All (λ (u : UnitKey). u.0 ≡ row.run_id) (unit_keys row us)
unit_keys-run row [] = tt
unit_keys-run row ((kind, m) ∷ us) = (refl, unit_keys-run row us)

unit_targets-kept :
    (runs : Runs) (run model : Text) (recorded cycle : ℕ) (store : Text) (us : List UnitKey)
    (ts : List PhysicalShardTarget)
    → IsKept runs run
    → All (λ (u : UnitKey). u.0 ≡ run) us
    → unit_targets model recorded cycle store us ≡ ok ts
    → All (TargetKept runs) ts
unfolding unit_targets
unit_targets-kept runs run model recorded cycle store [] ts k h e =
    subst (All (TargetKept runs)) (ok-inj e) tt
unit_targets-kept runs run model recorded cycle store (u ∷ us) ts k h e =
    let (t, a, b) = >>=-eq-ok (unit_target model recorded cycle store u) _ e in
    let (rest, c, d) = >>=-eq-ok (unit_targets model recorded cycle store us) _ b in
    subst (All (TargetKept runs)) (ok-inj d) (
      subst (IsKept runs) (sym ((unit_target-Made model recorded cycle store u t a).run_is ∙ h.0))
          k,
      unit_targets-kept runs run model recorded cycle store us rest k h.1 c,
    )

insert-kept :
    (runs : Runs) (run : Text) (lead : ℕ) (rec : LeadRecord) (d : ByRunLead)
    → IsKept runs run
    → All (KeyKept runs) d
    → All (KeyKept runs) (insert (run, lead) rec d)
insert-kept runs run lead rec [] k h = (k, tt)
insert-kept runs run lead rec (((s, l), old) ∷ d) k h =
    elim (Bool-cases (text_eq s run && (l == lead))) [
      | inl same ↦ rw same (h.0, h.1)
      | inr other ↦ rw other (h.0, insert-kept runs run lead rec d k h.1)
    ]

scan-skip :
    (model : Text) (ensemble : Bool) (runs : Runs) (members : MemberMap) (row : ProductRow)
    (rows : List ProductRow) (d : ByRunLead)
    → has runs.retired row.run_id ≡ true
    → scan_products model ensemble runs members (row ∷ rows) d
      ≡ scan_products model ensemble runs members rows d
unfolding scan_products
scan-skip model ensemble runs members row rows d e = rw (scan_products, e) refl

scan-take :
    (model : Text) (ensemble : Bool) (runs : Runs) (members : MemberMap) (row : ProductRow)
    (rows : List ProductRow) (d : ByRunLead)
    → has runs.retired row.run_id ≡ false
    → scan_products model ensemble runs members (row ∷ rows) d ≡ (
        or_raise (lookup row.run_id runs.live) Error.key_error >>= λ meta.
        unit_targets model meta.cycle meta.cycle meta.store
          (unit_keys row (row_units ensemble members row))
        >>= λ shards.
            scan_products model ensemble runs members rows (
              insert
                (row.run_id, row.lead_time_hours)
                (add_product meta row (lookup (row.run_id, row.lead_time_hours) d))
                d)
            >>= λ rest. ok (rest.0, shards ++ rest.1))
unfolding scan_products
scan-take model ensemble runs members row rows d e = rw (scan_products, e) refl

-- The leads and the shards that the loop over the product rows builds are of runs that are not
-- retired.
pub scan-kept :
    (model : Text) (ensemble : Bool) (runs : Runs) (members : MemberMap) (rows : List ProductRow)
    (d : ByRunLead) (built : ByRunLead × List PhysicalShardTarget)
    → All (KeyKept runs) d
    → scan_products model ensemble runs members rows d ≡ ok built
    → All (KeyKept runs) built.0 × All (TargetKept runs) built.1
scan-kept model ensemble runs members [] d built h e =
    unfold scan_products in
    subst
      (λ (b : ByRunLead × List PhysicalShardTarget).
        All (KeyKept runs) b.0 × All (TargetKept runs) b.1)
      (ok-inj e) (h, tt)
scan-kept model ensemble runs members (row ∷ rows) d built h e =
    elim (Bool-cases (has runs.retired row.run_id)) [
      | inl gone ↦
          scan-kept model ensemble runs members rows d built h
            (sym (scan-skip model ensemble runs members row rows d gone) ∙ e)
      | inr live ↦
          let (meta, a, e') =
            >>=-eq-ok (or_raise (lookup row.run_id runs.live) Error.key_error) _
              (sym (scan-take model ensemble runs members row rows d live) ∙ e) in
          let (shards, b, e'') =
            >>=-eq-ok
              (unit_targets model meta.cycle meta.cycle meta.store
                (unit_keys row (row_units ensemble members row)))
              _ e' in
          let (rest, c, e3) = >>=-eq-ok (scan_products model ensemble runs members rows _) _ e'' in
          let (keys, targets) =
            scan-kept model ensemble runs members rows _ rest
              (insert-kept runs row.run_id row.lead_time_hours _ d live h) c in
          subst
            (λ (b : ByRunLead × List PhysicalShardTarget).
              All (KeyKept runs) b.0 × All (TargetKept runs) b.1)
            (ok-inj e3)
            (
              keys,
              All-append (TargetKept runs) shards rest.1
                  (unit_targets-kept runs row.run_id model meta.cycle meta.cycle meta.store _ shards
                    live (unit_keys-run row (row_units ensemble members row)) b)
                  targets,
            )
    ]
