-- ===== src/Ingest/Reclaim/Late.antt =====
-- gc/planner.py, the units of retired runs: their times.
use mathlib.Core.List.{append_assoc, append-nil}
use weather.Common.{
  ℕ, suc, ◌+◌, ◌*◌, ◌≡◌, refl, ap, sym, ◌∙◌, Bool, true, false, none, some, List, [], ◌∷◌, ◌++◌,
  All, All-append, All-map, All-keep, Bool-cases, Option-cases, inl, inr, if◌then◌else◌,
}
use weather.Common.Int.{ℤ}
use weather.Common.Result.{Result, ok, ◌>>=◌, >>=-eq-ok, ok-inj}
use weather.Common.Text.{Text}
use weather.Common.Sorted.{insert_distinct, sorted_set}
use weather.Domain.Time.{ensure_utc, hour}
use weather.Domain.Reclamation.{PhysicalShardTarget, has}
use weather.Ingest.Reclaim.{
  UnitKey, RunRow, ProductRow, MemberMap, unit_target, unit_keys, row_units,
  enumerate_committed_unit_tuples,
}
use weather.Ingest.Reclaim.Pass.{
  Totals, unit_eq, unit_ltb, has_unit, run_row, is_blank_path, retire_unit, retire_units,
  retired_rows,
}
use weather.Ingest.Reclaim.Targets.{unit_target-Made}

-- A target that has the cycle time `stale`, and the valid time of its own run.
abbrev pub HasTimes : ℕ → List RunRow → PhysicalShardTarget → Type 0
HasTimes stale rows t =
    (t.cycle_time ≡ stale)
    × ((row : RunRow) × (run_row t.run_id rows ≡ some row)
        × (t.valid_time ≡ ensure_utc row.cycle_time + t.lead_time_hours * hour))

abbrev Late : ℕ → List RunRow → Text → PhysicalShardTarget → Type 0
Late stale rows run t = (t.run_id ≡ run) × HasTimes stale rows t

abbrev Adds : (PhysicalShardTarget → Type 0) → Totals → Totals → Type 0
Adds P totals res =
    (late : List PhysicalShardTarget) × (res.would_enqueue ≡ totals.would_enqueue ++ late)
    × All P late

Adds-none :
    (P : PhysicalShardTarget → Type 0) (totals res : Totals)
    → totals.would_enqueue ≡ res.would_enqueue
    → Adds P totals res
Adds-none P totals res e = ([], sym e ∙ sym (append-nil totals.would_enqueue), tt)

module _ (model : Text) (stale : ℕ) (rows : List RunRow) (queue : List UnitKey) (u : UnitKey)
    (totals : Totals) where
  abbrev seen : Totals
  seen = record totals { total_committed = suc totals.total_committed }

  abbrev free : Totals
  free = record seen { total_reclaimable = suc totals.total_reclaimable }

  stored : (row : RunRow) → Result Totals
  stored row =
      if is_blank_path row.zarr_store_path
      then ok free
      else (unit_target model stale (ensure_utc row.cycle_time) row.zarr_store_path u >>= λ t.
          ok (record free { would_enqueue = totals.would_enqueue ++ t ∷ [] }))

  retire-queued : has_unit queue u ≡ true → retire_unit model stale rows queue u totals ≡ ok seen
  unfolding retire_unit
  retire-queued e = rw (retire_unit, e) refl

  retire-unknown :
      has_unit queue u ≡ false
      → run_row u.0 rows ≡ none
      → retire_unit model stale rows queue u totals ≡ ok free
  unfolding retire_unit
  retire-unknown e f = rw (retire_unit, e, f) refl

  retire-known :
      (row : RunRow)
      → has_unit queue u ≡ false
      → run_row u.0 rows ≡ some row
      → retire_unit model stale rows queue u totals ≡ stored row
  unfolding retire_unit stored
  retire-known row e f = rw (retire_unit, e, f) refl

  stored-blank : (row : RunRow) → is_blank_path row.zarr_store_path ≡ true → stored row ≡ ok free
  unfolding stored
  stored-blank row e = rw (stored, e) refl

  stored-there :
      (row : RunRow)
      → is_blank_path row.zarr_store_path ≡ false
      → stored row ≡ (
          unit_target model stale (ensure_utc row.cycle_time) row.zarr_store_path u >>= λ t.
          ok (record free { would_enqueue = totals.would_enqueue ++ t ∷ [] }))
  unfolding stored
  stored-there row e = rw (stored, e) refl

  stored-Adds :
      (row : RunRow) (res : Totals)
      → run_row u.0 rows ≡ some row
      → stored row ≡ ok res
      → Adds (Late stale rows u.0) totals res
  unfolding stored
  stored-Adds row res f h = elim (Bool-cases (is_blank_path row.zarr_store_path)) [
    | inl blank ↦
        let e : ok free ≡ ok res = sym (stored-blank row blank) ∙ h in
        Adds-none _ totals res (ap (λ (x : Totals). x.would_enqueue) (ok-inj e))
    | inr there ↦
        let (t, a, b) =
          >>=-eq-ok (unit_target model stale (ensure_utc row.cycle_time) row.zarr_store_path u) _
            (sym (stored-there row there) ∙ h) in
        let made =
          unit_target-Made model stale (ensure_utc row.cycle_time) row.zarr_store_path u t a in
        (
          t ∷ [],
          ap (λ (x : Totals). x.would_enqueue) (sym (ok-inj b)),
          (
            (
              made.run_is,
              (
                made.cycle_is,
                (
                  row,
                  ap (λ (r : Text). run_row r rows) made.run_is ∙ f,
                  made.valid_is
                      ∙ ap (λ (l : ℕ). ensure_utc row.cycle_time + l * hour) (sym made.lead_is),
                ),
              ),
            ),
            tt,
          ),
        )
  ]

  retire_unit-Adds :
      (res : Totals)
      → retire_unit model stale rows queue u totals ≡ ok res
      → Adds (Late stale rows u.0) totals res
  retire_unit-Adds res h = elim (Bool-cases (has_unit queue u)) [
    | inl queued ↦
        Adds-none _ totals res
          (ap (λ (x : Totals). x.would_enqueue) (ok-inj (sym (retire-queued queued) ∙ h)))
    | inr fresh ↦ elim (Option-cases (run_row u.0 rows)) [
      | inl unknown ↦
          Adds-none _ totals res
            (ap (λ (x : Totals). x.would_enqueue) (ok-inj (sym (retire-unknown fresh unknown) ∙ h)))
      | inr (row, known) ↦ stored-Adds row res known (sym (retire-known row fresh known) ∙ h)
    ]
  ]

-- A target of a retired run, with the times that the loop gives it.
abbrev pub IsLate : List Text → ℕ → List RunRow → PhysicalShardTarget → Type 0
IsLate retired stale rows t = (has retired t.run_id ≡ true) × HasTimes stale rows t

pub retire_units-adds :
    (retired : List Text) (model : Text) (stale : ℕ) (rows : List RunRow) (queue us : List UnitKey)
    (totals res : Totals)
    → All (λ (u : UnitKey). has retired u.0 ≡ true) us
    → retire_units model stale rows queue us totals ≡ ok res
    → (late : List PhysicalShardTarget) × (res.would_enqueue ≡ totals.would_enqueue ++ late)
      × All (IsLate retired stale rows) late
unfolding retire_units
retire_units-adds retired model stale rows queue [] totals res g h =
    Adds-none (IsLate retired stale rows) totals res
      (ap (λ (x : Totals). x.would_enqueue) (ok-inj h))
retire_units-adds retired model stale rows queue (u ∷ us) totals res g h =
    let (next, a, b) = >>=-eq-ok (retire_unit model stale rows queue u totals) _ h in
    let (first, e, p) = retire_unit-Adds model stale rows queue u totals next a in
    let (rest, f, q) = retire_units-adds retired model stale rows queue us next res g.1 b in
    (
      first ++ rest,
      f
          ∙ ap (λ (l : List PhysicalShardTarget). l ++ rest) e
          ∙ append_assoc totals.would_enqueue first rest,
      All-append _ first rest (All-map _ _ (λ t l. (ap (has retired) l.0 ∙ g.0, l.1)) first p) q,
    )

All-sorted_set :
    {A : Type 0} (P : A → Type 0) (less same : A → A → Bool) (xs : List A)
    → All P xs
    → All P (sorted_set less same xs)
All-sorted_set P less same [] h = tt
All-sorted_set P less same (x ∷ xs) h =
    inserted P less same x (sorted_set less same xs) h.0 (All-sorted_set P less same xs h.1)
  where
    inserted :
        {A : Type 0} (P : A → Type 0) (less same : A → A → Bool) (x : A) (ys : List A)
        → P x
        → All P ys
        → All P (insert_distinct less same x ys)
    inserted P less same x [] k h = (k, tt)
    inserted P less same x (y ∷ ys) k h = elim (Bool-cases (same x y)) [
      | inl e ↦ rw e h
      | inr n ↦ rw n (elim (Bool-cases (less x y)) [
        | inl lt ↦ rw lt (k, h)
        | inr ge ↦ rw ge (h.0, inserted P less same x ys k h.1)
      ])
    ]

unit_keys-retired :
    (retired : List Text) (row : ProductRow) (us : List (Text × ℤ))
    → has retired row.run_id ≡ true
    → All (λ (u : UnitKey). has retired u.0 ≡ true) (unit_keys row us)
unit_keys-retired retired row [] h = tt
unit_keys-retired retired row ((kind, m) ∷ us) h = (h, unit_keys-retired retired row us h)

enumerated :
    (retired : List Text) (ensemble : Bool) (members : MemberMap) (rows : List ProductRow)
    → All (λ (row : ProductRow). has retired row.run_id ≡ true) rows
    → All
        (λ (u : UnitKey). has retired u.0 ≡ true)
        (enumerate_committed_unit_tuples ensemble members rows)
unfolding enumerate_committed_unit_tuples
enumerated retired ensemble members [] h = tt
enumerated retired ensemble members (row ∷ rows) h =
    All-append _ (unit_keys row (row_units ensemble members row)) _
      (unit_keys-retired retired row (row_units ensemble members row) h.0)
      (enumerated retired ensemble members rows h.1)

-- The units that the loop over retired runs goes through are of retired runs.
pub retired-units :
    (retired : List Text) (ensemble : Bool) (members : MemberMap) (rows : List ProductRow)
    → All
        (λ (u : UnitKey). has retired u.0 ≡ true)
        (sorted_set unit_ltb unit_eq
          (enumerate_committed_unit_tuples ensemble members (retired_rows retired rows)))
retired-units retired ensemble members rows = All-sorted_set _ unit_ltb unit_eq _ (
    enumerated retired ensemble members (retired_rows retired rows)
      (All-keep (λ (row : ProductRow). has retired row.run_id) rows))
