-- ===== src/Ingest/Selection/Order.antt =====
-- idx_parser.py, the selectors: the selected records and their order.
use weather.Common.{
  ℕ, ◌≡◌, ◌≤◌, Bool, true, false, none, some, List, [], ◌∷◌, leb, ◌==◌, if◌then◌else◌, keep, any,
  All, All-append, All-map, Bool-cases, inl, inr, arith, subst, sym,
}
use weather.Common.Text.{Text}
use weather.Ingest.Index.{IdxRecord}
use weather.Ingest.Rules.{Rule, at_step, instantaneous, over_interval, no_record, matches_rule}
use weather.Ingest.Selection.{
  VariableSelection, first_only, selected, insert_by_offset, sort_by_offset, no_selection,
  select_all, select_by,
}
use weather.Ingest.Selection.Accounts.{
  selection, verdict_of, verdict, option_list, chosen, select_all-Entered,
}

-- The offsets do not decrease: none is above a later one.
unfoldable pub IsSorted : List IdxRecord → Type 0
IsSorted [] = Unit
IsSorted (r ∷ rs) = All (λ s. r.start_offset ≤ s.start_offset) rs × IsSorted rs

insert_by_offset-All :
    (P : IdxRecord → Type 0) (r : IdxRecord) (rs : List IdxRecord)
    → P r
    → All P rs
    → All P (insert_by_offset r rs)
insert_by_offset-All P r [] p h = (p, tt)
insert_by_offset-All P r (s ∷ rs) p h = elim (Bool-cases (leb r.start_offset s.start_offset)) [
  | inl le ↦ rw le (p, h)
  | inr gt ↦ rw gt (h.0, insert_by_offset-All P r rs p h.1)
]

insert_by_offset-IsSorted :
    (r : IdxRecord) (rs : List IdxRecord) → IsSorted rs → IsSorted (insert_by_offset r rs)
unfolding IsSorted
insert_by_offset-IsSorted r [] h = (tt, tt)
insert_by_offset-IsSorted r (s ∷ rs) h = elim (Bool-cases (leb r.start_offset s.start_offset)) [
  | inl le ↦
      let first_le : r.start_offset ≤ s.start_offset = ground arith in
      rw le ((first_le, All-map _ _ (λ t k. omega (arith, k, first_le)) rs h.0), h)
  | inr gt ↦ rw gt (
    insert_by_offset-All (λ t. s.start_offset ≤ t.start_offset) r rs (ground arith) h.0,
    insert_by_offset-IsSorted r rs h.1,
  )
]

sort_by_offset-IsSorted : (rs : List IdxRecord) → IsSorted (sort_by_offset rs)
unfolding IsSorted sort_by_offset
sort_by_offset-IsSorted [] = tt
sort_by_offset-IsSorted (r ∷ rs) =
    insert_by_offset-IsSorted r (sort_by_offset rs) (sort_by_offset-IsSorted rs)

sort_by_offset-All :
    (P : IdxRecord → Type 0) (rs : List IdxRecord) → All P rs → All P (sort_by_offset rs)
unfolding sort_by_offset
sort_by_offset-All P [] h = tt
sort_by_offset-All P (r ∷ rs) h =
    insert_by_offset-All P r (sort_by_offset rs) h.0 (sort_by_offset-All P rs h.1)

-- What holds of all records that match holds of the one that a verdict chooses.
verdict_of-All :
    (P : IdxRecord → Type 0) (var : Text) (ms : List IdxRecord)
    → All P ms
    → All P (option_list (verdict_of var ms).chosen_record)
unfolding verdict_of
verdict_of-All P var [] h = tt
verdict_of-All P var (r ∷ []) h = (h.0, tt)
verdict_of-All P var (r ∷ s ∷ rs) h = tt

first_only-All : (P : IdxRecord → Type 0) (ms : List IdxRecord) → All P ms → All P (first_only ms)
first_only-All P [] h = tt
first_only-All P (r ∷ rs) h = (h.0, tt)

later-All :
    (P : IdxRecord → Type 0) (b : Bool) (var : Text) (later : VariableSelection)
    → All P (option_list later.chosen_record)
    → All P (option_list (if b then selection var selected none [] else later).chosen_record)
later-All P true var later h = tt
later-All P false var later h = h

verdict-All :
    (P : IdxRecord → Type 0) (lead : ℕ) (records : List IdxRecord) (rule : Rule) (var : Text)
    → All P (keep (matches_rule lead rule) records)
    → All P (option_list (verdict lead records rule var).chosen_record)
unfolding verdict
verdict-All P lead records (at_step p l) var h = verdict_of-All P var _ h
verdict-All P lead records (instantaneous p l) var h = verdict_of-All P var _ h
verdict-All P lead records (over_interval p l none) var h = later-All P (lead == 0) var _ tt
verdict-All P lead records (over_interval p l (some d)) var h =
    later-All P (lead == 0) var _ (verdict_of-All P var _ (first_only-All P _ h))
verdict-All P lead records no_record var h = tt

keep-All_both :
    {A : Type 0} (P : A → Type 0) (p : A → Bool) (xs : List A)
    → All P xs
    → All (λ x. P x × (p x ≡ true)) (keep p xs)
keep-All_both P p [] h = tt
keep-All_both P p (x ∷ xs) h = elim (Bool-cases (p x)) [
  | inl y ↦ rw y ((h.0, y), keep-All_both P p xs h.1)
  | inr n ↦ rw n (keep-All_both P p xs h.1)
]

abbrev pub any_rule : ℕ → (Text → Rule) → List Text → IdxRecord → Bool
any_rule lead rule variables r = any (λ v. matches_rule lead (rule v) r) variables

chosen-All :
    (P : IdxRecord → Type 0) (lead : ℕ) (records : List IdxRecord) (rule : Text → Rule)
    (vs : List Text)
    → All P records
    → All
        (λ r. P r × (any_rule lead rule vs r ≡ true))
        (chosen (λ v. verdict lead records (rule v) v) vs)
chosen-All P lead records rule [] h = tt
chosen-All P lead records rule (v ∷ vs) h =
    All-append _ (option_list (verdict lead records (rule v) v).chosen_record) _
      (verdict-All _ lead records (rule v) v (
        All-map (λ r. P r × (matches_rule lead (rule v) r ≡ true)) _
          (λ r k. (k.0, ground (arith, k.1))) _
          (keep-All_both P (matches_rule lead (rule v)) records h)))
      (All-map (λ r. P r × (any_rule lead rule vs r ≡ true)) _ (λ r k. (k.0, ground (arith, k.1))) _
        (chosen-All P lead records rule vs h))

-- The selected records are in the order of their offsets, each of them is a record of the index
-- (it has every property that all of those have), and matches the rule of a requested variable.
pub selected_in_order :
    (P : IdxRecord → Type 0) (lead : ℕ) (records : List IdxRecord) (rule : Text → Rule)
    (variables : List Text)
    → All P records
    → IsSorted (select_by lead records rule variables).selected_records
      × All
          (λ r. P r × (any_rule lead rule variables r ≡ true))
          (select_by lead records rule variables).selected_records
unfolding select_by
selected_in_order P lead records rule variables h =
    let made = select_all-Entered lead records rule variables no_selection in
    (
      sort_by_offset-IsSorted
          (select_all lead records rule variables no_selection).selected_records,
      sort_by_offset-All _ _ (
          subst (All (λ r. P r × (any_rule lead rule variables r ≡ true))) (sym made.picked)
            (chosen-All P lead records rule variables h)),
    )
