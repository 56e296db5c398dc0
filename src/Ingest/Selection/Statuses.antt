-- ===== src/Ingest/Selection/Statuses.antt =====
-- idx_parser.py, the selectors: the status of each variable, and when a result is valid.
use weather.Common.{
  ℕ, ◌≡◌, ◌<◌, ◌↔◌, refl, ap, sym, ◌∙◌, Bool, true, false, ◌||◌, Option, none, some, List, [], ◌∷◌,
  ◌==◌, if◌then◌else◌, keep, keep-nil, All, length, first, arith, subst,
}
use weather.Common.Text.{Text, text_eq_refl}
use weather.Common.Dict.{Dict, lookup, text_key}
use weather.Domain.Reclamation.{has}
use weather.Ingest.Index.{IdxRecord}
use weather.Ingest.Rules.{Rule, at_step, instantaneous, over_interval, no_record, matches_rule}
use weather.Ingest.Selection.{
  SelectionStatus, selected, unsupported, required_but_missing, ambiguous, VariableSelection,
  SelectionResult, first_only, no_selection, select_by, is_valid, is_empty_list,
}
use weather.Ingest.Selection.Accounts.{
  is_missing, is_unsupported, is_ambiguous, selection, verdict_of, verdict, with_status,
  select_all-Entered, has-with_status,
}

abbrev pub is_interval : Rule → Bool
is_interval (over_interval p l d) = true
is_interval rule = false

-- Whether a rule asks for records at all.
abbrev pub is_supported : Rule → Bool
is_supported (over_interval p l none) = false
is_supported no_record = false
is_supported rule = true

-- What a status says of the records and the rule: a variable is selected without a record only
-- for an interval at analysis time, and otherwise with the first record that matches, which is
-- the only one unless the rule is over an interval; it is missing when the rule asks for records
-- and none matches, ambiguous when several match a rule that is not over an interval, and
-- unsupported when the rule asks for no record.
unfoldable pub Says : ℕ → List IdxRecord → Rule → SelectionStatus → Option IdxRecord → Type 0
Says lead records rule selected none = (lead ≡ 0) × (is_interval rule ≡ true)
Says lead records rule selected (some r) =
    (first (keep (matches_rule lead rule) records) ≡ some r)
    × ((is_interval rule || length (keep (matches_rule lead rule) records) == 1) ≡ true)
    × (is_supported rule ≡ true)
Says lead records rule unsupported r = is_supported rule ≡ false
Says lead records rule required_but_missing r =
    (is_supported rule ≡ true) × All (λ r. matches_rule lead rule r ≡ false) records
Says lead records rule ambiguous r =
    (is_interval rule ≡ false) × (1 < length (keep (matches_rule lead rule) records))

verdict_of-Says :
    (lead : ℕ) (records : List IdxRecord) (rule : Rule) (var : Text) (ms : List IdxRecord)
    → is_interval rule ≡ false
    → is_supported rule ≡ true
    → keep (matches_rule lead rule) records ≡ ms
    → Says lead records rule (verdict_of var ms).status (verdict_of var ms).chosen_record
unfolding Says verdict_of
verdict_of-Says lead records rule var [] i u e = (u, keep-nil (matches_rule lead rule) records e)
verdict_of-Says lead records rule var (r ∷ []) i u e = (ap first e, rw (i, e) refl, u)
verdict_of-Says lead records rule var (r ∷ s ∷ rs) i u e =
    (i, subst (λ ms. 1 < length ms) (sym e) (omega arith))

first_only-Says :
    (lead : ℕ) (records : List IdxRecord) (rule : Rule) (var : Text) (ms : List IdxRecord)
    → is_interval rule ≡ true
    → is_supported rule ≡ true
    → keep (matches_rule lead rule) records ≡ ms
    → Says lead records rule
        (verdict_of var (first_only ms)).status
        (verdict_of var (first_only ms)).chosen_record
unfolding Says verdict_of
first_only-Says lead records rule var [] i u e = (u, keep-nil (matches_rule lead rule) records e)
first_only-Says lead records rule var (r ∷ rs) i u e = (ap first e, rw i refl, u)

-- At a lead of zero a verdict over an interval is empty, at any other it is as given.
interval-Says :
    (lead : ℕ) (records : List IdxRecord) (rule : Rule) (var : Text) (later : VariableSelection)
    → is_interval rule ≡ true
    → Says lead records rule later.status later.chosen_record
    → Says lead records rule
        (if lead == 0 then selection var selected none [] else later).status
        (if lead == 0 then selection var selected none [] else later).chosen_record
interval-Says lead records rule var later i h = go (lead == 0) (λ e. ground arith)
  where
    go :
        (b : Bool)
        → (b ≡ true → lead ≡ 0)
        → Says lead records rule
            (if b then selection var selected none [] else later).status
            (if b then selection var selected none [] else later).chosen_record
    go true z = unfold Says in (z refl, i)
    go false z = h

verdict-Says :
    (lead : ℕ) (records : List IdxRecord) (rule : Rule) (var : Text)
    → Says lead records rule
        (verdict lead records rule var).status
        (verdict lead records rule var).chosen_record
unfolding verdict
verdict-Says lead records (at_step p l) var =
    verdict_of-Says lead records (at_step p l) var _ refl refl refl
verdict-Says lead records (instantaneous p l) var =
    verdict_of-Says lead records (instantaneous p l) var _ refl refl refl
verdict-Says lead records (over_interval p l none) var =
    interval-Says lead records _ var _ refl (unfold Says in refl)
verdict-Says lead records (over_interval p l (some d)) var =
    interval-Says lead records _ var _ refl
      (first_only-Says lead records (over_interval p l (some d)) var _ refl refl refl)
verdict-Says lead records no_record var = unfold Says in refl

-- Every requested variable has an entry, and is in the list of the missing, the unsupported or the
-- ambiguous variables exactly when it has that status: it is selected with the first record that
-- matches its rule, the only one unless the rule is over an interval, or without a record for an
-- interval at lead 0; it is missing when its rule asks for records and none matches, ambiguous
-- when several match and the rule is not over an interval, and unsupported when the rule asks for
-- no record.
pub selection_accounts :
    (lead : ℕ) (records : List IdxRecord) (rule : Text → Rule) (variables : List Text) (w : Text)
    → has variables w ≡ true
    → (sel : VariableSelection) × (lookup w
          (select_by lead records rule variables).variable_selections
        ≡ some sel)
      × Says lead records (rule w) sel.status sel.chosen_record
      × (has (select_by lead records rule variables).missing_required w ≡ is_missing sel.status)
      × (has (select_by lead records rule variables).unsupported_variables w
          ≡ is_unsupported sel.status)
      × (has (select_by lead records rule variables).ambiguous_variables w
          ≡ is_ambiguous sel.status)
unfolding select_by
selection_accounts lead records rule variables w h =
    let f = λ (v : Text). verdict lead records (rule v) v in
    let made = select_all-Entered lead records rule variables no_selection in
    (
      f w,
      made.known w ∙ rw h refl,
      verdict-Says lead records (rule w) w,
      ap (λ (l : List Text). has l w) made.missing
          ∙ has-with_status is_missing f variables w
          ∙ rw h refl,
      ap (λ (l : List Text). has l w) made.unsupported'
          ∙ has-with_status is_unsupported f variables w
          ∙ rw h refl,
      ap (λ (l : List Text). has l w) made.ambiguous'
          ∙ has-with_status is_ambiguous f variables w
          ∙ rw h refl,
    )

with_status-nil :
    (p : SelectionStatus → Bool) (f : Text → VariableSelection) (vs : List Text)
    → ((w : Text) → has vs w ≡ true → p (f w).status ≡ false)
    → with_status p f vs ≡ []
with_status-nil p f [] h = refl
with_status-nil p f (v ∷ vs) h =
    rw (h v (ground (arith, text_eq_refl v)))
      (with_status-nil p f vs (λ w k. h w (ground (arith, k))))

is_empty_list-nil : (xs : List Text) → is_empty_list xs ≡ true → xs ≡ []
is_empty_list-nil [] h = refl
is_empty_list-nil (x ∷ xs) h = cc

some-inj : {A : Type 0} {a b : A} → some a ≡ some b → a ≡ b
some-inj h = cc

entered-known :
    (f : Text → VariableSelection) (vs : List Text) (d : Dict Text VariableSelection) (w : Text)
    → has vs w ≡ true
    → lookup w d ≡ (if has vs w then some (f w) else none)
    → lookup w d ≡ some (f w)
entered-known f vs d w h e = e ∙ rw h refl

-- The variable is neither missing nor ambiguous.
abbrev pub IsResolved : SelectionResult → Text → Type 0
IsResolved res w =
    (sel : VariableSelection) × (lookup w res.variable_selections ≡ some sel)
    × (is_missing sel.status ≡ false)
    × (is_ambiguous sel.status ≡ false)

-- A result is valid exactly when every requested variable is selected, or not supported by the
-- product.
pub valid_iff :
    (lead : ℕ) (records : List IdxRecord) (rule : Text → Rule) (variables : List Text)
    → (is_valid (select_by lead records rule variables) ≡ true)
      ↔ ((w : Text) → has variables w ≡ true → IsResolved (select_by lead records rule variables) w)
unfolding is_valid select_by
valid_iff lead records rule variables =
    let res = select_by lead records rule variables in
    let f = λ (v : Text). verdict lead records (rule v) v in
    let made = select_all-Entered lead records rule variables no_selection in
    (
      (λ valid w h.
          let (sel, e, says, m, u, a) = selection_accounts lead records rule variables w h in
          let no_missing = is_empty_list-nil res.missing_required (ground (arith, valid)) in
          let no_ambiguous = is_empty_list-nil res.ambiguous_variables (ground (arith, valid)) in
          (
            sel,
            e,
            sym m ∙ ap (λ (l : List Text). has l w) no_missing,
            sym a ∙ ap (λ (l : List Text). has l w) no_ambiguous,
          )),
      λ resolved.
          let is-sel = λ (w : Text) (h : has variables w ≡ true).
            some-inj {a = f w} {b = (resolved w h).0} (
              sym (entered-known f variables res.variable_selections w h (made.known w))
              ∙ (resolved w h).1) in
          let no_missing = with_status-nil is_missing f variables (λ w h.
            ap (λ (s : VariableSelection). is_missing s.status) (is-sel w h) ∙ (resolved w h).2) in
          let no_ambiguous = with_status-nil is_ambiguous f variables (λ w h.
            ap (λ (s : VariableSelection). is_ambiguous s.status) (is-sel w h)
            ∙ (resolved w h).3) in
          rw (made.missing ∙ no_missing, made.ambiguous' ∙ no_ambiguous) refl,
    )
