-- ===== src/Ingest/Selection/Accounts.antt =====
-- idx_parser.py, the selectors: what the result says of each variable.
use mathlib.Core.List.{append_assoc, append-nil}
use weather.Common.{
  ℕ, ◌≡◌, refl, sym, ◌∙◌, Bool, true, false, ◌&&◌, ◌||◌, Option, none, some, List, [], ◌∷◌, ◌++◌,
  ◌==◌, if◌then◌else◌, keep, Bool-cases, inl, inr, arith,
}
use weather.Common.Text.{Text, text_eq, text_eq_iff}
use weather.Common.Dict.{Dict, insert, lookup, lookup-insert, text_key}
use weather.Domain.Reclamation.{has}
use weather.Ingest.Index.{IdxRecord}
use weather.Ingest.Rules.{Rule, at_step, instantaneous, over_interval, no_record, matches_rule}
use weather.Ingest.Selection.{
  SelectionStatus, selected, unsupported, required_but_missing, ambiguous, VariableSelection,
  SelectionResult, first_only, record_selection, mark_unsupported, mark_empty, apply_rule,
  select_all,
}

abbrev pub is_missing : SelectionStatus → Bool
is_missing required_but_missing = true
is_missing _ = false

abbrev pub is_unsupported : SelectionStatus → Bool
is_unsupported unsupported = true
is_unsupported _ = false

abbrev pub is_ambiguous : SelectionStatus → Bool
is_ambiguous ambiguous = true
is_ambiguous _ = false

abbrev pub selection :
    Text → SelectionStatus → Option IdxRecord → List IdxRecord → VariableSelection
selection var s r matches = record {
  variable_code = var;
  status = s;
  chosen_record = r;
  matched_records = matches;
}

-- The verdict for the records that match.
unfoldable pub verdict_of : Text → List IdxRecord → VariableSelection
verdict_of var [] = selection var required_but_missing none []
verdict_of var (r ∷ []) = selection var selected (some r) (r ∷ [])
verdict_of var (r ∷ s ∷ rs) = selection var ambiguous none (r ∷ s ∷ rs)

-- The verdict of a rule for a variable, whatever is known of the other ones.
unfoldable pub verdict : ℕ → List IdxRecord → Rule → Text → VariableSelection
unfolding verdict_of
verdict lead records (at_step p l) var =
    verdict_of var (keep (matches_rule lead (at_step p l)) records)
verdict lead records (instantaneous p l) var =
    verdict_of var (keep (matches_rule lead (instantaneous p l)) records)
verdict lead records (over_interval p l none) var =
    if lead == 0 then selection var selected none [] else selection var unsupported none []
verdict lead records (over_interval p l (some d)) var =
    if lead == 0
    then selection var selected none []
    else verdict_of var (first_only (keep (matches_rule lead (over_interval p l (some d))) records))
verdict lead records no_record var = selection var unsupported none []

abbrev pub option_list {ℓ} : {A : Type ℓ} → Option A → List A
option_list none = []
option_list (some a) = a ∷ []

abbrev pub when {ℓ} : {A : Type ℓ} → Bool → A → List A
when true a = a ∷ []
when false a = []

-- A verdict is entered in the dictionary, and in the one list of its status.
abbrev pub enter : Text → VariableSelection → SelectionResult → SelectionResult
enter var sel st = record {
  selected_records = st.selected_records ++ option_list sel.chosen_record;
  variable_selections = insert var sel st.variable_selections;
  missing_required = st.missing_required ++ when (is_missing sel.status) var;
  unsupported_variables = st.unsupported_variables ++ when (is_unsupported sel.status) var;
  ambiguous_variables = st.ambiguous_variables ++ when (is_ambiguous sel.status) var;
}

record_selection-enter :
    (var : Text) (matches : List IdxRecord) (st : SelectionResult)
    → record_selection var matches st ≡ enter var (verdict_of var matches) st
unfolding record_selection verdict_of
record_selection-enter var [] st =
    rw
      (
        append-nil st.selected_records,
        append-nil st.unsupported_variables,
        append-nil st.ambiguous_variables,
      )
      refl
record_selection-enter var (r ∷ []) st =
    rw
      (
        append-nil st.missing_required,
        append-nil st.unsupported_variables,
        append-nil st.ambiguous_variables,
      )
      refl
record_selection-enter var (r ∷ s ∷ rs) st =
    rw
      (
        append-nil st.selected_records,
        append-nil st.missing_required,
        append-nil st.unsupported_variables,
      )
      refl

mark_unsupported-enter :
    (var : Text) (st : SelectionResult)
    → mark_unsupported var st ≡ enter var (selection var unsupported none []) st
mark_unsupported-enter var st =
    rw
      (
        append-nil st.selected_records,
        append-nil st.missing_required,
        append-nil st.ambiguous_variables,
      )
      refl

mark_empty-enter :
    (var : Text) (st : SelectionResult)
    → mark_empty var st ≡ enter var (selection var selected none []) st
mark_empty-enter var st =
    rw
      (
        append-nil st.selected_records,
        append-nil st.missing_required,
        append-nil st.unsupported_variables,
        append-nil st.ambiguous_variables,
      )
      refl

if-enter :
    (b : Bool) (var : Text) (x y : VariableSelection) (p q st : SelectionResult)
    → p ≡ enter var x st
    → q ≡ enter var y st
    → (if b then p else q) ≡ enter var (if b then x else y) st
if-enter true var x y p q st h k = h
if-enter false var x y p q st h k = k

-- A branch enters the verdict of its rule.
pub apply_rule-enter :
    (lead : ℕ) (records : List IdxRecord) (rule : Rule) (var : Text) (st : SelectionResult)
    → apply_rule lead records rule var st ≡ enter var (verdict lead records rule var) st
unfolding apply_rule verdict
apply_rule-enter lead records (at_step p l) var st = record_selection-enter var _ st
apply_rule-enter lead records (instantaneous p l) var st = record_selection-enter var _ st
apply_rule-enter lead records (over_interval p l none) var st =
    if-enter (lead == 0) var _ _ _ _ st (mark_empty-enter var st) (mark_unsupported-enter var st)
apply_rule-enter lead records (over_interval p l (some d)) var st =
    if-enter (lead == 0) var _ _ _ _ st (mark_empty-enter var st) (record_selection-enter var _ st)
apply_rule-enter lead records no_record var st = mark_unsupported-enter var st

-- The variables whose verdict has a status, in their order.
abbrev pub with_status :
    (SelectionStatus → Bool) → (Text → VariableSelection) → List Text → List Text
with_status p f [] = []
with_status p f (v ∷ vs) = when (p (f v).status) v ++ with_status p f vs

abbrev pub chosen : (Text → VariableSelection) → List Text → List IdxRecord
chosen f [] = []
chosen f (v ∷ vs) = option_list (f v).chosen_record ++ chosen f vs

pub same-text : {A : Type 0} (w v : Text) (f : Text → A) → text_eq w v ≡ true → f v ≡ f w
same-text w v f e = rw ((text_eq_iff w v).0 e) refl

known-step :
    (f : Text → VariableSelection) (v w : Text) (later : Bool) (d : Dict Text VariableSelection)
    → (if later then some (f w) else lookup w (insert v (f v) d))
      ≡ (if text_eq w v || later then some (f w) else lookup w d)
known-step f v w later d = elim (Bool-cases (text_eq w v)) [
  | inl e ↦
      ground
        (arith, e, same-text w v f e, lookup-insert v w (f v) d, text_eq_iff v w, text_eq_iff w v)
  | inr n ↦ ground (arith, n, lookup-insert v w (f v) d, text_eq_iff v w, text_eq_iff w v)
]

-- What the loop has entered, by the verdicts of the variables.
pub record Entered (f : Text → VariableSelection) (vs : List Text) (st res : SelectionResult)
    : Type 0 where
  pub picked : res.selected_records ≡ st.selected_records ++ chosen f vs
  pub missing : res.missing_required ≡ st.missing_required ++ with_status is_missing f vs
  pub unsupported' :
      res.unsupported_variables ≡ st.unsupported_variables ++ with_status is_unsupported f vs
  pub ambiguous' : res.ambiguous_variables ≡ st.ambiguous_variables ++ with_status is_ambiguous f vs
  pub known :
      (w : Text)
      → lookup w res.variable_selections
        ≡ (if has vs w then some (f w) else lookup w st.variable_selections)

pub select_all-Entered :
    (lead : ℕ) (records : List IdxRecord) (rule : Text → Rule) (vs : List Text)
    (st : SelectionResult)
    → Entered (λ v. verdict lead records (rule v) v) vs st (select_all lead records rule vs st)
unfolding select_all
select_all-Entered lead records rule [] st = record {
  picked = sym (append-nil _);
  missing = sym (append-nil _);
  unsupported' = sym (append-nil _);
  ambiguous' = sym (append-nil _);
  known = λ w. refl;
}
select_all-Entered lead records rule (v ∷ vs) st =
    let f = λ (v : Text). verdict lead records (rule v) v in
    rw (apply_rule-enter lead records (rule v) v st) (
      let rest = select_all-Entered lead records rule vs (enter v (f v) st) in
      record {
        picked = rest.picked ∙ append_assoc st.selected_records _ _;
        missing = rest.missing ∙ append_assoc st.missing_required _ _;
        unsupported' = rest.unsupported' ∙ append_assoc st.unsupported_variables _ _;
        ambiguous' = rest.ambiguous' ∙ append_assoc st.ambiguous_variables _ _;
        known = λ w. rest.known w ∙ known-step f v w (has vs w) st.variable_selections;
      })

has-append : (xs ys : List Text) (w : Text) → has (xs ++ ys) w ≡ (has xs w || has ys w)
has-append [] ys w = refl
has-append (x ∷ xs) ys w = ground (arith, has-append xs ys w)

has-when : (b : Bool) (v w : Text) → has (when b v) w ≡ (b && text_eq w v)
has-when true v w = ground arith
has-when false v w = refl

pub has-with_status :
    (p : SelectionStatus → Bool) (f : Text → VariableSelection) (vs : List Text) (w : Text)
    → has (with_status p f vs) w ≡ (has vs w && p (f w).status)
has-with_status p f [] w = refl
has-with_status p f (v ∷ vs) w =
    has-append (when (p (f v).status) v) (with_status p f vs) w
    ∙ rw (has-when (p (f v).status) v w, has-with_status p f vs w)
        (elim (Bool-cases (text_eq w v)) [
          | inl e ↦ ground (arith, e, same-text w v (λ u. p (f u).status) e)
          | inr n ↦ ground (arith, n)
        ])
