-- ===== src/Ingest/Rules/Windows.antt =====
-- idx_parser.py, the expected descriptions: the windows of accumulation and of averages.
use weather.Common.{
  ℕ, ◌-◌, ◌*◌, ◌/◌, ◌%◌, ◌≡◌, refl, inl, inr, true, false, ◌&&◌, Option, none, some, ltb, leb, ◌==◌,
  if◌then◌else◌, Bool-cases, arith,
}
use weather.Common.Text.{Text, codes}
use weather.Ingest.Rules.{
  window_description, expected_apcp_description, expected_categorical_description,
}

-- The last multiple of six hours before a lead, at which the windows are reset.
abbrev pub reset_before : ℕ → ℕ
reset_before lead = (lead - 1) / 6 * 6

abbrev pub reset_window : Text → ℕ → Option Text
reset_window kind lead =
    if ltb 0 lead && lead % 3 == 0
    then some (window_description kind (reset_before lead) lead)
    else none

-- The test of the lead and the first hour, where the remainder is three, zero, or another.
half_window :
    (lead : ℕ)
    → leb lead 0 ≡ false
    → (lead % 6 == 3) ≡ true
    → ((ltb 0 lead && lead % 3 == 0) ≡ true) × (reset_before lead ≡ lead - 3)
half_window lead h k = (ground arith, ground arith)

whole_window :
    (lead : ℕ)
    → leb lead 0 ≡ false
    → (lead % 6 == 0) ≡ true
    → ((ltb 0 lead && lead % 3 == 0) ≡ true) × (reset_before lead ≡ lead - 6)
whole_window lead h k = (ground arith, ground arith)

no_window :
    (lead : ℕ)
    → (lead % 6 == 3) ≡ false
    → (lead % 6 == 0) ≡ false
    → (ltb 0 lead && lead % 3 == 0) ≡ false
no_window lead h k = ground arith

window_lem :
    (kind : Text) (lead : ℕ)
    → (if leb lead 0
        then none
        else if lead % 6 == 3
        then some (window_description kind (lead - 3) lead)
        else if lead % 6 == 0
        then some (window_description kind (lead - 6) lead)
        else none)
      ≡ reset_window kind lead
window_lem kind lead = elim (Bool-cases (leb lead 0)) [
  | inl none_yet ↦
      let e : (ltb 0 lead && lead % 3 == 0) ≡ false = ground arith in rw (none_yet, e) refl
  | inr positive ↦ elim (Bool-cases (lead % 6 == 3)) [
    | inl half ↦ let (a, b) = half_window lead positive half in rw (positive, half, a, b) refl
    | inr other ↦ elim (Bool-cases (lead % 6 == 0)) [
      | inl whole ↦
          let (a, b) = whole_window lead positive whole in rw (positive, other, whole, a, b) refl
      | inr off ↦ rw (positive, other, off, no_window lead other off) refl
    ]
  ]
]

-- Both kinds of interval variables are expected at the positive multiples of three hours, over
-- the hours since the last reset before the lead, and at no other lead.
pub windows_reset :
    (lead : ℕ)
    → (expected_apcp_description lead ≡ reset_window (codes "acc") lead)
      × (expected_categorical_description lead ≡ reset_window (codes "ave") lead)
unfolding expected_apcp_description expected_categorical_description
windows_reset lead = (window_lem (codes "acc") lead, window_lem (codes "ave") lead)
