-- ===== src/Domain/Reclamation/Predecessor.antt =====
-- The predecessor rule of reclamation.py.
use weather.Common.{
  ℕ, ◌+◌, ◌-◌, ◌%◌, ◌≤◌, ◌<◌, ◌≡◌, ◌≢◌, ◌||◌, ◌⊎◌, inl, inr, leb, ltb, Bool-cases, arith,
}
use weather.Common.Int.{pos}
use weather.Common.Result.{ok, raises, Error}
use weather.Domain.Reclamation.{is_predecessor_dependent_lead, get_predecessor_lead}

period_le : (lead r : ℕ) → 0 < lead → lead % r ≡ 0 → r ≤ lead
period_le lead r h m = grind arith

-- The predecessor of a lead exists exactly for the resets, and lies in the same reset period: for
-- a positive width that is at most the period, a positive lead that the period divides has the
-- predecessor `lead - width`, which is not negative and is less than the lead by at most a period.
pub predecessor-in_period :
    (lead w r : ℕ)
    → 0 < w
    → w ≤ r
    → 0 < lead
    → lead % r ≡ 0
    → (p : ℕ) × (get_predecessor_lead lead (pos w) (pos r) ≡ ok (pos p))
      × (p + w ≡ lead)
      × (lead ≤ p + r)
unfolding get_predecessor_lead is_predecessor_dependent_lead
predecessor-in_period lead w r pw wr pl m =
    let le = period_le lead r pl m in (lead - w, ground arith, omega arith, omega arith)

-- The call raises for every other combination.
pub predecessor_raises :
    (lead w r : ℕ)
    → (w ≡ 0) ⊎ ((r < w) ⊎ ((lead ≡ 0) ⊎ (lead % r ≢ 0)))
    → (e : Error) × (get_predecessor_lead lead (pos w) (pos r) ≡ raises e)
unfolding get_predecessor_lead is_predecessor_dependent_lead
predecessor_raises lead w r h = elim (Bool-cases (leb r 0 || leb w 0)) [
  | inl bad ↦ (Error.bad_interval, ground arith)
  | inr fine ↦ elim (Bool-cases (ltb r w)) [
    | inl wide ↦ (Error.bad_interval, ground arith)
    | inr narrow ↦ (Error.not_reset_lead, ground arith)
  ]
]
