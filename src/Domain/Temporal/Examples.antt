-- ===== src/Domain/Temporal/Examples.antt =====
-- Tests of temporal.py's functions, and the theorems about them at concrete inputs.
use weather.Common.{
  ℕ, ◌+◌, ◌*◌, ◌/◌, ◌%◌, ◌≤◌, ◌≡◌, refl, true, false, none, some, List, [], ◌∷◌, arith, All, elem,
}
use weather.Common.Int.{pos}
use weather.Common.Result.{ok, raises, Error}
use weather.Common.Text.{codes, normalize}
use weather.Domain.Time.{aware, naive, hour, day, hour_of}
use weather.Domain.Horizon.{Registry, initial_registry, canonical_lead_time_hours, store_horizon}
use weather.Domain.Temporal.{
  is_whole_hour, serving_start_valid_time, model_serving_start_valid_time, is_valid_time_protected,
  protected_valid_times,
}
use weather.Domain.Temporal.Protected.{serving_start-IsGreatest, model_start_unprotected}
use weather.Domain.Temporal.Enumeration.{
  HasThreeHourGrid, protected_valid_times-All, protected_valid_times_complete,
}

abbrev midnight_of_day : ℕ
midnight_of_day = 739_868 * day

-- 05:30 of that day.
abbrev morning : ℕ
morning = midnight_of_day + 5 * hour + hour / 2

boundary_test : serving_start_valid_time (aware morning) (pos 3) ≡ ok (midnight_of_day + 3 * hour)
unfolding serving_start_valid_time
boundary_test = refl

naive_test : serving_start_valid_time (naive morning) (pos 3) ≡ raises Error.naive_datetime
unfolding serving_start_valid_time
naive_test = refl

serving_start-IsGreatest_example :
    (s : ℕ) × (serving_start_valid_time (aware morning) (pos 3) ≡ ok s)
    × (s ≤ morning)
    × (is_whole_hour s ≡ true)
    × (hour_of s % 3 ≡ 0)
    × ((u : ℕ) → u ≤ morning → is_whole_hour u ≡ true → hour_of u % 3 ≡ 0 → u ≤ s)
serving_start-IsGreatest_example = serving_start-IsGreatest morning 2

-- A model with two leads, three hours apart, and one with leads six hours apart.
abbrev registry : Registry
registry =
    store_horizon (store_horizon initial_registry (codes "nam") (0 ∷ 3 ∷ []) none) (codes "slow")
      (0 ∷ 6 ∷ []) none

abbrev listed : List ℕ
listed = (midnight_of_day + 3 * hour) ∷ (midnight_of_day + 6 * hour) ∷ []

three_hours : HasThreeHourGrid registry (codes "nam") none 3
unfolding canonical_lead_time_hours normalize
three_hours = record {
  leads = 0 ∷ 3 ∷ [];
  own_leads = 0 ∷ 3 ∷ [];
  leads_eq = refl;
  own_leads_eq = refl;
  cadence_eq = refl;
  own_cadence_eq = refl;
  last_eq = refl;
}

protected_valid_times-All_example :
    (ts : List ℕ) × (protected_valid_times registry (codes "nam") (aware morning) none ≡ ok ts)
    × All
        (λ t.
          is_valid_time_protected registry (aware t) (aware morning) (some (codes "nam")) (pos 3)
          ≡ ok true)
        ts
protected_valid_times-All_example =
    protected_valid_times-All registry (codes "nam") none morning 3 three_hours (omega arith)

protected_valid_times_complete_example : elem (midnight_of_day + 6 * hour) listed ≡ true
unfolding protected_valid_times is_valid_time_protected serving_start_valid_time
    canonical_lead_time_hours normalize
protected_valid_times_complete_example =
    protected_valid_times_complete registry (codes "nam") none morning 3
      (midnight_of_day + 6 * hour) (midnight_of_day + 3 * hour) listed three_hours refl refl refl
      (omega arith)

model_start_unprotected_example :
    (s : ℕ) × (model_serving_start_valid_time registry (codes "slow") (aware morning) ≡ ok s)
    × (is_valid_time_protected registry (aware s) (aware morning) (some (codes "slow")) (pos 3)
        ≡ ok false)
unfolding model_serving_start_valid_time serving_start_valid_time canonical_lead_time_hours
    normalize
model_start_unprotected_example =
    model_start_unprotected registry (codes "slow") morning 5 (0 ∷ 6 ∷ []) refl refl (omega arith)
