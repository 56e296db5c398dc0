-- ===== src/Domain/Temporal/Enumeration.antt =====
-- `protected_valid_times` of temporal.py against the test of membership in the protected set.
use weather.Common.{
  ℕ, zero, suc, ◌+◌, ◌*◌, ◌/◌, ◌%◌, ◌≤◌, ◌<◌, ◌≡◌, refl, sym, ◌∙◌, subst, ◌-◌, true, false, Option,
  none, some, List, [], ◌∷◌, ltb, arith, All, elem, get_last?,
}
use weather.Common.Int.{pos}
use weather.Common.Result.{ok, >>=-eq-ok}
use weather.Common.Text.{Text}
use weather.Domain.Time.{aware, add_time, max_instant, hour, hour_of}
use weather.Domain.Horizon.{Registry, canonical_lead_time_hours, leads_from, build_lead_sequence}
use weather.Domain.Temporal.{
  floor_to_cadence, serving_start_valid_time, horizon_cadence, is_whole_hour,
  is_valid_time_protected, protected_valid_times, valid_times,
}
use weather.Domain.Temporal.Boundary.{
  floor_to_cadence-le, floor-whole_hour, floor-hour_of, whole_hour, mod_of_mul, serving_start-eq,
}
use weather.Domain.Temporal.Protected.{protected-eq, model_grid}

abbrev OnGrid : ℕ → Type 0
OnGrid t = (is_whole_hour t ≡ true) × (hour_of t % 3 ≡ 0)

OnGrid-add : (s l : ℕ) → OnGrid s → l % 3 ≡ 0 → OnGrid (s + l * hour)
OnGrid-add s l g h =
    let a : s % hour ≡ 0 = whole_hour s g.0 in
    let b : (s + l * hour) % hour ≡ 0 = omega arith in (ground arith, omega (arith, g.1))

valid_times-cons :
    (s l : ℕ) (ls ts : List ℕ)
    → valid_times s (l ∷ ls) ≡ ok ts
    → (rest : List ℕ) × (valid_times s ls ≡ ok rest) × (ts ≡ (s + l * hour) ∷ rest)
valid_times-cons s l ls ts e =
    let (t, p, q) = >>=-eq-ok (add_time s (l * hour)) _ e in
    let (rest, p', q') = >>=-eq-ok (valid_times s ls) _ q in (rest, p', ground arith)

valid_times-All :
    (s a n : ℕ) (ts : List ℕ)
    → OnGrid s
    → a % 3 ≡ 0
    → valid_times s (leads_from a 3 n) ≡ ok ts
    → All (λ t. OnGrid t × (s ≤ t)) ts
valid_times-All s a zero [] g h e = tt
valid_times-All s a zero (t ∷ ts) g h e = cc
valid_times-All s a (suc n) ts g h e =
    let (rest, p, q) = valid_times-cons s a (leads_from (a + 3) 3 n) ts e in
    rw q ((OnGrid-add s a g h, omega arith), valid_times-All s (a + 3) n rest g (omega arith) p)

valid_times-elem :
    (s a n j : ℕ) (ts : List ℕ)
    → j < n
    → valid_times s (leads_from a 3 n) ≡ ok ts
    → elem (s + (a + 3 * j) * hour) ts ≡ true
valid_times-elem s a zero j ts lt e = absurd (omega arith)
valid_times-elem s a (suc n) zero ts lt e =
    let (rest, p, q) = valid_times-cons s a (leads_from (a + 3) 3 n) ts e in rw q (ground arith)
valid_times-elem s a (suc n) (suc j) ts lt e =
    let (rest, p, q) = valid_times-cons s a (leads_from (a + 3) 3 n) ts e in
    let ih = valid_times-elem s (a + 3) n j rest (omega arith) p in rw q (ground (arith, ih))

-- What a model has whose grids, with and without the version, have the three-hour cadence.
pub record HasThreeHourGrid (r : Registry) (m : Text) (version : Option Text) (last : ℕ)
    : Type 0 where
  pub leads : List ℕ
  pub own_leads : List ℕ
  pub leads_eq : canonical_lead_time_hours r m version none ≡ ok leads
  pub own_leads_eq : canonical_lead_time_hours r m none none ≡ ok own_leads
  pub cadence_eq : horizon_cadence leads ≡ pos 3
  pub own_cadence_eq : horizon_cadence own_leads ≡ pos 3
  pub last_eq : get_last? leads ≡ some last

protected_valid_times-eq :
    (r : Registry) (m : Text) (version : Option Text) (now last : ℕ)
    → HasThreeHourGrid r m version last
    → protected_valid_times r m (aware now) version
      ≡ valid_times (floor_to_cadence 3 now) (build_lead_sequence 0 3 last)
unfolding protected_valid_times floor_to_cadence
protected_valid_times-eq r m version now last h = rw (h.leads_eq, h.cadence_eq, h.last_eq) refl

IsProtected : Registry → Text → ℕ → ℕ → Type 0
IsProtected r m now t = is_valid_time_protected r (aware t) (aware now) (some m) (pos 3) ≡ ok true

IsProtected-of_grid :
    (r : Registry) (m : Text) (now t : ℕ) {leads : List ℕ}
    → canonical_lead_time_hours r m none none ≡ ok leads
    → horizon_cadence leads ≡ pos 3
    → OnGrid t
    → floor_to_cadence 3 now ≤ t
    → IsProtected r m now t
unfolding IsProtected
IsProtected-of_grid r m now t e k g le =
    ground (arith, protected-eq r t now 2 (some m), model_grid r m t e k)

All-IsProtected :
    (r : Registry) (m : Text) (now : ℕ) (ts : List ℕ) {leads : List ℕ}
    → canonical_lead_time_hours r m none none ≡ ok leads
    → horizon_cadence leads ≡ pos 3
    → All (λ t. OnGrid t × (floor_to_cadence 3 now ≤ t)) ts
    → All (IsProtected r m now) ts
All-IsProtected r m now [] e k h = tt
All-IsProtected r m now (t ∷ ts) e k h =
    (IsProtected-of_grid r m now t e k h.0.0 h.0.1, All-IsProtected r m now ts e k h.1)

valid_times_total :
    (s a n last : ℕ)
    → s + last * hour ≤ max_instant
    → a + 3 * n ≤ last + 3
    → (ts : List ℕ) × (valid_times s (leads_from a 3 n) ≡ ok ts)
valid_times_total s a zero last fits short = ([], refl)
valid_times_total s a (suc n) last fits short =
    let (ts, e) = valid_times_total s (a + 3) n last fits (omega arith) in
    let within : ltb max_instant (s + a * hour) ≡ false = ground arith in
    ((s + a * hour) ∷ ts, rw (within, e) refl)

-- For a model whose horizons, with the version and without one, have the three-hour cadence, and a
-- clock that leaves room for its last lead before the end of the calendar, `protected_valid_times` returns, and every time that it lists passes the
-- test of `is_valid_time_protected` for the same clock.
pub protected_valid_times-All :
    (r : Registry) (m : Text) (version : Option Text) (now last : ℕ)
    → HasThreeHourGrid r m version last
    → now + last * hour ≤ max_instant
    → (ts : List ℕ) × (protected_valid_times r m (aware now) version ≡ ok ts)
      × All (λ t. is_valid_time_protected r (aware t) (aware now) (some m) (pos 3) ≡ ok true) ts
unfolding IsProtected
protected_valid_times-All r m version now last h fits =
    let start = floor_to_cadence 3 now in
    let early = floor_to_cadence-le 3 now in
    let (ts, e) = valid_times_total start 0 ((last + 3 - 0) / 3) last (omega arith) (omega arith) in
    let returned = protected_valid_times-eq r m version now last h ∙ e in
    (
      ts,
      returned,
      All-IsProtected r m now ts h.own_leads_eq h.own_cadence_eq (
          valid_times-All start 0 ((last + 3 - 0) / 3) ts
            (floor-whole_hour 3 now, rw (floor-hour_of 3 now) (mod_of_mul (hour_of now) 2))
            (omega arith) e),
    )

grid_of_protected :
    (r : Registry) (m : Text) (now t : ℕ) {leads : List ℕ}
    → canonical_lead_time_hours r m none none ≡ ok leads
    → horizon_cadence leads ≡ pos 3
    → is_valid_time_protected r (aware t) (aware now) (some m) (pos 3) ≡ ok true
    → OnGrid t × (floor_to_cadence 3 now ≤ t)
grid_of_protected r m now t e k h =
    ground (arith, protected-eq r t now 2 (some m), model_grid r m t e k)

-- Two times of the grid are a multiple of three hours apart.
grid_steps :
    (s t last : ℕ)
    → OnGrid s
    → OnGrid t
    → s ≤ t
    → t ≤ s + last * hour
    → (j : ℕ) × (j < (last + 3 - 0) / 3) × (s + (0 + 3 * j) * hour ≡ t)
grid_steps s t last g k le below =
    let a : s % hour ≡ 0 = whole_hour s g.0 in
    let b : t % hour ≡ 0 = whole_hour t k.0 in
    ((t - s) / (3 * hour), omega (arith, g.1, k.1), omega (arith, g.1, k.1))

-- For a model whose horizons, with the version and without one, have the three-hour cadence,
-- `protected_valid_times`, where it returns, lists every time that passes the test of
-- `is_valid_time_protected` and is not after the serving boundary by more than the last lead.
pub protected_valid_times_complete :
    (r : Registry) (m : Text) (version : Option Text) (now last t s : ℕ) (ts : List ℕ)
    → HasThreeHourGrid r m version last
    → protected_valid_times r m (aware now) version ≡ ok ts
    → serving_start_valid_time (aware now) (pos 3) ≡ ok s
    → is_valid_time_protected r (aware t) (aware now) (some m) (pos 3) ≡ ok true
    → t ≤ s + last * hour
    → elem t ts ≡ true
protected_valid_times_complete r m version now last t s ts h e start prot below =
    let b : floor_to_cadence 3 now ≡ s = cc (serving_start-eq now 2) in
    let (g, le) = grid_of_protected r m now t h.own_leads_eq h.own_cadence_eq prot in
    let (j, lt, eq) =
      grid_steps (floor_to_cadence 3 now) t last
        (floor-whole_hour 3 now, rw (floor-hour_of 3 now) (mod_of_mul (hour_of now) 2)) g le
        (omega arith) in
    subst (λ u. elem u ts ≡ true) eq
      (valid_times-elem (floor_to_cadence 3 now) 0 _ j ts lt
        (sym (protected_valid_times-eq r m version now last h) ∙ e))
