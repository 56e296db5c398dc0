-- ===== src/Domain/Horizon/Contract.antt =====
-- The contract of horizon.py: every registered horizon is a non-empty ascending sequence, and a
-- registration is what the next query answers.
use weather.Common.{
  ℕ, ◌<◌, ◌≡◌, ◌≢◌, refl, sym, subst, false, Option, none, some, List, [], ◌∷◌, arith, All,
  Option-cases, Bool-cases, inl, inr,
}
use weather.Common.Int.{ℤ, pos, negsuc}
use weather.Common.Result.{ok}
use weather.Common.Text.{Text, text_eq, normalize}
use weather.Common.Dict.{
  Key, Dict, lookup, insert, text_key, pair_key, lookup-insert, lookup-insert_self,
}
use weather.Domain.Horizon.{
  Registry, initial_registry, platform_horizon, naturals, has_descent, store_horizon,
  register_canonical_lead_horizon, canonical_lead_time_hours,
}

abbrev pub IsIncreasing : List ℕ → Type 0
IsIncreasing [] = Unit
IsIncreasing (x ∷ xs) = All (λ y. x < y) xs × IsIncreasing xs

abbrev pub IsHorizon : List ℕ → Type 0
IsHorizon xs = (xs ≢ []) × IsIncreasing xs

All-lt_trans : (a b : ℕ) (xs : List ℕ) → a < b → All (λ y. b < y) xs → All (λ y. a < y) xs
All-lt_trans a b [] h k = tt
All-lt_trans a b (x ∷ xs) h k = (omega (arith, k.0), All-lt_trans a b xs h k.1)

IsIncreasing-of_test : (xs : List ℕ) → has_descent xs ≡ false → IsIncreasing xs
IsIncreasing-of_test [] h = tt
IsIncreasing-of_test (a ∷ []) h = (tt, tt)
IsIncreasing-of_test (a ∷ b ∷ xs) h =
    let rest : IsIncreasing (b ∷ xs) = IsIncreasing-of_test (b ∷ xs) (ground arith) in
    let lt : a < b = ground arith in ((lt, All-lt_trans a b xs lt rest.0), rest)

module _ {K : Type 0} ⦃key : Key K⦄ {V : Type 0} (P : V → Type 0) where
  pub insert-All :
      (k : K) (v : V) (d : Dict K V) → P v → All (λ e. P e.1) d → All (λ e. P e.1) (insert k v d)
  insert-All k v [] p h = (p, tt)
  insert-All k v ((j, w) ∷ d) p h = elim (Bool-cases (key.eq j k)) [
    | inl same ↦ rw same (p, h.1)
    | inr other ↦ rw other (h.0, insert-All k v d p h.1)
  ]

  pub lookup-All : (k : K) (v : V) (d : Dict K V) → All (λ e. P e.1) d → lookup k d ≡ some v → P v
  lookup-All k v [] h e = cc
  lookup-All k v ((j, w) ∷ d) h e = elim (Bool-cases (key.eq j k)) [
    | inl same ↦ subst P (ground arith) h.0
    | inr other ↦ lookup-All k v d h.1 (ground arith)
  ]

-- Every horizon that is stored, with or without a version, is one.
pub record IsValid (r : Registry) : Type 0 where
  pub canonical_valid : All (λ e. IsHorizon e.1) r.canonical_horizons
  pub version_valid : All (λ e. IsHorizon e.1) r.version_horizons

store_horizon-IsValid :
    (r : Registry) (model : Text) (leads : List ℕ) (version : Option Text)
    → IsHorizon leads
    → IsValid r
    → IsValid (store_horizon r model leads version)
store_horizon-IsValid r model leads none p h = record {
  canonical_valid = insert-All IsHorizon _ leads r.canonical_horizons p h.canonical_valid;
  version_valid = h.version_valid;
}
store_horizon-IsValid r model leads (some version) p h = record {
  canonical_valid = insert-All IsHorizon _ leads r.canonical_horizons p h.canonical_valid;
  version_valid = insert-All IsHorizon _ leads r.version_horizons p h.version_valid;
}

naturals-ne-nil : (x : ℤ) (xs : List ℤ) (ns : List ℕ) → naturals (x ∷ xs) ≡ some ns → ns ≢ []
naturals-ne-nil (pos n) xs ns e h = ground arith
naturals-ne-nil (negsuc n) xs ns e h = cc

-- A registration that passes has stored a sequence of naturals that is a horizon.
register-stored :
    (r later : Registry) (model : Text) (leads : List ℤ) (version : Option Text)
    → register_canonical_lead_horizon r model leads version ≡ ok later
    → (ns : List ℕ) × (naturals leads ≡ some ns)
      × IsHorizon ns
      × (later ≡ store_horizon r model ns version)
unfolding register_canonical_lead_horizon
register-stored r later model [] version e = cc
register-stored r later model (x ∷ leads) version e = elim (Option-cases (naturals (x ∷ leads))) [
  | inl negative ↦ absurd (ground arith)
  | inr (ns, found) ↦ (
    ns,
    found,
    (naturals-ne-nil x leads ns found, IsIncreasing-of_test ns (ground arith)),
    ground arith,
  )
]

-- A registration that passes keeps every horizon of the registry non-empty and ascending, and it
-- passes only for such a sequence of non-negative leads.
pub register-IsValid :
    (r later : Registry) (model : Text) (leads : List ℤ) (version : Option Text)
    → IsValid r
    → register_canonical_lead_horizon r model leads version ≡ ok later
    → IsValid later × ((ns : List ℕ) × (naturals leads ≡ some ns) × IsHorizon ns)
register-IsValid r later model leads version h e =
    let (ns, found, p, q) = register-stored r later model leads version e in
    (subst IsValid (sym q) (store_horizon-IsValid r model ns version p h), (ns, found, p))

platform_horizon-IsHorizon : IsHorizon platform_horizon
platform_horizon-IsHorizon = (λ e. cc, IsIncreasing-of_test platform_horizon refl)

-- The registry that the module starts from is valid.
pub initial_registry-IsValid : IsValid initial_registry
initial_registry-IsValid = record {
  canonical_valid = (platform_horizon-IsHorizon, (platform_horizon-IsHorizon, tt));
  version_valid = (platform_horizon-IsHorizon, (platform_horizon-IsHorizon, tt));
}

module _ (r : Registry) (model : Text) (leads : List ℕ) (default_if_unknown : Option (List ℕ)) where
  query_registered :
      (version : Option Text)
      → canonical_lead_time_hours
          (store_horizon r model leads version)
          model
          version
          default_if_unknown
        ≡ ok leads
  unfolding canonical_lead_time_hours
  query_registered none =
      rw
        (lookup-insert_self (normalize model) leads r.canonical_horizons, canonical_lead_time_hours)
  query_registered (some version) = rw (
    lookup-insert_self (normalize model, normalize version) leads r.version_horizons,
    canonical_lead_time_hours,
  )

  query_model :
      (version : Option Text)
      → canonical_lead_time_hours
          (store_horizon r model leads version)
          model
          none
          default_if_unknown
        ≡ ok leads
  unfolding canonical_lead_time_hours
  query_model none =
      rw
        (lookup-insert_self (normalize model) leads r.canonical_horizons, canonical_lead_time_hours)
  query_model (some version) =
      rw
        (lookup-insert_self (normalize model) leads r.canonical_horizons, canonical_lead_time_hours)

  module _ (other : Text) (differs : text_eq (normalize model) (normalize other) ≡ false) where
    lookup_other :
        lookup (normalize other) (insert (normalize model) leads r.canonical_horizons)
        ≡ lookup (normalize other) r.canonical_horizons
    lookup_other =
        ground (arith, lookup-insert (normalize model) (normalize other) leads r.canonical_horizons)

    lookup_other_version :
        (version wanted : Text)
        → lookup
            (normalize other, normalize wanted)
            (insert (normalize model, normalize version) leads r.version_horizons)
          ≡ lookup (normalize other, normalize wanted) r.version_horizons
    lookup_other_version version wanted = ground (
      arith,
      lookup-insert (normalize model, normalize version) (normalize other, normalize wanted) leads
          r.version_horizons,
    )

    query_other :
        (version wanted : Option Text)
        → canonical_lead_time_hours
            (store_horizon r model leads version)
            other
            wanted
            default_if_unknown
          ≡ canonical_lead_time_hours r other wanted default_if_unknown
    unfolding canonical_lead_time_hours
    query_other none none = rw (lookup_other, canonical_lead_time_hours)
    query_other none (some wanted) = ground (arith, lookup_other)
    query_other (some version) none = rw (lookup_other, canonical_lead_time_hours)
    query_other (some version) (some wanted) =
        ground (arith, lookup_other, lookup_other_version version wanted)

-- After a registration that passed, with or without a version, the query for that version answers
-- the registered leads, under every spelling of the names and whatever the default; so does the
-- query without a version; and every query for a model with another name is answered as before.
pub horizon-register :
    (r later : Registry) (model other : Text) (leads : List ℤ) (version wanted : Option Text)
    (default_if_unknown : Option (List ℕ))
    → register_canonical_lead_horizon r model leads version ≡ ok later
    → (ns : List ℕ) × (naturals leads ≡ some ns)
      × (canonical_lead_time_hours later model version default_if_unknown ≡ ok ns)
      × (canonical_lead_time_hours later model none default_if_unknown ≡ ok ns)
      × (text_eq (normalize model) (normalize other) ≡ false
          → canonical_lead_time_hours later other wanted default_if_unknown
            ≡ canonical_lead_time_hours r other wanted default_if_unknown)
horizon-register r later model other leads version wanted d e =
    let (ns, found, p, q) = register-stored r later model leads version e in
    rw q (
      ns,
      found,
      query_registered r model ns d version,
      query_model r model ns d version,
      λ h. query_other r model ns d other h version wanted,
    )
