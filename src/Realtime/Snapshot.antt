-- ===== src/Realtime/Snapshot.antt =====
-- The view of one cycle that upstream has published: `CycleSnapshot` of
-- services/ingestion/src/ingestion/providers/noaa/discovery.py. The fields that only diagnostics
-- read are left out.
use weather.Common.{
  ℕ, ◌≡◌, ◌↔◌, Bool, true, false, not, ◌&&◌, Option, none, some, List, [], ◌∷◌, arith, ltb, ◌==◌,
  if◌then◌else◌, elem, keep, get_last?, length,
}
use weather.Common.Text.{Text}
use weather.Common.Dict.{Key, Dict, lookup, nat_key}

pub record ArtifactObservation : Type 0 where
  pub key : Text
  pub size : ℕ
  pub etag : Option Text
  pub last_modified : Option ℕ

pub record RegionArtifacts : Type 0 where
  pub observed_data : Option ArtifactObservation
  pub observed_idx : Option ArtifactObservation

abbrev pub is_listed : Option ArtifactObservation → Bool
is_listed none = false
is_listed (some a) = true

abbrev pub is_complete : RegionArtifacts → Bool
is_complete r = is_listed r.observed_data && is_listed r.observed_idx

abbrev pub absent_region : RegionArtifacts
absent_region = record { observed_data = none; observed_idx = none }

-- `(member, lead)`, with no member for a deterministic product.
abbrev pub RegionKey : Type 0
RegionKey = Option ℕ × ℕ

abbrev pub member_eq : Option ℕ → Option ℕ → Bool
member_eq none none = true
member_eq none (some n) = false
member_eq (some m) none = false
member_eq (some m) (some n) = m == n

abbrev pub region_key_eq : RegionKey → RegionKey → Bool
region_key_eq (m, l) (n, k) = member_eq m n && l == k

pub region_key_eq_iff : (p q : RegionKey) → (region_key_eq p q ≡ true) ↔ (p ≡ q)
region_key_eq_iff (none, l) (none, k) = ground arith
region_key_eq_iff (none, l) (some n, k) = ground arith
region_key_eq_iff (some m, l) (none, k) = ground arith
region_key_eq_iff (some m, l) (some n, k) = ground arith

instance abbrev pub region_key : Key RegionKey
region_key = record { eq = region_key_eq; eq_iff = region_key_eq_iff }

pub record CycleSnapshot : Type 0 where
  pub regions : Dict RegionKey RegionArtifacts
  pub mean_regions : Dict ℕ RegionArtifacts

-- Into an ascending list, once.
abbrev pub insert_sorted : ℕ → List ℕ → List ℕ
insert_sorted a [] = a ∷ []
insert_sorted a (x ∷ xs) =
    if ltb a x then a ∷ x ∷ xs else if a == x then x ∷ xs else x ∷ insert_sorted a xs

-- `sorted({lead for (_, lead) in regions})`
abbrev pub sorted_leads : Dict RegionKey RegionArtifacts → List ℕ
sorted_leads [] = []
sorted_leads (((m, lead), a) ∷ rest) = insert_sorted lead (sorted_leads rest)

pub observed_leads : CycleSnapshot → List ℕ
observed_leads s = sorted_leads s.regions

pub highest_observed_lead : CycleSnapshot → Option ℕ
unfolding observed_leads
highest_observed_lead s = get_last? (observed_leads s)

abbrev pub or_absent : Option RegionArtifacts → RegionArtifacts
or_absent none = absent_region
or_absent (some a) = a

unfoldable pub region : CycleSnapshot → Option ℕ → ℕ → RegionArtifacts
region s member lead = or_absent (lookup (member, lead) s.regions)

unfoldable pub is_artifact_complete : CycleSnapshot → Option ℕ → ℕ → Bool
unfolding region
is_artifact_complete s member lead = is_complete (region s member lead)

pub is_mean_complete : CycleSnapshot → ℕ → Bool
is_mean_complete s lead = is_complete (or_absent (lookup lead s.mean_regions))

-- The members of a listing whose artifact for the lead is complete, ascending.
abbrev pub complete_members : ℕ → Dict RegionKey RegionArtifacts → List ℕ
complete_members lead [] = []
complete_members lead (((none, l), a) ∷ rest) = complete_members lead rest
complete_members lead (((some m, l), a) ∷ rest) =
    let others = complete_members lead rest in
    if l == lead && is_complete a then insert_sorted m others else others

unfoldable pub available_members : CycleSnapshot → ℕ → List ℕ
available_members s lead = complete_members lead s.regions

pub complete_member_count : CycleSnapshot → ℕ → ℕ
unfolding available_members
complete_member_count s lead = length (available_members s lead)

unfoldable pub missing_members : CycleSnapshot → ℕ → List ℕ → List ℕ
unfolding available_members
missing_members s lead expected = keep (λ m. not (elem m (available_members s lead))) expected
