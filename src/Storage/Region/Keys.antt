-- ===== src/Storage/Region/Keys.antt =====
-- The domain layer and the ingestion service name the same objects.
use weather.Common.{ℕ, ◌≡◌, refl, Bool, true, false, Option, none, some, ap, ◌++◌}
use mathlib.Core.List.{append_assoc}
use weather.Common.Decimal.{padded}
use weather.Common.Int.{pos}
use weather.Common.Result.{ok}
use weather.Common.Text.{Text, codes, normalize}
use weather.Domain.Reclamation.{
  det, mean, mem, make_region_marker_relative_key, make_shard_relative_key,
}
use weather.Storage.Region.{marker_key, encoded_key, get_shard_key}

-- The marker key that reclamation derives for a region is the key under which ingestion writes
-- the marker of that region: for the deterministic product, the ensemble mean and every member.
pub marker_keys_agree :
    (lead member : ℕ)
    → (make_region_marker_relative_key det lead (pos 0) ≡ ok (marker_key lead none false))
      × (make_region_marker_relative_key mean lead (pos 0) ≡ ok (marker_key lead none true))
      × (make_region_marker_relative_key mem lead (pos member)
          ≡ ok (marker_key lead (some member) false))
unfolding make_region_marker_relative_key marker_key normalize
marker_keys_agree lead member = (refl, refl, refl)

written_key-read_key :
    (variable : Text) (member : Option ℕ) (lead : ℕ) (is_mean : Bool)
    → encoded_key variable member lead is_mean ≡ get_shard_key variable member lead is_mean
unfolding encoded_key get_shard_key
written_key-read_key variable none lead true = refl
written_key-read_key variable (some m) lead true = refl
written_key-read_key variable none lead false = refl
written_key-read_key variable (some m) lead false = refl

-- Ingestion stores a shard under the key at which the serving tier reads it, and reclamation
-- derives the same key for its target: for the deterministic product, the ensemble mean and every
-- member.
pub shard_keys_agree :
    (variable : Text) (lead m : ℕ) (member : Option ℕ) (is_mean : Bool)
    → (encoded_key variable member lead is_mean ≡ get_shard_key variable member lead is_mean)
      × (make_shard_relative_key variable det lead (pos 0)
          ≡ ok (get_shard_key variable none lead false))
      × (make_shard_relative_key variable mean lead (pos 0)
          ≡ ok (get_shard_key variable none lead true))
      × (make_shard_relative_key variable mem lead (pos m)
          ≡ ok (get_shard_key variable (some m) lead false))
unfolding make_shard_relative_key get_shard_key normalize
shard_keys_agree variable lead m member is_mean = (
  written_key-read_key variable member lead is_mean,
  refl,
  refl,
  ap (λ s. ok (variable ++ (codes "/shard.mem" ++ s)))
      (append_assoc (padded 3 m) (codes "_L" ++ padded 4 lead) (codes ".shard")),
)
