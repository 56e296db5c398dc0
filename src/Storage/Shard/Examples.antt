-- ===== src/Storage/Shard/Examples.antt =====
-- Containers on concrete chunks.
use weather.Common.{◌≡◌, refl, true, false, some, List, [], ◌∷◌, take, drop, replicate, arith}
use weather.Common.Int.{pos}
use weather.Common.Result.{ok, raises}
use weather.Storage.Shard.{
  Buffer, index_entries, build_sharded_v1_container, parse_sharded_v1_index, verify_shard_integrity,
  get_shard_index, read_chunk,
}
use weather.Storage.Shard.Container.{container_roundtrip, read_chunk_roundtrip}

abbrev three : List Buffer
three = (1 ∷ 2 ∷ 3 ∷ []) ∷ [] ∷ (9 ∷ []) ∷ []

abbrev many : List Buffer
many = (1 ∷ 2 ∷ 3 ∷ []) ∷ [] ∷ replicate 118 (7 ∷ [])

built : List Buffer → Buffer
unfolding build_sharded_v1_container
built chunks = elim (build_sharded_v1_container chunks) [ ok object ↦ object | raises e ↦ [] ]

-- A truncated object does not pass the check.
truncated_test : verify_shard_integrity (some (drop 1 (built three))) 3 ≡ ok false
unfolding verify_shard_integrity built
truncated_test = refl

-- Nor does one that is checked for another number of chunks.
other_count_test : verify_shard_integrity (some (built three)) 2 ≡ ok false
unfolding verify_shard_integrity built
other_count_test = refl

container_roundtrip_example :
    (object : Buffer) × (build_sharded_v1_container three ≡ ok object)
    × (verify_shard_integrity (some object) 3 ≡ ok true)
    × (get_shard_index (some object) 3 ≡ (0, 3) ∷ (0, 0) ∷ (3, 1) ∷ [])
    × (parse_sharded_v1_index (take 48 (drop 4 object)) 3 ≡ ok ((0, 3) ∷ (0, 0) ∷ (3, 1) ∷ []))
unfolding index_entries
container_roundtrip_example = container_roundtrip three (omega arith) (omega arith)

read_chunk_roundtrip_example : read_chunk (some (built many)) (pos 7) (pos 14) ≡ some (7 ∷ [])
unfolding built
read_chunk_roundtrip_example =
    read_chunk_roundtrip many (omega arith) (omega arith) refl 7 14 (omega arith) (omega arith)
      (built many) refl
