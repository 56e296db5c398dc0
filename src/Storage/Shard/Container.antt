-- ===== src/Storage/Shard/Container.antt =====
-- The shard container as a whole: the writer, the integrity check and the readers agree.
use weather.Common.{
  ℕ, ◌+◌, ◌-◌, ◌*◌, ◌<◌, ◌≡◌, refl, sym, ap, subst, ◌∙◌, true, false, some, List, [], ◌++◌, length,
  take, drop, get_elem?, arith, leb, ◌||◌, ◌==◌,
}
use weather.Common.Int.{pos}
use weather.Common.Slices.{drop-append, take-append, last_part-append}
use weather.Common.Result.{ok, ok-inj}
use weather.Storage.Shard.{
  Buffer, capacity, index_entries, payload, build_sharded_v1_container, parse_sharded_v1_index,
  unpack_entries, check_tail, verify_shard_integrity, all_within, get_shard_index, entries_of,
  read_chunk,
}
use weather.Storage.Shard.Bytes.{
  index_bytes, pack_index-eq, length-index_bytes, entries_of-index_bytes,
}
use weather.Storage.Shard.Table.{
  Holds, length-index_entries, index_entries-within, index_entries-Fits, unpack_entries-eq,
  all_within-eq,
}
use weather.Storage.Shard.Layout.{
  container, trailer_bytes, pack_trailer-eq, trailer_fields, length-table, tail_long,
  container-Tail, entry_bytes-eq, content,
}

module _ (chunks : List Buffer) (small : length (payload chunks) < capacity 8)
    (few : length chunks * 16 < capacity 4) where
  build-eq : build_sharded_v1_container chunks ≡ ok (container chunks)
  unfolding build_sharded_v1_container
  build-eq =
      let n = length-index_entries 0 chunks in
      rw (pack_index-eq (index_entries 0 chunks) (index_entries-Fits chunks small), n)
        (rw (pack_trailer-eq (length chunks) few) refl)

  Holds-table : Holds (index_bytes (index_entries 0 chunks)) 0 (index_entries 0 chunks)
  Holds-table = record {
    part = refl;
    size = omega (arith, length-index_bytes (index_entries 0 chunks));
  }

  check_tail-eq :
      (size : ℕ)
      → size - (length chunks * 16 + 12) ≡ length (payload chunks)
      → check_tail
          (length chunks)
          size
          (index_bytes (index_entries 0 chunks) ++ trailer_bytes (length chunks))
        ≡ ok true
  unfolding check_tail
  check_tail-eq size bound =
      let table = index_bytes (index_entries 0 chunks) in
      let f = trailer_fields (length chunks) few in
      let whole : (length chunks == length chunks) ≡ true = ground arith in
      let sized : (length chunks * 16 == length chunks * 16) ≡ true = ground arith in
      let within =
        all_within-eq table (length (payload chunks)) 0 (index_entries 0 chunks) Holds-table
          (index_entries-Fits chunks small) (index_entries-within 0 _ chunks (omega arith)) in
      let within' =
        subst (λ n. all_within table (length (payload chunks)) 0 n ≡ ok true)
          (length-index_entries 0 chunks) within in
      rw
        (
          last_part-append 12 table (trailer_bytes (length chunks)) refl,
          bound,
          take-append (length chunks * 16) table (trailer_bytes (length chunks))
              (sym (length-table chunks)),
        )
        (rw (tail_long chunks, f.0, f.1) (rw (whole, sized) within'))

  verify-eq : verify_shard_integrity (some (container chunks)) (length chunks) ≡ ok true
  unfolding verify_shard_integrity
  verify-eq =
      let t = container-Tail chunks in
      rw (t.tail, t.long) (check_tail-eq (length (container chunks)) t.bound)

  index-eq : get_shard_index (some (container chunks)) (length chunks) ≡ index_entries 0 chunks
  unfolding get_shard_index
  index-eq =
      let t = container-Tail chunks in
      let table = index_bytes (index_entries 0 chunks) in
      let trailer = trailer_bytes (length chunks) in
      rw
        (
          t.tail,
          t.long,
          tail_long chunks,
          take-append (length chunks * 16) table trailer (sym (length-table chunks)),
        )
        (subst (λ n. entries_of table n ≡ index_entries 0 chunks) (length-index_entries 0 chunks)
          (entries_of-index_bytes (index_entries 0 chunks) (index_entries-Fits chunks small)))

  parse-eq :
      parse_sharded_v1_index (index_bytes (index_entries 0 chunks)) (length chunks)
      ≡ ok (index_entries 0 chunks)
  unfolding parse_sharded_v1_index
  parse-eq =
      subst
        (λ n.
          unpack_entries (index_bytes (index_entries 0 chunks)) 0 n ≡ ok (index_entries 0 chunks))
        (length-index_entries 0 chunks)
        (unpack_entries-eq _ 0 (index_entries 0 chunks) Holds-table
          (index_entries-Fits chunks small))

  table_of :
      take (length chunks * 16) (drop (length (payload chunks)) (container chunks))
      ≡ index_bytes (index_entries 0 chunks)
  table_of =
      let table = index_bytes (index_entries 0 chunks) in
      let trailer = trailer_bytes (length chunks) in
      ap (take (length chunks * 16))
        (drop-append (length (payload chunks)) (payload chunks) (table ++ trailer) refl)
      ∙ take-append (length chunks * 16) table trailer (sym (length-table chunks))

  read-eq :
      length chunks ≡ 120
      → (row col : ℕ) → row < 8
      → col < 15
      → read_chunk (some (container chunks)) (pos row) (pos col)
        ≡ content (get_elem? chunks (row * 15 + col))
  unfolding read_chunk
  read-eq n row col r c =
      let inside : (leb 8 row || leb 15 col) ≡ false = ground arith in
      let entries : get_shard_index (some (container chunks)) 120 ≡ index_entries 0 chunks =
        subst (λ k. get_shard_index (some (container chunks)) k ≡ index_entries 0 chunks) n
          index-eq in
      rw (inside, entries) (entry_bytes-eq [] chunks _ (row * 15 + col))

  -- When the payload has less than 2^64 bytes and the index table less than 2^32, the writer
  -- succeeds, its object passes the integrity check for its number of chunks, and the reader and
  -- the parser both find in it the places that the writer gave to the chunks.
  pub container_roundtrip :
      (object : Buffer) × (build_sharded_v1_container chunks ≡ ok object)
      × (verify_shard_integrity (some object) (length chunks) ≡ ok true)
      × (get_shard_index (some object) (length chunks) ≡ index_entries 0 chunks)
      × (parse_sharded_v1_index
            (take (length chunks * 16) (drop (length (payload chunks)) object))
            (length chunks)
          ≡ ok (index_entries 0 chunks))
  container_roundtrip = (
    container chunks,
    build-eq,
    verify-eq,
    index-eq,
    ap (λ bs. parse_sharded_v1_index bs (length chunks)) table_of ∙ parse-eq,
  )

  -- The writer's object for 120 chunks, within the same bounds: the reader of a chunk of the 8 by
  -- 15 grid gets the bytes that the writer was given for it, and none where they were empty.
  pub read_chunk_roundtrip :
      length chunks ≡ 120
      → (row col : ℕ) → row < 8
      → col < 15
      → (object : Buffer) → build_sharded_v1_container chunks ≡ ok object
      → read_chunk (some object) (pos row) (pos col) ≡ content (get_elem? chunks (row * 15 + col))
  read_chunk_roundtrip n row col r c object built =
      let same : container chunks ≡ object = ok-inj (sym build-eq ∙ built) in
      subst
        (λ o. read_chunk (some o) (pos row) (pos col) ≡ content (get_elem? chunks (row * 15 + col)))
        same (read-eq n row col r c)
