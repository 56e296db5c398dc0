-- ===== src/Storage/Shard.antt =====
-- The shard container: `build_sharded_v1_container` and `parse_sharded_v1_index` of
-- services/ingestion/src/ingestion/core/zarr_writer.py, `verify_shard_integrity` of
-- core/inventory.py, and the reader of services/api/src/api/core/zarr.py.
pub mod Bytes
pub mod Table
pub mod Layout
pub mod Container
mod Examples
use weather.Common.{
  ℕ, zero, suc, ◌+◌, ◌-◌, ◌*◌, ◌/◌, ◌%◌, Bool, true, false, not, ◌&&◌, ◌||◌, Option, none, some,
  List, [], ◌∷◌, ◌++◌, length, take, drop, get_elem?, ltb, leb, ◌==◌, if◌then◌else◌,
}
use weather.Common.Slices.{last_part}
use weather.Common.Int.{ℤ, pos, negsuc}
use weather.Common.Result.{Result, ok, raises, Error, ◌>>=◌, ◌>>◌, raise_if}

-- Bytes are naturals below 256.
abbrev pub Buffer : Type 0
Buffer = List ℕ

-- A number as `width` bytes, the lowest first, and back.
abbrev pub le_bytes : ℕ → ℕ → Buffer
le_bytes zero n = []
le_bytes (suc width) n = n % 256 ∷ le_bytes width (n / 256)

abbrev pub le_value : Buffer → ℕ
le_value [] = 0
le_value (b ∷ bs) = b + 256 * le_value bs

abbrev pub capacity : ℕ → ℕ
capacity zero = 1
capacity (suc width) = 256 * capacity width

-- `struct.pack` of one unsigned field, which refuses a number that does not fit.
abbrev pub pack : ℕ → ℕ → Result Buffer
pack width n = if ltb n (capacity width) then ok (le_bytes width n) else raises Error.struct_error

abbrev pub shard_magic : ℕ
shard_magic = 1397244242

-- Offset and length of each chunk, from the current offset on; an empty chunk has no place.
pub index_entries : ℕ → List Buffer → List (ℕ × ℕ)
index_entries current [] = []
index_entries current (c ∷ chunks) =
    let filled = index_entries (current + length c) chunks in
    let skipped = index_entries current chunks in
    if ltb 0 (length c) then (current, length c) ∷ filled else (0, 0) ∷ skipped

abbrev pub payload : List Buffer → Buffer
payload [] = []
payload (c ∷ chunks) = c ++ payload chunks

abbrev pub pack_index : List (ℕ × ℕ) → Result Buffer
pack_index [] = ok []
pack_index ((off, size) ∷ entries) = do
  a ← pack 8 off
  b ← pack 8 size
  rest ← pack_index entries
  ok (a ++ (b ++ rest))

abbrev pub pack_trailer : ℕ → ℕ → Result Buffer
pack_trailer num_chunks index_size = do
  a ← pack 4 num_chunks
  b ← pack 4 index_size
  c ← pack 4 shard_magic
  ok (a ++ (b ++ c))

pub build_sharded_v1_container : List Buffer → Result Buffer
unfolding index_entries
build_sharded_v1_container chunks = do
  let entries = index_entries 0 chunks
  index ← pack_index entries
  trailer ← pack_trailer (length chunks) (length entries * 16)
  ok (payload chunks ++ (index ++ trailer))

-- The pair of eight-byte numbers at the head of a buffer.
abbrev pub head_entry : Buffer → ℕ × ℕ
head_entry bs = (le_value (take 8 bs), le_value (take 8 (drop 8 bs)))

-- `struct.unpack_from("<QQ", bs, at)`
abbrev pub unpack_entry : Buffer → ℕ → Result (ℕ × ℕ)
unpack_entry bs at = do
  raise_if (ltb (length bs) (at + 16)) Error.struct_error
  ok (head_entry (drop at bs))

pub unpack_entries : Buffer → ℕ → ℕ → Result (List (ℕ × ℕ))
unpack_entries bs i zero = ok []
unpack_entries bs i (suc n) = do
  e ← unpack_entry bs (i * 16)
  rest ← unpack_entries bs (suc i) n
  ok (e ∷ rest)

pub parse_sharded_v1_index : Buffer → ℕ → Result (List (ℕ × ℕ))
unfolding unpack_entries
parse_sharded_v1_index bs num_chunks = unpack_entries bs 0 num_chunks

-- The loop over the entries: each must end inside of the payload.
pub all_within : Buffer → ℕ → ℕ → ℕ → Result Bool
all_within bs bound i zero = ok true
all_within bs bound i (suc n) = do
  e ← unpack_entry bs (i * 16)
  let rest = all_within bs bound (suc i) n
  if ltb bound (e.0 + e.1) then ok false else rest

-- The three numbers of the trailer of twelve bytes.
abbrev pub trailer_field : ℕ → Buffer → ℕ
trailer_field at trailer = le_value (take 4 (drop at trailer))

-- What is checked of the last bytes of an object of the given size.
pub check_tail : ℕ → ℕ → Buffer → Result Bool
unfolding all_within
check_tail expected size tail =
    let tail_len = expected * 16 + 12 in
    let trailer = last_part 12 tail in
    let num_chunks = trailer_field 0 trailer in
    let within = all_within (take (expected * 16) tail) (size - tail_len) 0 num_chunks in
    if ltb (length tail) tail_len
      || not (trailer_field 8 trailer == shard_magic)
      || not (num_chunks == expected)
      || not (trailer_field 4 trailer == expected * 16)
    then ok false
    else within

-- For the bytes of the object, if there is one.
pub verify_shard_integrity : Option Buffer → ℕ → Result Bool
unfolding check_tail
verify_shard_integrity none expected = ok false
verify_shard_integrity (some object) expected =
    let tail_len = expected * 16 + 12 in
    let checked = check_tail expected (length object) (last_part tail_len object) in
    if ltb (length object) tail_len then ok false else checked

-- `np.frombuffer` of pairs of eight-byte numbers.
pub entries_of : Buffer → ℕ → List (ℕ × ℕ)
entries_of bs zero = []
entries_of bs (suc n) = head_entry bs ∷ entries_of (drop 16 bs) n

-- `get_shard_index` past its cache; the empty list is its shared empty array.
pub get_shard_index : Option Buffer → ℕ → List (ℕ × ℕ)
unfolding entries_of
get_shard_index none expected = []
get_shard_index (some object) expected =
    let tail_len = expected * 16 + 12 in
    let tail = last_part tail_len object in
    if ltb (length object) tail_len || ltb (length tail) tail_len
    then []
    else entries_of (take (expected * 16) tail) expected

-- The bytes of one entry; `none` where the reader answers with missing values.
abbrev pub entry_bytes : Buffer → Option (ℕ × ℕ) → Option Buffer
entry_bytes object none = none
entry_bytes object (some (off, size)) =
    if size == 0 then none else some (take size (drop off object))

abbrev pub object_bytes : Option Buffer → Option (ℕ × ℕ) → Option Buffer
object_bytes none e = none
object_bytes (some object) e = entry_bytes object e

-- The compressed bytes that `read_chunk` decodes; `none` where it answers with missing values.
pub read_chunk : Option Buffer → ℤ → ℤ → Option Buffer
read_chunk object (pos row) (pos col) =
    if leb 8 row || leb 15 col
    then none
    else object_bytes object (get_elem? (get_shard_index object 120) (row * 15 + col))
read_chunk object (pos row) (negsuc col) = none
read_chunk object (negsuc row) col = none
