-- ===== src/Storage/Shard/Layout.antt =====
-- The parts of a shard container, and where the readers find them.
use weather.Common.{
  ℕ, zero, suc, ◌+◌, ◌-◌, ◌*◌, ◌<◌, ◌≡◌, refl, sym, ap, ◌∙◌, true, false, Option, none, some, List,
  [], ◌∷◌, ◌++◌, length, take, get_elem?, length-append, arith, ltb, ◌==◌,
}
use mathlib.Core.List.{append_assoc}
use mathlib.Core.Path.{ap₂}
use weather.Common.Slices.{drop-append, take-append, last_part, last_part-append}
use weather.Common.Result.{ok}
use weather.Storage.Shard.{
  Buffer, capacity, le_bytes, shard_magic, index_entries, payload, pack_trailer, trailer_field,
  entry_bytes,
}
use weather.Storage.Shard.Bytes.{index_bytes, length-index_bytes, le_value-le_bytes}
use weather.Storage.Shard.Table.{length-index_entries}

-- The bytes of the trailer for a number of chunks.
abbrev pub trailer_bytes : ℕ → Buffer
trailer_bytes n = le_bytes 4 n ++ (le_bytes 4 (n * 16) ++ le_bytes 4 shard_magic)

pub pack_trailer-eq : (n : ℕ) → n * 16 < capacity 4 → pack_trailer n (n * 16) ≡ ok (trailer_bytes n)
pack_trailer-eq n h = ground arith

pub trailer_fields :
    (n : ℕ)
    → n * 16 < capacity 4
    → (trailer_field 0 (trailer_bytes n) ≡ n)
      × (trailer_field 4 (trailer_bytes n) ≡ n * 16)
      × (trailer_field 8 (trailer_bytes n) ≡ shard_magic)
trailer_fields n h = (le_value-le_bytes 4 n (omega arith), le_value-le_bytes 4 (n * 16) h, refl)

-- The object that the writer puts together.
abbrev pub container : List Buffer → Buffer
container chunks =
    payload chunks ++ (index_bytes (index_entries 0 chunks) ++ trailer_bytes (length chunks))

-- What the readers find at the end of an object.
pub record Tail (chunks : List Buffer) : Type 0 where
  pub long : ltb (length (container chunks)) (length chunks * 16 + 12) ≡ false
  pub bound : length (container chunks) - (length chunks * 16 + 12) ≡ length (payload chunks)
  pub tail :
      last_part (length chunks * 16 + 12) (container chunks)
      ≡ index_bytes (index_entries 0 chunks) ++ trailer_bytes (length chunks)

pub length-table :
    (chunks : List Buffer) → length (index_bytes (index_entries 0 chunks)) ≡ length chunks * 16
length-table chunks =
    length-index_bytes (index_entries 0 chunks) ∙ ap (λ n. n * 16) (length-index_entries 0 chunks)

pub tail_long :
    (chunks : List Buffer)
    → ltb
        (length (index_bytes (index_entries 0 chunks) ++ trailer_bytes (length chunks)))
        (length chunks * 16 + 12)
      ≡ false
tail_long chunks =
    let table = index_bytes (index_entries 0 chunks) in
    ground (arith, length-append table (trailer_bytes (length chunks)), length-table chunks)

pub container-Tail : (chunks : List Buffer) → Tail chunks
container-Tail chunks =
    let table = index_bytes (index_entries 0 chunks) in
    let trailer = trailer_bytes (length chunks) in
    let end : length (table ++ trailer) ≡ length chunks * 16 + 12 =
      omega (arith, length-append table trailer, length-table chunks) in
    let whole = length-append (payload chunks) (table ++ trailer) in
    record {
      long = ground (arith, end, whole);
      bound = omega (arith, end, whole);
      tail =
          last_part-append (length chunks * 16 + 12) (payload chunks) (table ++ trailer) (sym end);
    }

-- What is read for a chunk: its bytes, unless it is empty or there is none.
abbrev pub content : Option Buffer → Option Buffer
content none = none
content (some []) = none
content (some (b ∷ bs)) = some (b ∷ bs)

index_entries-cons :
    (current b : ℕ) (bs : Buffer) (chunks : List Buffer)
    → index_entries current ((b ∷ bs) ∷ chunks)
      ≡ (current, length (b ∷ bs)) ∷ index_entries (current + length (b ∷ bs)) chunks
unfolding index_entries
index_entries-cons current b bs chunks =
    let filled : ltb 0 (length (b ∷ bs)) ≡ true = ground arith in rw filled refl

entry_bytes_self :
    (before : Buffer) (b : ℕ) (bs after : Buffer)
    → entry_bytes (before ++ ((b ∷ bs) ++ after)) (some (length before, length (b ∷ bs)))
      ≡ some (b ∷ bs)
entry_bytes_self before b bs after =
    let filled : (length (b ∷ bs) == 0) ≡ false = ground arith in
    rw filled (
      ap some (
        ap (take (length (b ∷ bs))) (drop-append (length before) before ((b ∷ bs) ++ after) refl)
        ∙ take-append (length (b ∷ bs)) (b ∷ bs) after refl))

pub entry_bytes-eq :
    (before : Buffer) (chunks : List Buffer) (after : Buffer) (i : ℕ)
    → entry_bytes
        (before ++ (payload chunks ++ after))
        (get_elem? (index_entries (length before) chunks) i)
      ≡ content (get_elem? chunks i)
unfolding index_entries
entry_bytes-eq before [] after i = refl
entry_bytes-eq before ([] ∷ chunks) after zero = refl
entry_bytes-eq before ([] ∷ chunks) after (suc i) = entry_bytes-eq before chunks after i
entry_bytes-eq before ((b ∷ bs) ∷ chunks) after zero =
    rw (index_entries-cons (length before) b bs chunks) (
      ap (λ s. entry_bytes (before ++ s) (some (length before, length (b ∷ bs))))
        (append_assoc (b ∷ bs) (payload chunks) after)
      ∙ entry_bytes_self before b bs (payload chunks ++ after))
entry_bytes-eq before ((b ∷ bs) ∷ chunks) after (suc i) =
    rw (index_entries-cons (length before) b bs chunks) (
      let same = append_assoc (b ∷ bs) (payload chunks) after in
      let shift = append_assoc before (b ∷ bs) (payload chunks ++ after) in
      ap₂ entry_bytes (ap (λ s. before ++ s) same ∙ sym shift)
        (ap (λ n. get_elem? (index_entries n chunks) i) (sym (length-append before (b ∷ bs))))
      ∙ entry_bytes-eq (before ++ (b ∷ bs)) chunks after i)
