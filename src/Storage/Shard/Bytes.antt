-- ===== src/Storage/Shard/Bytes.antt =====
-- Little-endian numbers, and what `struct` reads back from what it packed.
use weather.Common.{ℕ, zero, suc, ◌*◌, ◌/◌, ◌<◌, ◌≡◌, refl, List, [], ◌∷◌, ◌++◌, length, All, arith}
use weather.Common.Result.{ok}
use weather.Storage.Shard.{Buffer, le_bytes, le_value, capacity, pack_index, head_entry, entries_of}

pub length-le_bytes : (width n : ℕ) → length (le_bytes width n) ≡ width
length-le_bytes zero n = refl
length-le_bytes (suc width) n = omega (arith, length-le_bytes width (n / 256))

pub le_value-le_bytes : (width n : ℕ) → n < capacity width → le_value (le_bytes width n) ≡ n
le_value-le_bytes zero n h = omega arith
le_value-le_bytes (suc width) n h = omega (arith, le_value-le_bytes width (n / 256) (omega arith))

-- Whether both numbers of an entry fit eight bytes.
abbrev pub Fits : ℕ × ℕ → Type 0
Fits e = (e.0 < capacity 8) × (e.1 < capacity 8)

-- The index table of entries that fit.
abbrev pub index_bytes : List (ℕ × ℕ) → Buffer
index_bytes [] = []
index_bytes ((off, size) ∷ entries) = le_bytes 8 off ++ (le_bytes 8 size ++ index_bytes entries)

pub pack_index-eq : (es : List (ℕ × ℕ)) → All Fits es → pack_index es ≡ ok (index_bytes es)
pack_index-eq [] h = refl
pack_index-eq ((off, size) ∷ es) h = ground (arith, pack_index-eq es h.1)

pub length-index_bytes : (es : List (ℕ × ℕ)) → length (index_bytes es) ≡ length es * 16
length-index_bytes [] = refl
length-index_bytes ((off, size) ∷ es) = omega (arith, length-index_bytes es)

pub head_entry-eq :
    (off size : ℕ) (rest : Buffer)
    → Fits (off, size)
    → head_entry (le_bytes 8 off ++ (le_bytes 8 size ++ rest)) ≡ (off, size)
head_entry-eq off size rest h = rw (le_value-le_bytes 8 off h.0, le_value-le_bytes 8 size h.1) refl

-- The table is read back entry by entry.
pub entries_of-index_bytes :
    (es : List (ℕ × ℕ)) → All Fits es → entries_of (index_bytes es) (length es) ≡ es
unfolding entries_of
entries_of-index_bytes [] h = refl
entries_of-index_bytes ((off, size) ∷ es) h =
    rw (head_entry-eq off size (index_bytes es) h.0, entries_of-index_bytes es h.1) refl
