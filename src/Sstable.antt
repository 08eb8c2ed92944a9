-- ===== src/Sstable.antt =====
-- data_stores/sstable.rs: sorted tables on disk. A file is its bytes. The checksum is a parameter,
-- and so are the hashes of the Bloom filter and its form on disk, which the crate bincode makes.
pub mod Block
pub mod Writer
pub mod Table
pub mod Frame
pub mod Layout
pub mod Build
pub mod Index
pub mod Lookup
pub mod Reading
pub mod Opening
pub mod Whole
pub mod Items
pub mod Ends
use easy_lsm.Base.{
  ℕ, zero, suc, ◌+◌, ◌-◌, ◌%◌, ◌^◌, ◌<◌, ◌≡◌, List, [], ◌∷◌, ◌++◌, length, take, drop, Bool, true,
  false, ltb, leb, ◌==◌, ◌&&◌, ◌||◌, not, if◌then◌else◌, Option, none, some, get_elem?, Ordering,
}
use easy_lsm.Error.{Result, DbError, ok, err, io, IoError, not_found, manifest_corrupted}
use easy_lsm.Codec.{
  Bytes, Reader, pure, fail, ◌>>=◌, ◌>>◌, read_exact, Loggable, u32, u64, from_le_bytes,
}
use easy_lsm.Key
use easy_lsm.Key.{Key, key_lt, cmp_bytes, eq_bytes}
use easy_lsm.Value
use easy_lsm.Value.{Value}
use easy_lsm.Entry.{Entry}
use easy_lsm.BloomFilter
use easy_lsm.BloomFilter.{BloomFilter}
use easy_lsm.Manifest.{FileMetadata}

abbrev pub block_size : ℕ
block_size = 4096

-- 0x41 0x42 0x43 0x44
abbrev pub magic_number_bytes : Bytes
magic_number_bytes = 0x41 ∷ 0x42 ∷ 0x43 ∷ 0x44 ∷ []

pub record BlockBuilder : Type 0 where
  pub buffer : Bytes
  pub min_key : Option Key
  pub max_key : Option Key

-- A key range with the offset of its block.
pub record IndexEntry : Type 0 where
  pub min : Key
  pub max : Key
  pub offset : ℕ

-- `file` is what was written so far; its length is the stream position.
pub record SstableWriter : Type 0 where
  pub file : Bytes
  pub current_block : BlockBuilder
  pub index_entries : List IndexEntry
  pub bloom_filter : BloomFilter
  pub min_key : Option Key
  pub max_key : Option Key

pub record Sstable : Type 0 where
  pub id : ℕ
  pub file : Bytes
  pub index : List IndexEntry
  pub bloom_filter : BloomFilter
  pub min_key : Key
  pub max_key : Key

unfoldable pub new_block : BlockBuilder
new_block = record { buffer = []; min_key = none; max_key = none }

abbrev pub or_first : Option Key → Key → Option Key
or_first none key = some key
or_first (some k) key = some k

unfoldable pub add : Key → Value → BlockBuilder → BlockBuilder
add key value b = record {
  buffer = b.buffer ++ (Key.loggable.encode key ++ Value.loggable.encode value);
  min_key = or_first b.min_key key;
  max_key = some key;
}

unfoldable pub is_full : BlockBuilder → Bool
is_full b = leb block_size (length b.buffer)

unfoldable pub is_empty : BlockBuilder → Bool
is_empty b = length b.buffer == 0

-- `partition_point(|(_, max, _)| max < &target)` by its documented result on a sorted index: the
-- first entry that fails the test.
unfoldable pub find_block : Key → List IndexEntry → Option IndexEntry
find_block target [] = none
find_block target (e ∷ es) = if key_lt e.max target then find_block target es else some e

-- The linear scan of a block; `none`: out of fuel.
unfoldable pub scan_block : ℕ → Bytes → Bytes → Option (Result (Option Value))
scan_block zero key_bytes cursor = none
scan_block (suc fuel) key_bytes [] = some (ok none)
scan_block (suc fuel) key_bytes (b ∷ bs) = elim (Key.loggable.decode (b ∷ bs)) [
  | err e ↦ some (err e)
  | ok (k, rest) ↦ elim (Value.loggable.decode rest) [
    | err e ↦ some (err e)
    | ok (v, rest') ↦
        let more = scan_block fuel key_bytes rest' in
        if eq_bytes k.bytes key_bytes
        then some (ok (some v))
        else elim (cmp_bytes k.bytes key_bytes) [ Ordering.gt ↦ some (ok none) | _ ↦ more ]
  ]
]

-- `BlockIterator`, run to its end.
unfoldable pub block_entries : ℕ → Bytes → Option (Result (List Entry))
block_entries zero cursor = none
block_entries (suc fuel) [] = some (ok [])
block_entries (suc fuel) (b ∷ bs) = elim (Key.loggable.decode (b ∷ bs)) [
  | err e ↦ some (err e)
  | ok (k, rest) ↦ elim (Value.loggable.decode rest) [
    | err e ↦ some (err e)
    | ok (v, rest') ↦ elim (block_entries fuel rest') [
      | some (ok es) ↦ some (ok ((k, v) ∷ es))
      | some (err e) ↦ some (err e)
      | none ↦ none
    ]
  ]
]

decode_index_entry : Reader IndexEntry
decode_index_entry = do
  block_min ← Key.loggable.decode
  block_max ← Key.loggable.decode
  offset ← u64.decode
  pure (record { min = block_min; max = block_max; offset = offset })

-- The rest of the index block.
unfoldable pub decode_index : ℕ → Bytes → Option (Result (List IndexEntry))
unfolding decode_index_entry
decode_index zero cursor = none
decode_index (suc fuel) [] = some (ok [])
decode_index (suc fuel) (b ∷ bs) = elim (decode_index_entry (b ∷ bs)) [
  | err e ↦ some (err e)
  | ok (entry, rest) ↦ elim (decode_index fuel rest) [
    | some (ok es) ↦ some (ok (entry ∷ es))
    | some (err e) ↦ some (err e)
    | none ↦ none
  ]
]

unfoldable pub encode_index : List IndexEntry → Bytes
encode_index [] = []
encode_index (e ∷ es) =
    (Key.loggable.encode e.min ++ (Key.loggable.encode e.max ++ u64.encode e.offset))
    ++ encode_index es

unfoldable pub encode_range : Option Key → Option Key → Bytes
encode_range (some min) (some max) = Key.loggable.encode min ++ Key.loggable.encode max
encode_range _ _ = []

abbrev pub or_empty : Option Key → Key
or_empty none = Key.new [] 0
or_empty (some key) = key
