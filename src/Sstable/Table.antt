-- ===== src/Sstable/Table.antt =====
-- data_stores/sstable.rs, `Sstable` and its iterators: opening a file, searching it, reading it all.
use easy_lsm.Base.{
  ℕ, suc, ◌+◌, ◌-◌, ◌^◌, List, [], ◌∷◌, ◌++◌, length, take, drop, ltb, ◌==◌, not, if◌then◌else◌,
  Option, none, some, Ordering,
}
use easy_lsm.Error.{Result, ok, err, manifest_corrupted}
use easy_lsm.Codec.{Bytes, Loggable, read_exact, from_le_bytes}
use easy_lsm.Key
use easy_lsm.Key.{Key, cmp_bytes, eq_bytes}
use easy_lsm.Value.{Value}
use easy_lsm.Entry.{Entry}
use easy_lsm.BloomFilter
use easy_lsm.BloomFilter.{BloomFilter}
use easy_lsm.Sstable.{
  IndexEntry, Sstable, find_block, scan_block, block_entries, decode_index, magic_number_bytes,
}

-- `read_exact_at`
unfoldable pub read_exact_at : ℕ → ℕ → Bytes → Result Bytes
read_exact_at offset n file = elim (read_exact n (drop offset file)) [
  | ok (buf, rest) ↦ ok buf
  | err e ↦ err e
]

unfoldable pub open_index : ℕ → Bytes → BloomFilter → Bytes → Option (Result Sstable)
unfolding decode_index
open_index id file bloom index_data = elim (Key.loggable.decode index_data) [
  | err e ↦ some (err e)
  | ok (sst_min_key, rest) ↦ elim (Key.loggable.decode rest) [
    | err e ↦ some (err e)
    | ok (sst_max_key, rest') ↦ elim (decode_index (suc (length rest')) rest') [
      | none ↦ none
      | some (err e) ↦ some (err e)
      | some (ok index) ↦ some (
          ok (record {
            id = id;
            file = file;
            index = index;
            bloom_filter = bloom;
            min_key = sst_min_key;
            max_key = sst_max_key;
          }))
    ]
  ]
]

module _ (crc32 : Bytes → ℕ) where
  unfoldable pub read_block_with_crc_at : Bytes → ℕ → Result Bytes
  unfolding read_exact_at
  read_block_with_crc_at file offset = elim (read_exact_at offset 4 file) [
    | err e ↦ err e
    | ok len_buf ↦ elim (read_exact_at (offset + 4) 4 file) [
      | err e ↦ err e
      | ok crc_buf ↦ elim (read_exact_at (offset + 8) (from_le_bytes len_buf) file) [
        | err e ↦ err e
        | ok bytes ↦
            if crc32 bytes == from_le_bytes crc_buf then ok bytes else err manifest_corrupted
      ]
    ]
  ]

  unfoldable pub search_block : Sstable → Bytes → ℕ → Option (Result (Option Value))
  unfolding read_block_with_crc_at scan_block
  search_block t key_bytes offset = elim (read_block_with_crc_at t.file offset) [
    | err e ↦ some (err e)
    | ok block_data ↦ scan_block (suc (length block_data)) key_bytes block_data
  ]

  module _ (sip_hash : ℕ × ℕ → Bytes → ℕ) where
    unfoldable pub search : Sstable → Bytes → Option (Result (Option Value))
    unfolding search_block find_block
    search t key_bytes =
        if not (BloomFilter.check sip_hash key_bytes t.bloom_filter)
        then some (ok none)
        else elim (find_block (Key.new key_bytes (2 ^ 64 - 1)) t.index) [
          | none ↦ some (ok none)
          | some e ↦ elim (cmp_bytes e.min.bytes key_bytes) [
            | Ordering.gt ↦ some (ok none)
            | _ ↦ search_block t key_bytes e.offset
          ]
        ]

  -- `SstableIterator`, run to its end: the blocks in the order of the index. An empty block ends it.
  unfoldable pub table_entries : Sstable → List IndexEntry → Option (Result (List Entry))
  unfolding read_block_with_crc_at block_entries
  table_entries t [] = some (ok [])
  table_entries t (e ∷ es) = elim (read_block_with_crc_at t.file e.offset) [
    | err x ↦ some (err x)
    | ok block_data ↦ elim (block_entries (suc (length block_data)) block_data) [
      | none ↦ none
      | some (err x) ↦ some (err x)
      | some (ok here) ↦ elim (table_entries t es) [
        | some (ok later) ↦ some (ok (if length block_data == 0 then [] else here ++ later))
        | other ↦ if length block_data == 0 then some (ok []) else other
      ]
    ]
  ]

  module _ (bloom_loggable : Loggable BloomFilter) where
    unfoldable pub open_blocks : ℕ → Bytes → ℕ → ℕ → Option (Result Sstable)
    unfolding read_block_with_crc_at open_index
    open_blocks id file index_offset bloom_offset =
        elim (read_block_with_crc_at file bloom_offset) [
          | err e ↦ some (err e)
          | ok bloom_data ↦ elim (bloom_loggable.decode bloom_data) [
            | err e ↦ some (err manifest_corrupted)
            | ok (bloom, rest) ↦ elim (read_block_with_crc_at file index_offset) [
              | err e ↦ some (err e)
              | ok index_data ↦ open_index id file bloom index_data
            ]
          ]
        ]

    -- `Sstable::new`, of the file with number `id`.
    unfoldable pub open_table : ℕ → Bytes → Option (Result Sstable)
    unfolding open_blocks
    open_table id file =
        if ltb (length file) 24
        then some (err manifest_corrupted)
        else let footer_buf = drop (length file - 24) file in
          let index_offset = from_le_bytes (take 8 footer_buf) in
          let bloom_offset = from_le_bytes (take 8 (drop 8 footer_buf)) in
          let stored_checksum = from_le_bytes (take 4 (drop 16 footer_buf)) in
          let magic = take 4 (drop 20 footer_buf) in
          if not (eq_bytes magic magic_number_bytes)
          then some (err manifest_corrupted)
          else if not (crc32 (take 16 footer_buf) == stored_checksum)
          then some (err manifest_corrupted)
          else open_blocks id file index_offset bloom_offset
