-- ===== src/Sstable/Writer.antt =====
-- data_stores/sstable.rs, `SstableWriter`: blocks, index, filter and footer.
use easy_lsm.Base.{
  ℕ, ◌%◌, ◌^◌, List, [], ◌∷◌, ◌++◌, length, ◌==◌, if◌then◌else◌, Option, none, some,
}
use easy_lsm.Codec.{Bytes, Loggable, u32, u64}
use easy_lsm.Key.{Key}
use easy_lsm.Value.{Value}
use easy_lsm.BloomFilter
use easy_lsm.BloomFilter.{BloomFilter}
use easy_lsm.Manifest.{FileMetadata}
use easy_lsm.Sstable.{
  BlockBuilder, IndexEntry, SstableWriter, new_block, add, is_full, is_empty, or_first, or_empty,
  encode_index, encode_range, magic_number_bytes,
}

unfoldable pub new : BloomFilter → SstableWriter
unfolding new_block
new new_filter = record {
  file = [];
  current_block = new_block;
  index_entries = [];
  bloom_filter = new_filter;
  min_key = none;
  max_key = none;
}

unfoldable pub push_index : Option Key → Option Key → ℕ → List IndexEntry → List IndexEntry
push_index (some min) (some max) offset es =
    es ++ (record { min = min; max = max; offset = offset } ∷ [])
push_index _ _ offset es = es

unfoldable pub current_size : SstableWriter → ℕ
current_size w = length w.file

module _ (crc32 : Bytes → ℕ) where
  -- `[len][crc][data]`
  unfoldable pub wrap : Bytes → Bytes
  wrap bytes = u32.encode (length bytes % 2 ^ 32) ++ (u32.encode (crc32 bytes) ++ bytes)

  -- The block, with its range; the builder is left empty.
  unfoldable pub flush : BlockBuilder → (Bytes × Option Key × Option Key) × BlockBuilder
  unfolding wrap
  flush b = if length b.buffer == 0 then (([], none, none), b) else (
    (wrap b.buffer, b.min_key, b.max_key),
    record { buffer = []; min_key = none; max_key = none },
  )

  unfoldable pub flush_block : SstableWriter → SstableWriter
  unfolding flush push_index
  flush_block w =
      let ((block_data, min, max), block) = flush w.current_block in
      if length block_data == 0 then record w { current_block = block } else record w {
        file = w.file ++ block_data;
        current_block = block;
        index_entries = push_index min max (length w.file) w.index_entries;
      }

  module _ (sip_hash : ℕ × ℕ → Bytes → ℕ) where
    unfoldable pub write : Key → Value → SstableWriter → SstableWriter
    unfolding add is_full flush_block
    write key value w =
        let w' = record w {
          bloom_filter = BloomFilter.insert sip_hash key.bytes w.bloom_filter;
          min_key = or_first w.min_key key;
          max_key = some key;
          current_block = add key value w.current_block;
        } in
        if is_full w'.current_block then flush_block w' else w'

  module _ (bloom_loggable : Loggable BloomFilter) where
    -- The file and its metadata; the caller sets the id.
    unfoldable pub finalize : SstableWriter → FileMetadata × Bytes
    unfolding flush_block is_empty encode_index encode_range wrap
    finalize w0 =
        let w = if is_empty w0.current_block then w0 else flush_block w0 in
        let index_offset = length w.file in
        let index_data = encode_range w.min_key w.max_key ++ encode_index w.index_entries in
        let file1 = w.file ++ wrap index_data in
        let bloom_offset = length file1 in
        let file2 = file1 ++ wrap (bloom_loggable.encode w.bloom_filter) in
        let footer = u64.encode index_offset ++ u64.encode bloom_offset in
        let file3 = file2 ++ (footer ++ (u32.encode (crc32 footer) ++ magic_number_bytes)) in
        (
          record {
            file_id = 0;
            file_size = length file3 % 2 ^ 32;
            min_key = or_empty w.min_key;
            max_key = or_empty w.max_key;
          },
          file3,
        )
