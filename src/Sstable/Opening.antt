-- ===== src/Sstable/Opening.antt =====
-- Opening a file that a writer finished.
use easy_lsm.Base.{
  ℕ, suc, ◌+◌, ◌-◌, ◌<◌, ◌≤◌, ◌^◌, List, [], ◌++◌, length, length-append, take, drop, drop-append,
  drop_all, ◌≡◌, refl, sym, ap, ◌∙◌, arith, All, some, append_assoc, append-nil, false, ltb,
  ==_self,
}
use easy_lsm.Error.{ok}
use easy_lsm.Codec.{Bytes, Loggable, u32, u64, uint, to_le_bytes, from_le_bytes}
use easy_lsm.Codec.Ints.{from_le_bytes-to_le_bytes}
use easy_lsm.Codec.Reads.{ReadsBack}
use easy_lsm.Key
use easy_lsm.Key.{Key, eq_bytes}
use easy_lsm.Key.RoundTrip.{key-ReadsBack}
use easy_lsm.BloomFilter.{BloomFilter}
use easy_lsm.Sstable.{IndexEntry, magic_number_bytes, encode_index}
use easy_lsm.Sstable.Writer.{wrap}
use easy_lsm.Sstable.Table.{open_index, open_blocks, open_table}
use easy_lsm.Sstable.Frame.{length-wrap, read_block_lem}
use easy_lsm.Sstable.Reading.{IsU32}
use easy_lsm.Sstable.Index.{IndexFits, length-encode_index, decode_index-encode_index}

abbrev pub footer_of : ℕ → ℕ → Bytes
footer_of index_offset bloom_offset = u64.encode index_offset ++ u64.encode bloom_offset

u64_back : (x : ℕ) → x < 2 ^ 64 → from_le_bytes (u64.encode x) ≡ x
unfolding uint
u64_back x h = from_le_bytes-to_le_bytes 8 x (omega arith)

u32_back : (x : ℕ) → x < 2 ^ 32 → from_le_bytes (u32.encode x) ≡ x
unfolding uint
u32_back x h = from_le_bytes-to_le_bytes 4 x (omega arith)

open_index_lem :
    (id : ℕ) (file : Bytes) (bloom : BloomFilter) (min max : Key) (index : List IndexEntry)
    → Key.Fits min
    → Key.Fits max
    → All IndexFits index
    → open_index id file bloom
        ((Key.loggable.encode min ++ Key.loggable.encode max) ++ encode_index index)
      ≡ some (
          ok (record {
            id = id;
            file = file;
            index = index;
            bloom_filter = bloom;
            min_key = min;
            max_key = max;
          }))
unfolding open_index
open_index_lem id file bloom min max index fmin fmax fits =
    rw
      (
        append_assoc (Key.loggable.encode min) (Key.loggable.encode max) (encode_index index),
        open_index,
      )
      (rw (key-ReadsBack min fmin (Key.loggable.encode max ++ encode_index index), open_index)
        (rw (key-ReadsBack max fmax (encode_index index), open_index)
          (rw (
            decode_index-encode_index index (suc (length (encode_index index))) fits
                (omega (arith, length-encode_index index)),
            open_index,
          ))))

module _ (crc32 : Bytes → ℕ) where
  abbrev pub tail_of : ℕ → ℕ → Bytes
  tail_of index_offset bloom_offset =
      let footer = footer_of index_offset bloom_offset in
      footer ++ (u32.encode (crc32 footer) ++ magic_number_bytes)

  length-tail_of : (io bo : ℕ) → length (tail_of io bo) ≡ 24
  unfolding uint to_le_bytes
  length-tail_of io bo = refl

  index_offset-tail_of : (io bo : ℕ) → take 8 (tail_of io bo) ≡ u64.encode io
  unfolding uint to_le_bytes
  index_offset-tail_of io bo = refl

  bloom_offset-tail_of : (io bo : ℕ) → take 8 (drop 8 (tail_of io bo)) ≡ u64.encode bo
  unfolding uint to_le_bytes
  bloom_offset-tail_of io bo = refl

  crc-tail_of :
      (io bo : ℕ) → take 4 (drop 16 (tail_of io bo)) ≡ u32.encode (crc32 (footer_of io bo))
  unfolding uint to_le_bytes
  crc-tail_of io bo = refl

  magic-tail_of : (io bo : ℕ) → take 4 (drop 20 (tail_of io bo)) ≡ magic_number_bytes
  unfolding uint to_le_bytes
  magic-tail_of io bo = refl

  footer-tail_of : (io bo : ℕ) → take 16 (tail_of io bo) ≡ footer_of io bo
  unfolding uint to_le_bytes
  footer-tail_of io bo = refl

  long_enough : (n : ℕ) → 24 ≤ n → ltb n 24 ≡ false
  long_enough n h = ground arith

  open_table_tail :
      (bloom_loggable : Loggable BloomFilter) (id : ℕ) (body : Bytes) (io bo : ℕ)
      → io < 2 ^ 64
      → bo < 2 ^ 64
      → ((bs : Bytes) → crc32 bs < 2 ^ 32)
      → open_table crc32 bloom_loggable id (body ++ tail_of io bo)
        ≡ open_blocks crc32 bloom_loggable id (body ++ tail_of io bo) io bo
  unfolding open_table eq_bytes
  open_table_tail bloom_loggable id body io bo hi hb crc =
      let file = body ++ tail_of io bo in
      let size : length file ≡ length body + 24 =
        length-append body (tail_of io bo)
        ∙ ap (λ (n : ℕ). length body + n) (length-tail_of io bo) in
      let at_tail : drop (length file - 24) file ≡ tail_of io bo =
        drop-append (length file - 24) body (tail_of io bo) (omega arith)
        ∙ rw (drop_all (length file - 24) body (omega arith)) in
      rw (long_enough (length file) (omega arith), open_table)
        (rw (at_tail, open_table)
          (rw
            (
              index_offset-tail_of io bo,
              bloom_offset-tail_of io bo,
              crc-tail_of io bo,
              magic-tail_of io bo,
              footer-tail_of io bo,
            )
            (rw
              (
                u32_back (crc32 (footer_of io bo)) (crc (footer_of io bo)),
                u64_back io hi,
                u64_back bo hb,
              )
              (rw (==_self (crc32 (footer_of io bo)))))))

  module _ (bloom_loggable : Loggable BloomFilter) where
    -- A finished file: the blocks, the index, the filter, the footer.
    abbrev pub finished : Bytes → Key → Key → List IndexEntry → BloomFilter → Bytes
    finished blocks min max index bloom =
        let file1 =
          blocks
          ++ wrap crc32
              ((Key.loggable.encode min ++ Key.loggable.encode max) ++ encode_index index) in
        let file2 = file1 ++ wrap crc32 (bloom_loggable.encode bloom) in
        file2 ++ tail_of (length blocks) (length file1)

    decode_bloom :
        (bloom : BloomFilter)
        → ReadsBack bloom_loggable bloom
        → bloom_loggable.decode (bloom_loggable.encode bloom) ≡ ok (bloom, [])
    decode_bloom bloom back =
        ap bloom_loggable.decode (sym (append-nil (bloom_loggable.encode bloom))) ∙ back []

    pub open_table-finished :
        (id : ℕ) (blocks : Bytes) (min max : Key) (index : List IndexEntry) (bloom : BloomFilter)
        → Key.Fits min
        → Key.Fits max
        → All IndexFits index
        → ReadsBack bloom_loggable bloom
        → IsU32 crc32 (finished blocks min max index bloom)
        → open_table crc32 bloom_loggable id (finished blocks min max index bloom)
          ≡ some (
              ok (record {
                id = id;
                file = finished blocks min max index bloom;
                index = index;
                bloom_filter = bloom;
                min_key = min;
                max_key = max;
              }))
    unfolding open_blocks
    open_table-finished id blocks min max index bloom fmin fmax fits back u =
        let index_data =
          (Key.loggable.encode min ++ Key.loggable.encode max) ++ encode_index index in
        let bloom_data = bloom_loggable.encode bloom in
        let file1 = blocks ++ wrap crc32 index_data in
        let file2 = file1 ++ wrap crc32 bloom_data in
        let tail = tail_of (length blocks) (length file1) in
        let whole_size : length (file2 ++ tail) ≡ length file2 + length tail =
          length-append file2 tail in
        let size2 : length file2 ≡ length file1 + (8 + length bloom_data) =
          omega
            (arith, length-append file1 (wrap crc32 bloom_data), length-wrap crc32 bloom_data) in
        let size1 : length file1 ≡ length blocks + (8 + length index_data) =
          omega
            (arith, length-append blocks (wrap crc32 index_data), length-wrap crc32 index_data) in
        open_table_tail bloom_loggable id file2 (length blocks) (length file1)
          (omega (arith, u.length_u32)) (omega (arith, u.length_u32)) u.crc_u32
        ∙ rw
            (
              read_block_lem crc32 file1 bloom_data tail (file2 ++ tail) (length file1)
                  (append_assoc file1 (wrap crc32 bloom_data) tail) refl
                  (omega (arith, u.length_u32)) (u.crc_u32 bloom_data),
              open_blocks,
            )
            (rw (decode_bloom bloom back, open_blocks)
              (rw
                (
                  read_block_lem crc32 blocks index_data (wrap crc32 bloom_data ++ tail)
                      (file2 ++ tail) (length blocks)
                      (append_assoc file1 (wrap crc32 bloom_data) tail
                        ∙ append_assoc blocks (wrap crc32 index_data)
                            (wrap crc32 bloom_data ++ tail))
                      refl (omega (arith, u.length_u32)) (u.crc_u32 index_data),
                  open_blocks,
                )
                (open_index_lem id (file2 ++ tail) bloom min max index fmin fmax fits)))

    -- A finished file starts with its blocks.
    pub finished-blocks :
        (blocks : Bytes) (min max : Key) (index : List IndexEntry) (bloom : BloomFilter)
        → (rest : Bytes) × (finished blocks min max index bloom ≡ blocks ++ rest)
    finished-blocks blocks min max index bloom =
        let index_part =
          wrap crc32 ((Key.loggable.encode min ++ Key.loggable.encode max) ++ encode_index index) in
        let bloom_part = wrap crc32 (bloom_loggable.encode bloom) in
        let tail = tail_of (length blocks) (length (blocks ++ index_part)) in
        (
          index_part ++ (bloom_part ++ tail),
          append_assoc (blocks ++ index_part) bloom_part tail
              ∙ append_assoc blocks index_part (bloom_part ++ tail),
        )
