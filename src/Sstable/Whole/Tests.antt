-- ===== src/Sstable/Whole/Tests.antt =====
-- sstable.rs: a table of two entries, with a filter of 64 bits and a checksum by addition.
use easy_lsm.Base.{ℕ, ◌+◌, ◌<◌, ◌^◌, ◌%◌, ◌≡◌, refl, arith, List, [], ◌∷◌, ◌++◌, length, some, All}
use native.Mathlib.Nat.{mod-lt}
use easy_lsm.Error.{ok}
use easy_lsm.Codec.{Bytes, Reader, Loggable, pure, ◌>>=◌, u32, u64, vec, uint, to_le_bytes}
use easy_lsm.Codec.Reads.{Reads, ReadsBack, >>=-Reads, >>=-Reads_last}
use easy_lsm.Codec.Ints.{uint-ReadsBack}
use easy_lsm.Codec.Vectors.{vec-ReadsBack}
use easy_lsm.Key
use easy_lsm.Value
use easy_lsm.Value.{bytes, tombstone}
use easy_lsm.Entry.{Entry}
use easy_lsm.Wal.Tests.{key_a, key_b, key_a-Fits, key_b-Fits, value_a-Fits}
use easy_lsm.BloomFilter
use easy_lsm.BloomFilter.{BloomFilter, SipKeys}
use easy_lsm.BloomFilter.Members.{IsSized}
use easy_lsm.Sstable
use easy_lsm.Sstable.{Sstable}
use easy_lsm.Sstable.Writer
use easy_lsm.Sstable.Table.{open_table, search, table_entries}
use easy_lsm.Sstable.Whole.{
  IsStorable, written, filter_of, search-written, table_entries-written, open_table-written,
}

abbrev pub sum : Bytes → ℕ
sum [] = 0
sum (b ∷ bs) = b + sum bs

abbrev pub checksum : Bytes → ℕ
checksum bs = sum bs % 2 ^ 32

abbrev pub hashes : ℕ × ℕ → Bytes → ℕ
hashes (h, k) bs = h + sum bs

abbrev pub encode_keys : SipKeys → Bytes
encode_keys s =
    u64.encode s.first.0
    ++ (u64.encode s.first.1 ++ (u64.encode s.second.0 ++ u64.encode s.second.1))

abbrev pub decode_keys : Reader SipKeys
decode_keys = do
  a ← u64.decode
  b ← u64.decode
  c ← u64.decode
  d ← u64.decode
  pure (record { first = (a, b); second = (c, d) })

abbrev pub decode_filter : Reader BloomFilter
decode_filter = do
  bitmap ← (vec u64).decode
  bitmap_bits ← u64.decode
  k_num ← u32.decode
  sip_keys ← decode_keys
  pure (record { bitmap = bitmap; bitmap_bits = bitmap_bits; k_num = k_num; sip_keys = sip_keys })

abbrev pub filter_loggable : Loggable BloomFilter
filter_loggable = record {
  encode = λ (f : BloomFilter).
      (vec u64).encode f.bitmap
      ++ (u64.encode f.bitmap_bits ++ (u32.encode f.k_num ++ encode_keys f.sip_keys));
  decode = decode_filter;
}

filter-ReadsBack :
    (f : BloomFilter)
    → length f.bitmap < 2 ^ 32
    → All (λ (w : ℕ). w < 2 ^ 64) f.bitmap
    → f.bitmap_bits < 2 ^ 64
    → f.k_num < 2 ^ 32
    → Reads decode_keys (encode_keys f.sip_keys) f.sip_keys
    → ReadsBack filter_loggable f
filter-ReadsBack f size words bits probes keys =
    >>=-Reads (vec u64).decode _ ((vec u64).encode f.bitmap) _ f.bitmap f
      (vec-ReadsBack u64 f.bitmap size (all_back f.bitmap words))
      (>>=-Reads u64.decode _ (u64.encode f.bitmap_bits) _ f.bitmap_bits f
        (uint-ReadsBack 8 f.bitmap_bits (omega arith))
        (>>=-Reads u32.decode _ (u32.encode f.k_num) _ f.k_num f
          (uint-ReadsBack 4 f.k_num (omega arith))
          (>>=-Reads_last decode_keys _ (encode_keys f.sip_keys) f.sip_keys f keys (λ rest. refl))))
  where
    all_back : (ws : List ℕ) → All (λ (w : ℕ). w < 2 ^ 64) ws → All (ReadsBack u64) ws
    all_back [] h = tt
    all_back (w ∷ ws) (p, h) = (uint-ReadsBack 8 w (omega arith), all_back ws h)

abbrev pub keys : SipKeys
keys = record { first = (1, 2); second = (7, 4) }

keys-Reads : Reads decode_keys (encode_keys keys) keys
keys-Reads = >>=-Reads u64.decode _ (u64.encode 1) _ 1 keys (uint-ReadsBack 8 1 (omega arith)) (
    >>=-Reads u64.decode _ (u64.encode 2) _ 2 keys (uint-ReadsBack 8 2 (omega arith)) (
      >>=-Reads u64.decode _ (u64.encode 7) _ 7 keys (uint-ReadsBack 8 7 (omega arith)) (
        >>=-Reads_last u64.decode _ (u64.encode 4) 4 keys (uint-ReadsBack 8 4 (omega arith))
          (λ rest. refl))))

abbrev pub empty_filter : BloomFilter
empty_filter = record { bitmap = 0 ∷ []; bitmap_bits = 64; k_num = 2; sip_keys = keys }

abbrev es : List Entry
es = (key_b, tombstone) ∷ []

abbrev pub all : List Entry
all = (key_a, bytes (1 ∷ 2 ∷ [])) ∷ es

sized : IsSized empty_filter
sized = record { some_bit = omega arith; room = omega arith }

small : length (written checksum hashes filter_loggable empty_filter all).1 < 2 ^ 32
unfolding Writer.new Writer.finalize Writer.write Writer.flush_block Writer.flush Writer.wrap
    Writer.push_index Sstable.add Sstable.new_block Sstable.is_full Sstable.is_empty
    Sstable.encode_index Sstable.encode_range Key.loggable Value.loggable BloomFilter.insert uint
    to_le_bytes vec
small = omega arith

pub storable : IsStorable checksum hashes filter_loggable empty_filter all
unfolding Key.cmp Key.cmp_bytes BloomFilter.insert
storable = record {
  fits = ((key_a-Fits, value_a-Fits), ((key_b-Fits, tt), tt));
  sorted = ((refl, tt), (tt, tt));
  file_u32 = record { crc_u32 = λ (bs : Bytes). mod-lt (sum bs) (omega arith); length_u32 = small };
  sized = sized;
  filter_back =
      filter-ReadsBack (filter_of checksum hashes filter_loggable empty_filter all) (omega arith)
        (omega arith, tt) (omega arith) (omega arith) keys-Reads;
}

search-written_example :
    (t : Sstable) × (open_table checksum filter_loggable 7
        (written checksum hashes filter_loggable empty_filter all).1
      ≡ some (ok t))
    × (search checksum hashes t (98 ∷ 98 ∷ []) ≡ some (ok (some tombstone)))
unfolding Key.eq_bytes
search-written_example =
    search-written checksum hashes filter_loggable empty_filter 7 (key_a, bytes (1 ∷ 2 ∷ [])) es
      (98 ∷ 98 ∷ []) storable

table_entries-written_example :
    (t : Sstable) × (open_table checksum filter_loggable 7
        (written checksum hashes filter_loggable empty_filter all).1
      ≡ some (ok t))
    × (table_entries checksum t t.index ≡ some (ok all))
table_entries-written_example =
    table_entries-written checksum hashes filter_loggable empty_filter 7 (key_a, bytes (1 ∷ 2 ∷ []))
      es storable

open_table-written_example :
    (t : Sstable) × (open_table checksum filter_loggable 7
        (written checksum hashes filter_loggable empty_filter all).1
      ≡ some (ok t))
    × ((written checksum hashes filter_loggable empty_filter all).0 ≡ record {
      file_id = 0;
      file_size = length t.file;
      min_key = t.min_key;
      max_key = t.max_key;
    })
    × (t.min_key ≡ key_a)
    × (t.max_key ≡ key_b)
open_table-written_example =
    open_table-written checksum hashes filter_loggable empty_filter 7 (key_a, bytes (1 ∷ 2 ∷ [])) es
      storable
