-- ===== src/Memtable/Size.antt =====
-- The count of bytes in a memtable against the bytes that its entries take on disk.
use easy_lsm.Base.{◌+◌, ◌≡◌, arith, List, [], ◌∷◌, length, length-append}
use easy_lsm.Codec.{uint, to_le_bytes}
use easy_lsm.Codec.Vectors.{length-byte_vec}
use easy_lsm.Key
use easy_lsm.Key.{Key}
use easy_lsm.Value
use easy_lsm.Value.{int_bits, Value, bytes, str, int, tombstone}
use easy_lsm.Entry.{Entry}
use easy_lsm.SkipMap.{SkipMap}
use easy_lsm.Wal.{encode_pair}
use easy_lsm.Memtable.{Memtable, recover, put_batch, size, value_len}
use easy_lsm.Sstable.Block.{encode_block}

length-value :
    (v : Value) → length (Value.loggable.encode v) ≡ Value.serialized_header_size + value_len v
unfolding Value.loggable value_len uint to_le_bytes
length-value (bytes b) = omega (arith, length-byte_vec b)
length-value (str s) = omega (arith, length-byte_vec s)
length-value (int i) = omega (arith, length-byte_vec (to_le_bytes 8 (int_bits i)))
length-value tombstone = omega (arith, length-byte_vec [])

length-key :
    (k : Key) → length (Key.loggable.encode k) ≡ Key.serialized_header_size + length k.bytes
unfolding Key.loggable uint to_le_bytes
length-key k = omega arith

length-encode_pair :
    (e : Entry)
    → length (encode_pair e)
      ≡ Key.serialized_header_size + length e.0.bytes + Value.serialized_header_size + value_len e.1
unfolding encode_pair
length-encode_pair (key, value) = omega (
  arith,
  length-key key,
  length-value value,
  length-append (Key.loggable.encode key) (Value.loggable.encode value),
)

-- The size by which a memtable is judged full grows with a batch by exactly the bytes that the keys
-- and values of the batch take in a block on disk, whatever the batch is.
pub size-put_batch :
    (skip_map : SkipMap) (m : Memtable skip_map) (es : List Entry)
    → size skip_map (put_batch skip_map m es) ≡ size skip_map m + length (encode_block es)
unfolding size put_batch recover
size-put_batch skip_map m [] = omega arith
size-put_batch skip_map m ((key, value) ∷ es) = omega (
  arith,
  size-put_batch skip_map (recover skip_map m key value) es,
  length-encode_pair (key, value),
  length-append (encode_pair (key, value)) (encode_block es),
)
