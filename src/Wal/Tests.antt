-- ===== src/Wal/Tests.antt =====
-- wal.rs, key.rs and value.rs at concrete logs, with the length for the checksum.
use easy_lsm.Base.{
  ℕ, ◌%◌, ◌^◌, ◌<◌, ◌≤◌, ◌≡◌, ◌≢◌, refl, arith, List, [], ◌∷◌, ◌++◌, length, take, All, none, some,
}
use easy_lsm.Error.{ok, err, data_corrupted}
use easy_lsm.Codec.{Bytes, u32, uint, to_le_bytes, vec}
use easy_lsm.Key
use easy_lsm.Key.{Key}
use easy_lsm.Value
use easy_lsm.Value.{Value, bytes, int, tombstone, negsuc}
use easy_lsm.Entry.{Entry, Fits}
use easy_lsm.Wal.{next, read_log, encode_pair, encode_batch, write}
use easy_lsm.Wal.Next.{next-bad_crc}
use easy_lsm.Wal.Log.{read_log-ne-none}
use easy_lsm.Wal.Torn.{session, in_order, read_log-torn}

abbrev pub sum32 : Bytes → ℕ
sum32 bs = length bs % 2 ^ 32

pub sum32-lt : (bs : Bytes) → sum32 bs < 2 ^ 32
sum32-lt bs = omega arith

abbrev pub key_a : Key
key_a = record { lsn = 5; bytes = 97 ∷ [] }

abbrev pub key_b : Key
key_b = record { lsn = 6; bytes = 98 ∷ 98 ∷ [] }

pub key_a-Fits : Key.Fits key_a
key_a-Fits = record { lsn_u64 = omega arith; short = omega arith }

pub key_b-Fits : Key.Fits key_b
key_b-Fits = record { lsn_u64 = omega arith; short = omega arith }

abbrev pub put_a : Entry
put_a = (key_a, bytes (1 ∷ 2 ∷ []))

abbrev pub del_b : Entry
del_b = (key_b, tombstone)

pub value_a-Fits : Value.Fits (bytes (1 ∷ 2 ∷ []))
value_a-Fits = (omega arith, (omega arith, (omega arith, tt)))

abbrev pub batches : List (List Entry)
batches = (del_b ∷ []) ∷ (put_a ∷ []) ∷ []

pub batches-Fits : All (All Fits) batches
batches-Fits = (((key_b-Fits, tt), tt), (((key_a-Fits, value_a-Fits), tt), tt))

read_log-torn_example :
    (k : ℕ) × (k ≤ 1)
    × (read_log sum32 (write (session sum32 batches) (take 9 (encode_batch sum32 (put_a ∷ []))))
        ≡ some (ok (in_order sum32 batches ++ take k (put_a ∷ []))))
read_log-torn_example =
    read_log-torn sum32 sum32-lt batches (put_a ∷ []) 9 batches-Fits
      ((key_a-Fits, value_a-Fits), tt)

read_log-ne-none_example : read_log sum32 (1 ∷ 2 ∷ 3 ∷ 4 ∷ 5 ∷ []) ≢ none
read_log-ne-none_example = read_log-ne-none sum32 (1 ∷ 2 ∷ 3 ∷ 4 ∷ 5 ∷ [])

sum32-put_a : sum32 (encode_pair put_a) ≡ 18
unfolding encode_pair uint to_le_bytes vec Key.loggable Value.loggable
sum32-put_a = refl

next-bad_crc_example :
    next sum32 (u32.encode 7 ++ (encode_pair put_a ++ []))
    ≡ some (err (data_corrupted "CRC mismatch"))
next-bad_crc_example =
    next-bad_crc sum32 7 put_a [] (omega arith) (key_a-Fits, value_a-Fits)
      (λ h. omega (arith, h, sum32-put_a))
