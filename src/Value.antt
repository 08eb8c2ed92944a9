-- ===== src/Value.antt =====
-- data_stores/value.rs: the values and their form on disk.
pub mod RoundTrip
use Prim.Native.Nat.{bit_and}
use easy_lsm.Base.{
  ℕ, zero, suc, ◌+◌, ◌-◌, ◌%◌, ◌^◌, ◌<◌, ◌≤◌, List, [], ◌∷◌, ◌++◌, length, take, Bool, true, false,
  ltb, leb, ◌==◌, ◌&&◌, if◌then◌else◌, ◌≡◌, All, not,
}
use easy_lsm.Error.{Result, ok, err, manifest_corrupted}
use easy_lsm.Codec.{
  Bytes, Reader, pure, fail, ◌>>=◌, Loggable, u8, byte_vec, to_le_bytes, from_le_bytes,
}
use easy_lsm.Codec.Vectors.{IsByte}

-- `i64`: `negsuc n` is -(n + 1).
pub data ℤ : Type 0 where
  pos : ℕ → ℤ
  negsuc : ℕ → ℤ

-- A string is its UTF-8 bytes.
pub data Value : Type 0 where
  bytes : Bytes → Value
  str : Bytes → Value
  int : ℤ → Value
  tombstone : Value

abbrev pub wal_id_tombstone : ℕ
wal_id_tombstone = 1

abbrev pub wal_type_bytes : ℕ
wal_type_bytes = 0

abbrev pub wal_type_str : ℕ
wal_type_str = 2

abbrev pub wal_type_int : ℕ
wal_type_int = 4

abbrev pub serialized_header_size : ℕ
serialized_header_size = 5

unfoldable pub new : Bytes → Value
new b = bytes b

-- `String::from_utf8`: `more` continuation bytes are still wanted, the next within `lo..=hi`.
utf8_from : ℕ → ℕ → ℕ → Bytes → Bool
utf8_from zero lo hi [] = true
utf8_from (suc more) lo hi [] = false
utf8_from (suc more) lo hi (b ∷ bs) = leb lo b && leb b hi && utf8_from more 0x80 0xbf bs
utf8_from zero lo hi (b ∷ bs) =
    let ascii = utf8_from 0 0 0 bs in
    let two = utf8_from 1 0x80 0xbf bs in
    let three =
      utf8_from 2 (if b == 0xe0 then 0xa0 else 0x80) (if b == 0xed then 0x9f else 0xbf) bs in
    let four =
      utf8_from 3 (if b == 0xf0 then 0x90 else 0x80) (if b == 0xf4 then 0x8f else 0xbf) bs in
    if ltb b 0x80
    then ascii
    else if ltb b 0xc2
    then false
    else if ltb b 0xe0
    then two
    else if ltb b 0xf0
    then three
    else if ltb b 0xf5
    then four
    else false

unfoldable pub is_utf8 : Bytes → Bool
unfolding utf8_from
is_utf8 bs = utf8_from 0 0 0 bs

-- `i64::to_le_bytes` and `from_le_bytes`, through two's complement.
unfoldable pub int_bits : ℤ → ℕ
int_bits (pos n) = n % 2 ^ 64
int_bits (negsuc n) = 2 ^ 64 - 1 - n

unfoldable pub int_of_bits : ℕ → ℤ
int_of_bits u = if ltb u (2 ^ 63) then pos u else negsuc (2 ^ 64 - 1 - u)

encode_value : Value → Bytes
unfolding int_bits
encode_value (bytes b) = u8.encode wal_type_bytes ++ byte_vec.encode b
encode_value (str s) = u8.encode wal_type_str ++ byte_vec.encode s
encode_value (int i) = u8.encode wal_type_int ++ byte_vec.encode (to_le_bytes 8 (int_bits i))
encode_value tombstone = u8.encode wal_id_tombstone ++ byte_vec.encode []

-- The payload by its type; a string that is not UTF-8 becomes the empty one.
of_payload : ℕ → Bytes → Result Value
unfolding is_utf8 int_of_bits
of_payload val_type val_bytes =
    if val_type == wal_type_bytes
    then ok (bytes val_bytes)
    else if val_type == wal_type_str
    then ok (str (if is_utf8 val_bytes then val_bytes else []))
    else if val_type == wal_type_int
    then if leb 8 (length val_bytes)
      then ok (int (int_of_bits (from_le_bytes (take 8 val_bytes))))
      else err manifest_corrupted
    else err manifest_corrupted

-- A tombstone's length field and payload are taken and dropped.
decode_tagged : ℕ → Reader Value
unfolding of_payload
decode_tagged tag =
    if not (bit_and tag wal_id_tombstone == 0)
    then (do _ ← byte_vec.decode; pure tombstone)
    else (do val_bytes ← byte_vec.decode; fail (of_payload (bit_and tag 0xfe) val_bytes))

decode_value : Reader Value
unfolding decode_tagged
decode_value = do tag ← u8.decode; decode_tagged tag

unfoldable pub loggable : Loggable Value
unfolding encode_value decode_value
loggable = record { encode = encode_value; decode = decode_value }

-- A payload of bytes that is shorter than 4 GiB, UTF-8 where it is a string, an `i64`.
abbrev pub Fits : Value → Type 0
Fits (bytes b) = (length b < 2 ^ 32) × All IsByte b
Fits (str s) = (length s < 2 ^ 32) × All IsByte s × (is_utf8 s ≡ true)
Fits (int (pos n)) = n < 2 ^ 63
Fits (int (negsuc n)) = n < 2 ^ 63
Fits tombstone = Unit {0}
