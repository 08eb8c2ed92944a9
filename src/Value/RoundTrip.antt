-- ===== src/Value/RoundTrip.antt =====
-- A value comes back as it was written.
use easy_lsm.Base.{
  ℕ, zero, suc, ◌/◌, ◌^◌, ◌<◌, ◌≡◌, refl, [], ◌++◌, length, arith, All, true, take_all, sym,
  Bool-cases, inl, inr, ◌==◌,
}
use Prim.Native.Nat.{bit_and}
use easy_lsm.Error.{ok, err, Result}
use easy_lsm.Codec.{Bytes, fail, u8, byte_vec, to_le_bytes}
use easy_lsm.Codec.Reads.{Reads, ReadsBack, >>=-Reads, >>=-Reads_last}
use easy_lsm.Codec.Extends.{Extends, >>=-Extends, pure-Extends}
use easy_lsm.Codec.Ints.{
  uint-ReadsBack, uint-Extends, length-to_le_bytes, from_le_bytes-to_le_bytes,
}
use easy_lsm.Codec.Vectors.{byte_vec-ReadsBack, vec-Extends, IsByte}
use easy_lsm.Value.{
  Value, bytes, str, int, tombstone, ℤ, pos, negsuc, loggable, Fits, int_bits, int_of_bits,
  of_payload, decode_tagged, is_utf8,
}

pub int_of_bits-int_bits : (i : ℤ) → Fits (int i) → int_of_bits (int_bits i) ≡ i
unfolding int_of_bits int_bits
int_of_bits-int_bits (pos n) h = ground arith
int_of_bits-int_bits (negsuc n) h = ground arith

int_bits-lt : (i : ℤ) → int_bits i < 256 ^ 8
unfolding int_bits
int_bits-lt (pos n) = omega arith
int_bits-lt (negsuc n) = omega arith

to_le_bytes-IsByte : (w x : ℕ) → All IsByte (to_le_bytes w x)
unfolding to_le_bytes
to_le_bytes-IsByte zero x = tt
to_le_bytes-IsByte (suc w) x = (omega arith, to_le_bytes-IsByte w (x / 256))

fail-Extends : {A : Type 0} (r : Result A) → Extends (fail r)
fail-Extends (ok a) = pure-Extends a
fail-Extends (err e) = record {
  good = λ bs more b rest h. cc;
  bad = λ bs more x h ne. h;
  shrinks = λ bs b rest h. absurd (cc h);
}

tagged-Reads :
    (tag : ℕ) (payload : Bytes) (v : Value)
    → tag < 256
    → Reads byte_vec.decode (byte_vec.encode payload) payload
    → (bit_and tag 1 == 0) ≡ true
    → of_payload (bit_and tag 0xfe) payload ≡ ok v
    → Reads loggable.decode (u8.encode tag ++ byte_vec.encode payload) v
unfolding loggable decode_tagged
tagged-Reads tag payload v small back plain e =
    >>=-Reads u8.decode decode_tagged (u8.encode tag) (byte_vec.encode payload) tag v
      (uint-ReadsBack 1 tag small)
      (rw plain
        (>>=-Reads_last byte_vec.decode _ (byte_vec.encode payload) payload v back (λ rest. rw e)))

int-payload : (i : ℤ) → Fits (int i) → of_payload 4 (to_le_bytes 8 (int_bits i)) ≡ ok (int i)
unfolding of_payload
int-payload i h =
    let n : length (to_le_bytes 8 (int_bits i)) ≡ 8 = length-to_le_bytes 8 (int_bits i) in
    rw n (
      rw (take_all 8 (to_le_bytes 8 (int_bits i)) (sym n)) (
        rw (from_le_bytes-to_le_bytes 8 (int_bits i) (int_bits-lt i))
          (rw (int_of_bits-int_bits i h))))

str-payload : (s : Bytes) → is_utf8 s ≡ true → of_payload 2 s ≡ ok (str s)
unfolding of_payload
str-payload s h = rw h

bytes-payload : (b : Bytes) → of_payload 0 b ≡ ok (bytes b)
unfolding of_payload
bytes-payload b = refl

tombstone-Reads : Reads loggable.decode (u8.encode 1 ++ byte_vec.encode []) tombstone
unfolding loggable decode_tagged
tombstone-Reads =
    >>=-Reads u8.decode decode_tagged (u8.encode 1) (byte_vec.encode []) 1 tombstone
      (uint-ReadsBack 1 1 (omega arith))
      (>>=-Reads_last byte_vec.decode _ (byte_vec.encode []) [] tombstone
        (byte_vec-ReadsBack [] (omega arith) tt) (λ rest. refl))

-- A value of each kind, the tombstone included, reads back as itself where it fits its fields, and
-- what follows it is left to the reader.
pub value-ReadsBack : (v : Value) → Fits v → ReadsBack loggable v
unfolding loggable
value-ReadsBack (bytes b) (n, h) =
    tagged-Reads 0 b (bytes b) (omega arith) (byte_vec-ReadsBack b n h) refl (bytes-payload b)
value-ReadsBack (str s) (n, h, u) =
    tagged-Reads 2 s (str s) (omega arith) (byte_vec-ReadsBack s n h) refl (str-payload s u)
value-ReadsBack (int i) h =
    tagged-Reads 4 (to_le_bytes 8 (int_bits i)) (int i) (omega arith)
      (byte_vec-ReadsBack _ (rw (length-to_le_bytes 8 (int_bits i)) (omega arith))
        (to_le_bytes-IsByte 8 (int_bits i)))
      refl (int-payload i h)
value-ReadsBack tombstone h = tombstone-Reads

tagged-Extends : (tag : ℕ) → Extends (decode_tagged tag)
unfolding decode_tagged
tagged-Extends tag = elim (Bool-cases (bit_and tag 1 == 0)) [
  | inl e ↦ rw e (
      >>=-Extends byte_vec.decode _ (vec-Extends u8 (uint-Extends 1))
        (λ payload. fail-Extends (of_payload (bit_and tag 0xfe) payload)))
  | inr e ↦ rw e (
      >>=-Extends byte_vec.decode _ (vec-Extends u8 (uint-Extends 1))
        (λ payload. pure-Extends tombstone))
]

pub loggable-Extends : Extends loggable.decode
unfolding loggable
loggable-Extends = >>=-Extends u8.decode _ (uint-Extends 1) tagged-Extends
