-- ===== src/Codec/Vectors.antt =====
-- Vectors come back item by item.
use easy_lsm.Base.{ℕ, zero, suc, ◌+◌, ◌≡◌, arith, ◌^◌, ◌%◌, ◌<◌, refl, List, [], ◌∷◌, length, All}
use native.Mathlib.Nat.{mod-eq_of_lt}
use easy_lsm.Codec.{
  Bytes, Loggable, uint, to_le_bytes, vec, u32, encode_all, decode_all, byte_vec, u8,
}
use easy_lsm.Codec.Reads.{Reads, ReadsBack, >>=-Reads, >>=-Reads_last}
use easy_lsm.Codec.Extends.{Extends, >>=-Extends, pure-Extends}
use easy_lsm.Codec.Ints.{uint-ReadsBack, uint-Extends}

module _ {A : Type 0} (l : Loggable A) where
  decode_all-Reads :
      (xs : List A) → All (ReadsBack l) xs → Reads (decode_all l (length xs)) (encode_all l xs) xs
  unfolding encode_all decode_all
  decode_all-Reads [] h = λ rest. refl
  decode_all-Reads (x ∷ xs) (p, h) =
      >>=-Reads l.decode _ (l.encode x) (encode_all l xs) x (x ∷ xs) p (
        >>=-Reads_last (decode_all l (length xs)) _ (encode_all l xs) xs (x ∷ xs)
          (decode_all-Reads xs h) (λ rest. refl))

  pub vec-ReadsBack :
      (xs : List A) → length xs < 2 ^ 32 → All (ReadsBack l) xs → ReadsBack (vec l) xs
  unfolding vec
  vec-ReadsBack xs small h =
      >>=-Reads u32.decode _ (u32.encode (length xs % 2 ^ 32)) (encode_all l xs) (length xs) xs
        (rw (mod-eq_of_lt small) (uint-ReadsBack 4 (length xs) small)) (decode_all-Reads xs h)

  decode_all-Extends : (n : ℕ) → Extends l.decode → Extends (decode_all l n)
  unfolding decode_all
  decode_all-Extends zero h = pure-Extends []
  decode_all-Extends (suc n) h =
      >>=-Extends l.decode _ h
        (λ x. >>=-Extends (decode_all l n) _ (decode_all-Extends n h) (λ xs. pure-Extends (x ∷ xs)))

  pub vec-Extends : Extends l.decode → Extends (vec l).decode
  unfolding vec
  vec-Extends h = >>=-Extends u32.decode _ (uint-Extends 4) (λ n. decode_all-Extends n h)

abbrev pub IsByte : ℕ → Type 0
IsByte b = b < 256

bytes-ReadsBack : (bs : Bytes) → All IsByte bs → All (ReadsBack u8) bs
bytes-ReadsBack [] h = tt
bytes-ReadsBack (b ∷ bs) (p, h) = (uint-ReadsBack 1 b p, bytes-ReadsBack bs h)

pub byte_vec-ReadsBack : (bs : Bytes) → length bs < 2 ^ 32 → All IsByte bs → ReadsBack byte_vec bs
byte_vec-ReadsBack bs small h = vec-ReadsBack u8 bs small (bytes-ReadsBack bs h)

length-encode_all : (bs : Bytes) → length (encode_all u8 bs) ≡ length bs
unfolding encode_all uint to_le_bytes
length-encode_all [] = refl
length-encode_all (b ∷ bs) = omega (arith, length-encode_all bs)

pub length-byte_vec : (bs : Bytes) → length (byte_vec.encode bs) ≡ 4 + length bs
unfolding vec uint to_le_bytes
length-byte_vec bs = omega (arith, length-encode_all bs)
