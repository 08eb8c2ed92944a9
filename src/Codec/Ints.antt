-- ===== src/Codec/Ints.antt =====
-- Little-endian integers and exact reads come back as they were written.
use easy_lsm.Base.{
  ℕ, zero, suc, ◌/◌, ◌^◌, ◌<◌, ◌≡◌, refl, sym, ap, ◌++◌, length, arith, take-append, drop-append,
  take_all, drop_all, le→leb, length-append,
}
use native.Mathlib.Nat.{pow-suc}
use easy_lsm.Base.{◌+◌, inl, inr}
use easy_lsm.Error.{ok, Result-cases}
use easy_lsm.Codec.{◌>>=◌, Bytes, read_exact, to_le_bytes, from_le_bytes, uint}
use easy_lsm.Codec.Reads.{Reads, ReadsBack, >>=-Reads_last}
use easy_lsm.Codec.Extends.{
  Extends, rest-eq, read_exact-length, read_exact-Extends, >>=-Extends, pure-Extends,
}

pub length-to_le_bytes : (w x : ℕ) → length (to_le_bytes w x) ≡ w
unfolding to_le_bytes
length-to_le_bytes zero x = refl
length-to_le_bytes (suc w) x = ap suc (length-to_le_bytes w (x / 256))

pub from_le_bytes-to_le_bytes : (w x : ℕ) → x < 256 ^ w → from_le_bytes (to_le_bytes w x) ≡ x
unfolding to_le_bytes from_le_bytes
from_le_bytes-to_le_bytes zero x h = omega arith
from_le_bytes-to_le_bytes (suc w) x h =
    omega (arith, from_le_bytes-to_le_bytes w (x / 256) (omega (arith, pow-suc 256 w)))

pub read_exact-Reads : (n : ℕ) (bs : Bytes) → n ≡ length bs → Reads (read_exact n) bs bs
unfolding read_exact
read_exact-Reads n bs h rest =
    rw (le→leb n (length (bs ++ rest)) (omega (arith, length-append bs rest))) (
      rw (take-append n bs rest (omega arith), drop-append n bs rest (omega arith))
        (rw (take_all n bs h, drop_all n bs h)))

pub uint-ReadsBack : (w x : ℕ) → x < 256 ^ w → ReadsBack (uint w) x
unfolding uint
uint-ReadsBack w x h =
    >>=-Reads_last (read_exact w) _ (to_le_bytes w x) (to_le_bytes w x) x
      (read_exact-Reads w (to_le_bytes w x) (sym (length-to_le_bytes w x)))
      (λ rest. rw (from_le_bytes-to_le_bytes w x h))

pub uint-Extends : (w : ℕ) → Extends (uint w).decode
unfolding uint
uint-Extends w = >>=-Extends (read_exact w) _ (read_exact-Extends w) (λ buf. pure-Extends _)

pub uint-length :
    (w : ℕ) (bs : Bytes) (x : ℕ) (rest : Bytes)
    → (uint w).decode bs ≡ ok (x, rest)
    → length rest + w ≡ length bs
unfolding uint
uint-length w bs x rest h = elim (Result-cases (read_exact w bs)) [
  | inl ((buf, r), e) ↦
      omega (arith, read_exact-length w bs buf r e, ap length (rest-eq (rw (e, ◌>>=◌) at h)))
  | inr (y, e) ↦ absurd (cc (rw (e, ◌>>=◌) at h))
]
