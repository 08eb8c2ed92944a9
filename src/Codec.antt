-- ===== src/Codec.antt =====
-- data_stores/mod.rs: the `Loggable` trait, its implementations for the unsigned integers, for
-- vectors and for strings. A writer is the list of bytes written; a reader is the list of bytes
-- left to read.
pub mod Reads
pub mod Extends
pub mod Ints
pub mod Vectors
pub mod Consumes
use easy_lsm.Base.{
  ℕ, zero, suc, ◌+◌, ◌*◌, ◌/◌, ◌%◌, ◌^◌, List, [], ◌∷◌, ◌++◌, length, take, drop, Bool, leb,
  if◌then◌else◌,
}
use easy_lsm.Error.{Result, ok, err, eof, manifest_corrupted}

abbrev pub Bytes : Type 0
Bytes = List ℕ

-- A decoder takes what it reads from the front of the reader.
abbrev pub Reader : Type 0 → Type 0
Reader A = Bytes → Result (A × Bytes)

abbrev pub pure : {A : Type 0} → A → Reader A
pure a bs = ok (a, bs)

abbrev pub fail : {A : Type 0} → Result A → Reader A
fail r bs = elim r [ ok a ↦ ok (a, bs) | err e ↦ err e ]

infixl 5 ◌>>=◌ ◌>>◌
abbrev pub ◌>>=◌ : {A B : Type 0} → Reader A → (A → Reader B) → Reader B
◌>>=◌ m f bs = elim (m bs) [ ok (a, rest) ↦ f a rest | err e ↦ err e ]

abbrev pub ◌>>◌ : {A B : Type 0} → Reader A → Reader B → Reader B
m >> k = m >>= λ _. k

-- `Read::read_exact` into a buffer of `n` bytes.
unfoldable pub read_exact : ℕ → Reader Bytes
read_exact n bs = if leb n (length bs) then ok (take n bs, drop n bs) else eof

-- `to_le_bytes` of an integer of `w` bytes, and `from_le_bytes`.
unfoldable pub to_le_bytes : ℕ → ℕ → Bytes
to_le_bytes zero x = []
to_le_bytes (suc w) x = (x % 256) ∷ to_le_bytes w (x / 256)

unfoldable pub from_le_bytes : Bytes → ℕ
from_le_bytes [] = 0
from_le_bytes (b ∷ bs) = b + 256 * from_le_bytes bs

pub record Loggable (A : Type 0) : Type 0 where
  pub encode : A → Bytes
  pub decode : Reader A

-- The unsigned integer of `w` bytes.
decode_uint : ℕ → Reader ℕ
decode_uint w = do buf ← read_exact w; pure (from_le_bytes buf)

unfoldable pub uint : ℕ → Loggable ℕ
unfolding decode_uint
uint w = record { encode = to_le_bytes w; decode = decode_uint w }

abbrev pub u8 : Loggable ℕ
u8 = uint 1

abbrev pub u16 : Loggable ℕ
u16 = uint 2

abbrev pub u32 : Loggable ℕ
u32 = uint 4

abbrev pub u64 : Loggable ℕ
u64 = uint 8

module _ {A : Type 0} (l : Loggable A) where
  pub encode_all : List A → Bytes
  encode_all [] = []
  encode_all (x ∷ xs) = l.encode x ++ encode_all xs

  -- `for _ in 0..len { vec.push(T::decode(reader)?) }`
  pub decode_all : ℕ → Reader (List A)
  decode_all zero = pure []
  decode_all (suc n) = do x ← l.decode; xs ← decode_all n; pure (x ∷ xs)

  -- `[Len: u32][Item 0]...[Item N]`; `self.len() as u32` keeps 32 bits.
  encode_vec : List A → Bytes
  unfolding encode_all
  encode_vec xs = u32.encode (length xs % 2 ^ 32) ++ encode_all xs

  decode_vec : Reader (List A)
  unfolding decode_all
  decode_vec = do len ← u32.decode; decode_all len

  unfoldable pub vec : Loggable (List A)
  unfolding encode_vec decode_vec
  vec = record { encode = encode_vec; decode = decode_vec }

-- `Vec<u8>`
abbrev pub byte_vec : Loggable Bytes
byte_vec = vec u8

-- A string is its bytes; which of these are UTF-8 is the library's to say.
module _ (is_utf8 : Bytes → Bool) where
  decode_string : Reader Bytes
  decode_string = do
    bytes ← byte_vec.decode
    fail (if is_utf8 bytes then ok bytes else err manifest_corrupted)

  unfoldable pub string : Loggable Bytes
  unfolding decode_string
  string = record { encode = byte_vec.encode; decode = decode_string }
