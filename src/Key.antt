-- ===== src/Key.antt =====
-- data_stores/key.rs: a key is its bytes and the log sequence number (LSN) of its write. The
-- atomic cell of the LSN is read and written under the write lock; its value is a field here.
pub mod Order
pub mod RoundTrip
pub mod Wrap
mod Tests
use easy_lsm.Base.{
  ℕ, ◌%◌, ◌^◌, ◌<◌, List, [], ◌∷◌, ◌++◌, length, Ordering, compare, Bool, if◌then◌else◌, ◌==◌, ◌&&◌,
  true, false,
}
use easy_lsm.Codec.{Bytes, Reader, pure, ◌>>=◌, read_exact, Loggable, u16, u64}

pub record Key : Type 0 where
  pub lsn : ℕ
  pub bytes : Bytes

abbrev pub serialized_header_size : ℕ
serialized_header_size = 10

unfoldable pub new : Bytes → ℕ → Key
new bytes lsn = record { lsn = lsn; bytes = bytes }

unfoldable pub update_lsn : Key → ℕ → Key
update_lsn key lsn = record key { lsn = lsn }

-- `Ord` of byte slices: lexicographic, and a prefix comes first.
unfoldable pub cmp_bytes : Bytes → Bytes → Ordering
cmp_bytes [] [] = Ordering.eq
cmp_bytes [] (b ∷ bs) = Ordering.lt
cmp_bytes (a ∷ as') [] = Ordering.gt
cmp_bytes (a ∷ as') (b ∷ bs) = elim (compare a b) [
  | Ordering.lt ↦ Ordering.lt
  | Ordering.eq ↦ cmp_bytes as' bs
  | Ordering.gt ↦ Ordering.gt
]

-- Bytes ascending, then LSN descending.
unfoldable pub cmp : Key → Key → Ordering
cmp a b = elim (cmp_bytes a.bytes b.bytes) [
  | Ordering.lt ↦ Ordering.lt
  | Ordering.eq ↦ compare b.lsn a.lsn
  | Ordering.gt ↦ Ordering.gt
]

unfoldable pub eq_bytes : Bytes → Bytes → Bool
eq_bytes [] [] = true
eq_bytes [] (b ∷ bs) = false
eq_bytes (a ∷ as') [] = false
eq_bytes (a ∷ as') (b ∷ bs) = a == b && eq_bytes as' bs

unfoldable pub eq : Key → Key → Bool
unfolding eq_bytes
eq a b = eq_bytes a.bytes b.bytes && a.lsn == b.lsn

-- The operators `<`, `<=` and their mirror images, through `partial_cmp`.
unfoldable pub key_lt : Key → Key → Bool
key_lt a b = elim (cmp a b) [ Ordering.lt ↦ true | _ ↦ false ]

unfoldable pub key_le : Key → Key → Bool
key_le a b = elim (cmp a b) [ Ordering.gt ↦ false | _ ↦ true ]

-- LSN (u64), length (u16, `as u16` keeps 16 bits), raw bytes.
encode_key : Key → Bytes
encode_key key = u64.encode key.lsn ++ (u16.encode (length key.bytes % 2 ^ 16) ++ key.bytes)

decode_key : Reader Key
decode_key = do
  lsn ← u64.decode
  key_len ← u16.decode
  key_bytes ← read_exact key_len
  pure (record { lsn = lsn; bytes = key_bytes })

unfoldable pub loggable : Loggable Key
unfolding encode_key decode_key
loggable = record { encode = encode_key; decode = decode_key }

-- The LSN is a u64, and the length fits the 16 bits that are written of it.
pub record Fits (key : Key) : Type 0 where
  pub lsn_u64 : key.lsn < 2 ^ 64
  pub short : length key.bytes < 2 ^ 16
