-- ===== src/BloomFilter.antt =====
-- data_stores/bloom_filter.rs: a bit map over k probes. The sizes come from floating-point
-- arithmetic on the item count and the rate of false positives, and are arguments here. The
-- hash of a key under a pair of words is that of the crate siphasher, a parameter. Words are 64 bits.
pub mod Members
mod Tests
use Prim.Native.Nat.{bit_and, bit_or}
use easy_lsm.Base.{
  ℕ, zero, suc, ◌+◌, ◌*◌, ◌/◌, ◌%◌, ◌^◌, List, Bool, true, false, not, ◌==◌, if◌then◌else◌,
  get_elem?, set, replicate, none, some,
}
use easy_lsm.Codec.{Bytes}

-- The two keys of the hashes, of two words each.
pub record SipKeys : Type 0 where
  pub first : ℕ × ℕ
  pub second : ℕ × ℕ

pub record BloomFilter : Type 0 where
  pub bitmap : List ℕ
  pub bitmap_bits : ℕ
  pub k_num : ℕ
  pub sip_keys : SipKeys

-- Aligned to words of 64 bits.
unfoldable pub new : ℕ → ℕ → BloomFilter
new num_bits k_num = record {
  bitmap = replicate ((num_bits + 63) / 64) 0;
  bitmap_bits = num_bits;
  k_num = k_num;
  sip_keys = record {
    first = (0x5068486940525249, 0x1234567890ABCDEF);
    second = (0xFEDCBA0987654321, 0x1029384756102938);
  };
}

-- An index out of range panics; `set` and `check` stay in range where there are bits.
abbrev pub word : List ℕ → ℕ → ℕ
word ws i = elim (get_elem? ws i) [ some w ↦ w | none ↦ 0 ]

unfoldable pub set_bit : ℕ → BloomFilter → BloomFilter
set_bit idx f =
    let word_idx = idx / 64 in
    record f { bitmap = set f.bitmap word_idx (bit_or (word f.bitmap word_idx) (2 ^ (idx % 64))) }

unfoldable pub get_bit : BloomFilter → ℕ → Bool
get_bit f idx = not (bit_and (word f.bitmap (idx / 64)) (2 ^ (idx % 64)) == 0)

module _ (sip_hash : ℕ × ℕ → Bytes → ℕ) where
  unfoldable pub hash_kernel : BloomFilter → Bytes → ℕ × ℕ
  hash_kernel f key = (sip_hash f.sip_keys.first key, sip_hash f.sip_keys.second key)

  -- `h1.wrapping_add((i as u64).wrapping_mul(h2)) % bitmap_bits`
  unfoldable pub probe : BloomFilter → Bytes → ℕ → ℕ
  unfolding hash_kernel
  probe f key i =
      let (h1, h2) = hash_kernel f key in (h1 + i * h2 % 2 ^ 64) % 2 ^ 64 % f.bitmap_bits

  -- The probes from `i` on, `left` of them.
  set_from : ℕ → ℕ → Bytes → BloomFilter → BloomFilter
  unfolding set_bit probe
  set_from zero i key f = f
  set_from (suc left) i key f = set_from left (i + 1) key (set_bit (probe f key i) f)

  check_from : ℕ → ℕ → Bytes → BloomFilter → Bool
  unfolding get_bit probe
  check_from zero i key f = true
  check_from (suc left) i key f =
      let rest = check_from left (i + 1) key f in
      if not (get_bit f (probe f key i)) then false else rest

  unfoldable pub insert : Bytes → BloomFilter → BloomFilter
  unfolding set_from
  insert key f = set_from f.k_num 0 key f

  unfoldable pub check : Bytes → BloomFilter → Bool
  unfolding check_from
  check key f = check_from f.k_num 0 key f
