-- ===== src/BloomFilter/Members.antt =====
-- A filter never denies a key that was put in.
use Prim.Native.Nat.{bit_and, bit_or}
use native.Mathlib.Nat.{mod-lt}
use easy_lsm.Base.{
  ℕ, zero, suc, ◌+◌, ◌*◌, ◌/◌, ◌%◌, ◌^◌, ◌≤◌, ◌<◌, List, [], ◌∷◌, length, get_elem?, set,
  get_elem?-set, bit, bit_and-pow, bit-bit_or, ◌≡◌, refl, sym, ap, ◌∙◌, Bool, true, not, ◌==◌,
  ==_iff, if◌then◌else◌, none, some, Option-cases, Bool-cases, inl, inr, arith,
}
use mathlib.Core.List.{Memᴰ}
use easy_lsm.Codec.{Bytes}
use easy_lsm.BloomFilter.{
  BloomFilter, word, set_bit, get_bit, hash_kernel, probe, set_from, check_from, insert, check,
}

-- There is a bit, and every bit has its place in the map.
pub record IsSized (f : BloomFilter) : Type 0 where
  pub some_bit : 0 < f.bitmap_bits
  pub room : f.bitmap_bits ≤ 64 * length f.bitmap

pow_pos : (k : ℕ) → 0 < 2 ^ k
pow_pos zero = omega arith
pow_pos (suc k) = omega (arith, pow_pos k)

abbrev is_set : ℕ → ℕ → Bool
is_set w k = not (bit_and w (2 ^ k) == 0)

is_set_lem : (w k : ℕ) → is_set w k ≡ not (bit k w == 0)
is_set_lem w k = rw (bit_and-pow k w) (scaled (bit k w) (2 ^ k) (pow_pos k))
  where
    scaled : (b p : ℕ) → 0 < p → not (b * p == 0) ≡ not (b == 0)
    scaled zero p h = ground arith
    scaled (suc b) p h = grind arith

is_set-bit_or : (w j k : ℕ) → is_set w k ≡ true → is_set (bit_or w (2 ^ j)) k ≡ true
is_set-bit_or w j k h =
    is_set_lem (bit_or w (2 ^ j)) k
    ∙ rw (bit-bit_or j k w) (ground (arith, sym (is_set_lem w k) ∙ h))

is_set_now : (w k : ℕ) → is_set (bit_or w (2 ^ k)) k ≡ true
is_set_now w k = is_set_lem (bit_or w (2 ^ k)) k ∙ rw (bit-bit_or k k w) (ground arith)

get_bit_lem :
    (f : BloomFilter) (idx : ℕ) → get_bit f idx ≡ is_set (word f.bitmap (idx / 64)) (idx % 64)
unfolding get_bit
get_bit_lem f idx = refl

word-set :
    (ws : List ℕ) (i j u v : ℕ)
    → get_elem? ws i ≡ some u
    → word (set ws i v) j ≡ (if i == j then v else word ws j)
word-set ws i j u v h =
    rw (get_elem?-set ws i j u v h, word)
      (elim (Bool-cases (i == j)) [ inl e ↦ rw e | inr e ↦ rw e ])

set-none : (ws : List ℕ) (i v : ℕ) → get_elem? ws i ≡ none → set ws i v ≡ ws
set-none [] i v h = refl
set-none (w ∷ ws) zero v h = absurd (cc h)
set-none (w ∷ ws) (suc i) v h = ap (λ (l : List ℕ). w ∷ l) (set-none ws i v h)

in_map : (ws : List ℕ) (i : ℕ) → i < length ws → (w : ℕ) × (get_elem? ws i ≡ some w)
in_map [] i h = absurd (omega arith)
in_map (w ∷ ws) zero h = (w, refl)
in_map (w ∷ ws) (suc i) h = in_map ws i (omega arith)

-- Setting a bit keeps every other, and sets that one where it has a place.
get_bit-set_bit :
    (idx j : ℕ) (f : BloomFilter) → get_bit f j ≡ true → get_bit (set_bit idx f) j ≡ true
unfolding get_bit set_bit
get_bit-set_bit idx j f h = elim (Option-cases (get_elem? f.bitmap (idx / 64))) [
  | inl e ↦
      rw (set-none f.bitmap (idx / 64) (bit_or (word f.bitmap (idx / 64)) (2 ^ (idx % 64))) e) h
  | inr (w, e) ↦
      rw
        (word-set f.bitmap (idx / 64) (j / 64) w
          (bit_or (word f.bitmap (idx / 64)) (2 ^ (idx % 64))) e)
        (elim (Bool-cases (idx / 64 == j / 64)) [
          | inr ne ↦ rw ne h
          | inl eq ↦ rw eq (
              is_set-bit_or (word f.bitmap (idx / 64)) (idx % 64) (j % 64)
                (rw ((==_iff (idx / 64) (j / 64)).0 eq) h))
        ])
]

get_bit-set_bit_self :
    (idx : ℕ) (f : BloomFilter) → idx < 64 * length f.bitmap → get_bit (set_bit idx f) idx ≡ true
unfolding get_bit set_bit
get_bit-set_bit_self idx f h =
    let (w, e) = in_map f.bitmap (idx / 64) (omega arith) in
    rw
      (word-set f.bitmap (idx / 64) (idx / 64) w
        (bit_or (word f.bitmap (idx / 64)) (2 ^ (idx % 64))) e)
      (rw ((==_iff (idx / 64) (idx / 64)).1 refl)
        (is_set_now (word f.bitmap (idx / 64)) (idx % 64)))

length-set : (ws : List ℕ) (i v : ℕ) → length (set ws i v) ≡ length ws
length-set [] i v = refl
length-set (w ∷ ws) zero v = refl
length-set (w ∷ ws) (suc i) v = ap suc (length-set ws i v)

set_bit-IsSized : (idx : ℕ) (f : BloomFilter) → IsSized f → IsSized (set_bit idx f)
unfolding set_bit
set_bit-IsSized idx f v = record {
  some_bit = v.some_bit;
  room = omega (
    arith,
    v.room,
    length-set f.bitmap (idx / 64) (bit_or (word f.bitmap (idx / 64)) (2 ^ (idx % 64))),
  );
}

module _ (sip_hash : ℕ × ℕ → Bytes → ℕ) where
  probe-lt :
      (f : BloomFilter) (key : Bytes) (i : ℕ) → IsSized f → probe sip_hash f key i < f.bitmap_bits
  unfolding probe
  probe-lt f key i v = mod-lt _ v.some_bit

  set_from-get_bit :
      (left i : ℕ) (key : Bytes) (f : BloomFilter) (j : ℕ)
      → get_bit f j ≡ true
      → get_bit (set_from sip_hash left i key f) j ≡ true
  unfolding set_from
  set_from-get_bit zero i key f j h = h
  set_from-get_bit (suc left) i key f j h =
      set_from-get_bit left (i + 1) key (set_bit (probe sip_hash f key i) f) j
        (get_bit-set_bit (probe sip_hash f key i) j f h)

  set_from-IsSized :
      (left i : ℕ) (key : Bytes) (f : BloomFilter)
      → IsSized f
      → IsSized (set_from sip_hash left i key f)
  unfolding set_from
  set_from-IsSized zero i key f v = v
  set_from-IsSized (suc left) i key f v =
      set_from-IsSized left (i + 1) key (set_bit (probe sip_hash f key i) f)
        (set_bit-IsSized (probe sip_hash f key i) f v)

  -- The bits of the map move, its size does not.
  set_from-sizes :
      (left i : ℕ) (key : Bytes) (f : BloomFilter)
      → ((set_from sip_hash left i key f).bitmap_bits ≡ f.bitmap_bits)
        × ((set_from sip_hash left i key f).k_num ≡ f.k_num)
        × ((set_from sip_hash left i key f).sip_keys ≡ f.sip_keys)
  unfolding set_from set_bit
  set_from-sizes zero i key f = (refl, refl, refl)
  set_from-sizes (suc left) i key f =
      set_from-sizes left (i + 1) key (set_bit (probe sip_hash f key i) f)

  same_probe :
      (f g : BloomFilter) (key : Bytes) (i : ℕ)
      → g.bitmap_bits ≡ f.bitmap_bits
      → g.sip_keys ≡ f.sip_keys
      → probe sip_hash g key i ≡ probe sip_hash f key i
  unfolding probe hash_kernel
  same_probe f g key i e s = rw (e, s)

  -- A check that held goes on holding when bits are set and the size stays.
  check_from-grows :
      (left i : ℕ) (key : Bytes) (f g : BloomFilter)
      → g.bitmap_bits ≡ f.bitmap_bits
      → g.sip_keys ≡ f.sip_keys
      → ((j : ℕ) → get_bit f j ≡ true → get_bit g j ≡ true)
      → check_from sip_hash left i key f ≡ true
      → check_from sip_hash left i key g ≡ true
  unfolding check_from
  check_from-grows zero i key f g e s grow h = refl
  check_from-grows (suc left) i key f g e s grow h =
      elim (Bool-cases (get_bit f (probe sip_hash f key i))) [
        | inr off ↦ absurd (cc (rw off at h))
        | inl on ↦ rw (same_probe f g key i e s) (
            rw (grow (probe sip_hash f key i) on)
              (check_from-grows left (i + 1) key f g e s grow (rw on at h)))
      ]

  check_from-set_from :
      (left i : ℕ) (key : Bytes) (f : BloomFilter)
      → IsSized f
      → check_from sip_hash left i key (set_from sip_hash left i key f) ≡ true
  unfolding check_from set_from
  check_from-set_from zero i key f v = refl
  check_from-set_from (suc left) i key f v =
      let p = probe sip_hash f key i in
      let f' = set_bit p f in
      let g = set_from sip_hash left (i + 1) key f' in
      rw
        (same_probe f g key i (set_from-sizes (suc left) i key f).0
          (set_from-sizes (suc left) i key f).2)
        (rw
          (set_from-get_bit left (i + 1) key f' p
            (get_bit-set_bit_self p f (omega (arith, probe-lt f key i v, v.room))))
          (check_from-set_from left (i + 1) key f' (set_bit-IsSized p f v)))

  -- The filter after `set` of each key.
  abbrev pub insert_all : List Bytes → BloomFilter → BloomFilter
  insert_all [] f = f
  insert_all (key ∷ keys) f = insert_all keys (insert sip_hash key f)

  insert_all-check :
      (keys : List Bytes) (key : Bytes) (f : BloomFilter)
      → check sip_hash key f ≡ true
      → check sip_hash key (insert_all keys f) ≡ true
  unfolding check insert
  insert_all-check [] key f h = h
  insert_all-check (k ∷ keys) key f h = insert_all-check keys key (insert sip_hash k f) (
      rw ((set_from-sizes f.k_num 0 k f).1) (
        check_from-grows f.k_num 0 key f (set_from sip_hash f.k_num 0 k f)
          (set_from-sizes f.k_num 0 k f).0 (set_from-sizes f.k_num 0 k f).2
          (λ j. set_from-get_bit f.k_num 0 k f j) h))

  -- No false negatives: every key that was set in a filter with room for its bits is found by
  -- `check`, whatever else was set before and after it.
  pub check-insert_all :
      (keys : List Bytes) (key : Bytes) (f : BloomFilter)
      → IsSized f
      → Memᴰ key keys
      → check sip_hash key (insert_all keys f) ≡ true
  unfolding check insert
  check-insert_all [] key f v m = elim m [ ]
  check-insert_all (k ∷ keys) key f v (Memᴰ.head e) =
      insert_all-check keys key (insert sip_hash k f)
        (rw ((set_from-sizes f.k_num 0 k f).1, e) (check_from-set_from f.k_num 0 k f v))
  check-insert_all (k ∷ keys) key f v (Memᴰ.tail m) =
      check-insert_all keys key (insert sip_hash k f) (set_from-IsSized f.k_num 0 k f v) m
