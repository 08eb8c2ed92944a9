-- ===== src/Key/Order.antt =====
-- The order of keys: total, and decided by `cmp`.
use easy_lsm.Base.{◌≡◌, refl, arith, Ordering, [], ◌∷◌, true, false}
use easy_lsm.Codec.{Bytes}
use easy_lsm.Key.{Key, cmp_bytes, cmp, key_le, key_lt}

abbrev pub flip : Ordering → Ordering
flip Ordering.lt = Ordering.gt
flip Ordering.eq = Ordering.eq
flip Ordering.gt = Ordering.lt

pub cmp_bytes-flip : (a b : Bytes) → cmp_bytes a b ≡ flip (cmp_bytes b a)
unfolding cmp_bytes
cmp_bytes-flip [] [] = refl
cmp_bytes-flip [] (b ∷ bs) = refl
cmp_bytes-flip (a ∷ as') [] = refl
cmp_bytes-flip (a ∷ as') (b ∷ bs) = ground (arith, cmp_bytes-flip as' bs)

pub cmp_bytes-eq : (a b : Bytes) → cmp_bytes a b ≡ Ordering.eq → a ≡ b
unfolding cmp_bytes
cmp_bytes-eq [] [] h = refl
cmp_bytes-eq [] (b ∷ bs) h = cc
cmp_bytes-eq (a ∷ as') [] h = cc
cmp_bytes-eq (a ∷ as') (b ∷ bs) h = ground (arith, cmp_bytes-eq as' bs)

pub cmp_bytes_self : (a : Bytes) → cmp_bytes a a ≡ Ordering.eq
unfolding cmp_bytes
cmp_bytes_self [] = refl
cmp_bytes_self (a ∷ as') = ground (arith, cmp_bytes_self as')

pub cmp_bytes_trans :
    (a b c : Bytes)
    → cmp_bytes a b ≡ Ordering.lt
    → cmp_bytes b c ≡ Ordering.lt
    → cmp_bytes a c ≡ Ordering.lt
unfolding cmp_bytes
cmp_bytes_trans [] [] c h k = cc
cmp_bytes_trans [] (b ∷ bs) [] h k = cc
cmp_bytes_trans [] (b ∷ bs) (c ∷ cs) h k = refl
cmp_bytes_trans (a ∷ as') [] c h k = cc
cmp_bytes_trans (a ∷ as') (b ∷ bs) [] h k = cc
cmp_bytes_trans (a ∷ as') (b ∷ bs) (c ∷ cs) h k = ground (arith, cmp_bytes_trans as' bs cs)

pub cmp-flip : (a b : Key) → cmp a b ≡ flip (cmp b a)
unfolding cmp
cmp-flip a b = ground (arith, cmp_bytes-flip a.bytes b.bytes)

pub cmp-eq : (a b : Key) → cmp a b ≡ Ordering.eq → a ≡ b
unfolding cmp
cmp-eq a b h = ground (arith, cmp_bytes-eq a.bytes b.bytes)

pub cmp_self : (a : Key) → cmp a a ≡ Ordering.eq
unfolding cmp
cmp_self a = ground (arith, cmp_bytes_self a.bytes)

pub cmp_trans :
    (a b c : Key) → cmp a b ≡ Ordering.lt → cmp b c ≡ Ordering.lt → cmp a c ≡ Ordering.lt
unfolding cmp
cmp_trans a b c h k = ground (
  arith,
  cmp_bytes_trans a.bytes b.bytes c.bytes,
  cmp_bytes-eq a.bytes b.bytes,
  cmp_bytes-eq b.bytes c.bytes,
  cmp_bytes_self a.bytes,
)

pub key_le_self : (a : Key) → key_le a a ≡ true
unfolding key_le
key_le_self a = rw (cmp_self a, key_le)

-- Of two keys one is at most the other.
pub lt_of_not-key_le : (a b : Key) → key_le a b ≡ false → key_lt b a ≡ true
unfolding key_le key_lt
lt_of_not-key_le a b h = ground (arith, cmp-flip a b)

pub key_le_of_not-lt : (a b : Key) → key_lt a b ≡ false → key_le b a ≡ true
unfolding key_le key_lt
key_le_of_not-lt a b h = ground (arith, cmp-flip a b)

pub key_le_of_lt : (a b : Key) → key_lt a b ≡ true → key_le a b ≡ true
unfolding key_le key_lt
key_le_of_lt a b h = ground arith

pub key_lt-trans_le : (a b c : Key) → key_lt a b ≡ true → key_le b c ≡ true → key_lt a c ≡ true
unfolding key_le key_lt
key_lt-trans_le a b c h k = ground (arith, cmp_trans a b c, cmp-eq b c)

pub key_le-trans_lt : (a b c : Key) → key_le a b ≡ true → key_lt b c ≡ true → key_lt a c ≡ true
unfolding key_le key_lt
key_le-trans_lt a b c h k = ground (arith, cmp_trans a b c, cmp-eq a b)

pub key_le_trans : (a b c : Key) → key_le a b ≡ true → key_le b c ≡ true → key_le a c ≡ true
unfolding key_le
key_le_trans a b c h k = ground (arith, cmp_trans a b c, cmp-eq a b, cmp-eq b c)
