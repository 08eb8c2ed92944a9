-- ===== src/Sstable/Lookup.antt =====
-- The block that the index names for a key is the one to look into.
use easy_lsm.Base.{
  ◌-◌, ◌^◌, List, [], ◌∷◌, ◌++◌, ◌≡◌, refl, sym, ap, ◌∙◌, arith, All, Option, none, some, true,
  false, Bool-cases, inl, inr, Ordering,
}
use easy_lsm.Codec.{Bytes}
use easy_lsm.Key
use easy_lsm.Key.{Key, cmp, cmp_bytes, eq_bytes, key_lt}
use easy_lsm.Key.Order.{cmp_trans}
use easy_lsm.Entry.{Entry, Fits, IsSorted, first_of}
use easy_lsm.Sstable.Layout.{last_key}
use easy_lsm.Sstable.Block.{first_of_above}
use easy_lsm.Entry.Newest.{eq_bytes-eq, eq_bytes_lem, lsn-lt}

abbrev pub target_of : Bytes → Key
target_of k = Key.new k (2 ^ 64 - 1)

pub key_lt-lt : (a b : Key) → key_lt a b ≡ true → cmp a b ≡ Ordering.lt
unfolding key_lt
key_lt-lt a b h = ground arith

-- Nothing of a key stands before its target.
before_target :
    (key : Key) (k : Bytes)
    → Key.Fits key
    → cmp key (target_of k) ≡ Ordering.lt
    → eq_bytes key.bytes k ≡ false
unfolding Key.new
before_target key k fits h = elim (Bool-cases (eq_bytes key.bytes k)) [
  | inr other ↦ other
  | inl same ↦
      absurd
        (omega (arith, lsn-lt key (target_of k) h (eq_bytes-eq key.bytes k same), fits.lsn_u64))
]

behind_target :
    (key : Key) (k : Bytes)
    → key_lt key (target_of k) ≡ false
    → eq_bytes key.bytes k ≡ false
    → cmp_bytes key.bytes k ≡ Ordering.gt
unfolding key_lt cmp Key.new
behind_target key k h other = ground (arith, eq_bytes_lem key.bytes k)

last_key-All :
    {P : Entry → Type 0} (f : Entry) (fs more : List Entry)
    → All P (f ∷ (fs ++ more))
    → (e : Entry) × (e.0 ≡ last_key f fs) × P e
last_key-All f [] more (p, h) = (f, refl, p)
last_key-All f (g ∷ fs) more (p, h) = last_key-All g fs more h

-- The entry in front of a block is before its last key.
front_lt :
    (e f : Entry) (fs more : List Entry)
    → IsSorted (e ∷ f ∷ (fs ++ more))
    → cmp e.0 (last_key f fs) ≡ Ordering.lt
front_lt e f fs more (below, s) =
    let (g, last, lt) =
      last_key-All {P = λ (x : Entry). cmp e.0 x.0 ≡ Ordering.lt} f fs more below in
    ap (λ (x : Key). cmp e.0 x) (sym last) ∙ lt

-- A block whose last key is before the target has nothing of the key.
pub skip_block :
    (k : Bytes) (e : Entry) (es more : List Entry)
    → All Fits (e ∷ (es ++ more))
    → IsSorted (e ∷ (es ++ more))
    → cmp (last_key e es) (target_of k) ≡ Ordering.lt
    → first_of k (e ∷ (es ++ more)) ≡ first_of k more
skip_block k e [] more ((fk, fv), fits) s lt = rw (before_target e.0 k fk lt)
skip_block k e (f ∷ fs) more ((fk, fv), fits) s lt =
    rw
      (before_target e.0 k fk
        (cmp_trans e.0 (last_key f fs) (target_of k) (front_lt e f fs more s) lt))
      (skip_block k f fs more fits s.1 lt)

abbrev or_later : Option Entry → Option Entry → Option Entry
or_later none later = later
or_later (some e) later = some e

or_later-none : (o : Option Entry) → or_later o none ≡ o
or_later-none none = refl
or_later-none (some e) = refl

first_of-append :
    (k : Bytes) (es more : List Entry)
    → first_of k (es ++ more) ≡ or_later (first_of k es) (first_of k more)
first_of-append k [] more = refl
first_of-append k (e ∷ es) more = elim (Bool-cases (eq_bytes e.0.bytes k)) [
  | inl same ↦ rw same
  | inr other ↦ rw other (first_of-append k es more)
]

has_last :
    (k : Bytes) (e : Entry) (es : List Entry)
    → eq_bytes (last_key e es).bytes k ≡ true
    → (f : Entry) × (first_of k (e ∷ es) ≡ some f)
has_last k e [] h = (e, rw h)
has_last k e (g ∷ es) h = elim (Bool-cases (eq_bytes e.0.bytes k)) [
  | inl same ↦ (e, rw same)
  | inr other ↦ let (f, found) = has_last k g es h in (f, rw other found)
]

-- What follows a block comes after its last key.
above_last :
    (e : Entry) (es more : List Entry)
    → IsSorted (e ∷ (es ++ more))
    → All (λ (f : Entry). cmp (last_key e es) f.0 ≡ Ordering.lt) more
above_last e [] more s = s.0
above_last e (f ∷ fs) more s = above_last f fs more s.1

-- The first block that ends at the target or behind it has what there is of the key.
pub stay_in_block :
    (k : Bytes) (e : Entry) (es more : List Entry)
    → IsSorted (e ∷ (es ++ more))
    → key_lt (last_key e es) (target_of k) ≡ false
    → first_of k (e ∷ (es ++ more)) ≡ first_of k (e ∷ es)
stay_in_block k e es more s h =
    first_of-append k (e ∷ es) more ∙ elim (Bool-cases (eq_bytes (last_key e es).bytes k)) [
      | inl same ↦ let (f, found) = has_last k e es same in rw found
      | inr other ↦
          ap (or_later (first_of k (e ∷ es))) (
            first_of_above (last_key e es) k more (behind_target (last_key e es) k h other)
              (above_last e es more s))
          ∙ or_later-none (first_of k (e ∷ es))
    ]
