-- ===== src/Entry/Newest.antt =====
-- Writes into a sorted run keep it sorted, and its first entry of a key is the newest write.
use easy_lsm.Base.{
  ◌<◌, ◌≡◌, refl, sym, ◌∙◌, ap, subst, arith, List, [], ◌∷◌, Ordering, All, true, false, some, ◌⊎◌,
  if◌then◌else◌, inl, inr, Bool-cases,
}
use easy_lsm.Codec.{Bytes}
use easy_lsm.Key.{Key, cmp, cmp_bytes, eq_bytes}
use easy_lsm.Key.Order.{cmp-eq, cmp-flip, cmp_trans, cmp_bytes_self}
use easy_lsm.Entry.{Entry, IsSorted, first_of, newer, insert_sorted}

pub eq_bytes-eq : (a b : Bytes) → eq_bytes a b ≡ true → a ≡ b
unfolding eq_bytes
eq_bytes-eq [] [] h = refl
eq_bytes-eq [] (b ∷ bs) h = cc
eq_bytes-eq (a ∷ as') [] h = cc
eq_bytes-eq (a ∷ as') (b ∷ bs) h = ground (arith, eq_bytes-eq as' bs)

pub eq_bytes_self : (a : Bytes) → eq_bytes a a ≡ true
unfolding eq_bytes
eq_bytes_self [] = refl
eq_bytes_self (a ∷ as') = ground (arith, eq_bytes_self as')

pub eq_bytes_lem :
    (a b : Bytes) → eq_bytes a b ≡ elim (cmp_bytes a b) [ Ordering.eq ↦ true | _ ↦ false ]
unfolding eq_bytes cmp_bytes
eq_bytes_lem [] [] = refl
eq_bytes_lem [] (b ∷ bs) = refl
eq_bytes_lem (a ∷ as') [] = refl
eq_bytes_lem (a ∷ as') (b ∷ bs) = ground (arith, eq_bytes_lem as' bs)

-- Of two keys with the same bytes the first has the higher LSN.
pub lsn-lt : (a b : Key) → cmp a b ≡ Ordering.lt → a.bytes ≡ b.bytes → b.lsn < a.lsn
unfolding cmp
lsn-lt a b h e = ground (arith, cmp_bytes_self b.bytes, ap (λ (x : Bytes). cmp_bytes x b.bytes) e)

abbrev Below : Key → List Entry → Type 0
Below key es = All (λ (f : Entry). cmp key f.0 ≡ Ordering.lt) es

Below-trans : (a b : Key) (es : List Entry) → cmp a b ≡ Ordering.lt → Below b es → Below a es
Below-trans a b [] h k = tt
Below-trans a b (e ∷ es) h (p, k) = (cmp_trans a b e.0 h p, Below-trans a b es h k)

Below-insert :
    (a : Key) (e : Entry) (es : List Entry)
    → cmp a e.0 ≡ Ordering.lt
    → Below a es
    → Below a (insert_sorted e es)
Below-insert a e [] h k = (h, tt)
Below-insert a e (f ∷ fs) h (p, k) = ground (arith, Below-insert a e fs h k)

gt→lt : (a b : Key) → cmp a b ≡ Ordering.gt → cmp b a ≡ Ordering.lt
gt→lt a b h = ground (arith, cmp-flip b a)

pub Ordering-cases : (o : Ordering) → (o ≡ Ordering.lt) ⊎ ((o ≡ Ordering.eq) ⊎ (o ≡ Ordering.gt))
Ordering-cases Ordering.lt = inl refl
Ordering-cases Ordering.eq = inr (inl refl)
Ordering-cases Ordering.gt = inr (inr refl)

pub insert_sorted-IsSorted :
    (e : Entry) (es : List Entry) → IsSorted es → IsSorted (insert_sorted e es)
insert_sorted-IsSorted e [] h = (tt, tt)
insert_sorted-IsSorted e (f ∷ fs) (below, h) = elim (Ordering-cases (cmp e.0 f.0)) [
  | inl lt ↦ rw (lt, insert_sorted) ((lt, Below-trans e.0 f.0 fs lt below), (below, h))
  | inr (inl eq) ↦
      rw (eq, insert_sorted) (subst (λ k. Below k fs) (sym (cmp-eq e.0 f.0 eq)) below, h)
  | inr (inr gt) ↦
      rw (gt, insert_sorted)
        (Below-insert f.0 e fs (gt→lt e.0 f.0 gt) below, insert_sorted-IsSorted e fs h)
]

-- In a run behind a key, an entry of the same bytes is older.
first_of-older :
    (v : Entry) (k : Bytes) (es : List Entry)
    → Below v.0 es
    → eq_bytes v.0.bytes k ≡ true
    → newer v (first_of k es) ≡ some v
first_of-older v k [] h e = refl
first_of-older v k (f ∷ fs) (p, h) e = elim (Bool-cases (eq_bytes f.0.bytes k)) [
  | inl same ↦
      let older : f.0.lsn < v.0.lsn =
        lsn-lt v.0 f.0 p (eq_bytes-eq v.0.bytes k e ∙ sym (eq_bytes-eq f.0.bytes k same)) in
      rw same (ground arith)
  | inr other ↦ rw other (first_of-older v k fs h e)
]

in_front :
    (e : Entry) (k : Bytes) (es : List Entry)
    → Below e.0 es
    → (if eq_bytes e.0.bytes k then some e else first_of k es)
      ≡ (if eq_bytes e.0.bytes k then newer e (first_of k es) else first_of k es)
in_front e k es h = elim (Bool-cases (eq_bytes e.0.bytes k)) [
  | inl same ↦ rw same (sym (first_of-older e k es h same))
  | inr other ↦ rw other
]

in_place :
    (e : Entry) (k : Bytes) (f : Entry) (es : List Entry)
    → e.0 ≡ f.0
    → Below f.0 es
    → (if eq_bytes e.0.bytes k then some e else first_of k es) ≡ (
        if eq_bytes e.0.bytes k
        then newer e (if eq_bytes f.0.bytes k then some f else first_of k es)
        else (if eq_bytes f.0.bytes k then some f else first_of k es))
in_place e k f es q h = ground (arith, ap (λ (x : Key). eq_bytes x.bytes k) q)

behind :
    (e : Entry) (k : Bytes) (f : Entry) (es : List Entry)
    → cmp f.0 e.0 ≡ Ordering.lt
    → first_of k (insert_sorted e es)
      ≡ (if eq_bytes e.0.bytes k then newer e (first_of k es) else first_of k es)
    → (if eq_bytes f.0.bytes k then some f else first_of k (insert_sorted e es)) ≡ (
        if eq_bytes e.0.bytes k
        then newer e (if eq_bytes f.0.bytes k then some f else first_of k es)
        else (if eq_bytes f.0.bytes k then some f else first_of k es))
behind e k f es lt ih = elim (Bool-cases (eq_bytes f.0.bytes k)) [
  | inr other ↦ rw other ih
  | inl same ↦ elim (Bool-cases (eq_bytes e.0.bytes k)) [
    | inr other ↦ rw (same, other)
    | inl also ↦
        let older : e.0.lsn < f.0.lsn =
          lsn-lt f.0 e.0 lt (eq_bytes-eq f.0.bytes k same ∙ sym (eq_bytes-eq e.0.bytes k also)) in
        rw (same, also) (ground arith)
  ]
]

pub first_of-insert_sorted :
    (e : Entry) (k : Bytes) (es : List Entry)
    → IsSorted es
    → first_of k (insert_sorted e es)
      ≡ (if eq_bytes e.0.bytes k then newer e (first_of k es) else first_of k es)
first_of-insert_sorted e k [] h = refl
first_of-insert_sorted e k (f ∷ fs) (below, h) = elim (Ordering-cases (cmp e.0 f.0)) [
  | inl lt ↦ rw (lt, insert_sorted) (in_front e k (f ∷ fs) (lt, Below-trans e.0 f.0 fs lt below))
  | inr (inl eq) ↦ rw (eq, insert_sorted) (in_place e k f fs (cmp-eq e.0 f.0 eq) below)
  | inr (inr gt) ↦
      rw (gt, insert_sorted) (behind e k f fs (gt→lt e.0 f.0 gt) (first_of-insert_sorted e k fs h))
]
