-- ===== src/Compact/Merge/Smallest.antt =====
-- The merge gives a smallest key first.
use easy_lsm.Base.{
  List, [], ◌∷◌, ◌≡◌, refl, sym, subst, true, Option, none, some, Bool-cases, Option-cases, inl,
  inr, All, get_elem?,
}
use easy_lsm.Error.{Result, ok, err}
use easy_lsm.Entry.{Entry}
use easy_lsm.Key.{Key, key_le}
use easy_lsm.Key.Order.{key_le_self, key_le_trans, lt_of_not-key_le, key_le_of_lt}
use easy_lsm.Compact.Merge.{MergeIterItem, MergeIterator, pop, next}

-- No item of the heap has a smaller key.
abbrev pub IsSmallest : Key → List MergeIterItem → Type 0
IsSmallest k heap = All (λ (y : MergeIterItem). key_le k y.key ≡ true) heap

IsSmallest-lower :
    (a b : Key) (heap : List MergeIterItem)
    → key_le a b ≡ true
    → IsSmallest b heap
    → IsSmallest a heap
IsSmallest-lower a b [] p h = tt
IsSmallest-lower a b (y ∷ ys) p (q, h) = (key_le_trans a b y.key p q, IsSmallest-lower a b ys p h)

-- What `pop` answers, whose item is a smallest one.
abbrev pub PopsSmallest : List MergeIterItem → Option (MergeIterItem × List MergeIterItem) → Type 0
PopsSmallest heap none = heap ≡ []
PopsSmallest heap (some (x, rest)) = IsSmallest x.key heap

pub pop-PopsSmallest : (heap : List MergeIterItem) → PopsSmallest heap (pop heap)
unfolding pop
pop-PopsSmallest [] = refl
pop-PopsSmallest (x ∷ xs) = elim (Option-cases (pop xs)) [
  | inl e ↦
      let empty : xs ≡ [] = subst (PopsSmallest xs) e (pop-PopsSmallest xs) in
      rw (e, pop) (key_le_self x.key, subst (IsSmallest x.key) (sym empty) tt)
  | inr ((y, ys), e) ↦
      let small : IsSmallest y.key xs = subst (PopsSmallest xs) e (pop-PopsSmallest xs) in
      rw (e, pop)
        (elim (Bool-cases (key_le x.key y.key)) [
          | inl le ↦ rw le (key_le_self x.key, IsSmallest-lower x.key y.key xs le small)
          | inr gt ↦ rw gt (key_le_of_lt y.key x.key (lt_of_not-key_le x.key y.key gt), small)
        ])
]

-- What `next` answers: nothing only from an empty heap, else an error, or an entry with a smallest
-- key.
abbrev GivesSmallest : List MergeIterItem → Option (Result Entry × MergeIterator) → Type 0
GivesSmallest heap none = heap ≡ []
GivesSmallest heap (some (ok entry, m)) = IsSmallest entry.0 heap
GivesSmallest heap (some (err e, m)) = Unit {0}

-- Each step of the merge gives an entry whose key is smallest among the heads of all the inputs, or
-- the error of the input that it came from, and it ends only when no head is left.
next-GivesSmallest : (m : MergeIterator) → GivesSmallest m.peek_heap (next m)
unfolding next
next-GivesSmallest m = elim (Option-cases (pop m.peek_heap)) [
  | inl e ↦
      let empty : m.peek_heap ≡ [] =
        subst (PopsSmallest m.peek_heap) e (pop-PopsSmallest m.peek_heap) in
      rw (e, next) empty
  | inr ((x, rest), e) ↦
      let small : IsSmallest x.key m.peek_heap =
        subst (PopsSmallest m.peek_heap) e (pop-PopsSmallest m.peek_heap) in
      rw (e, next)
        (elim (Option-cases (get_elem? m.iters x.iter_idx)) [
          | inl q ↦ rw q small
          | inr ([], q) ↦ rw q small
          | inr (ok (key, value) ∷ it, q) ↦ rw q small
          | inr (err z ∷ it, q) ↦ rw q tt
        ])
]
