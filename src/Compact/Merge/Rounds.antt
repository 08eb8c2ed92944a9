-- ===== src/Compact/Merge/Rounds.antt =====
-- A merge ends: each round that gives an entry leaves one entry less to come, read or not.
use easy_lsm.Base.{
  ℕ, zero, suc, ◌+◌, ◌<◌, arith, List, [], ◌∷◌, ◌++◌, length, length-append, concat, get_elem?, set,
  ◌≡◌, ◌≢◌, refl, sym, ap, ◌∙◌, Option, none, some, Option-cases, inl, inr, Bool-cases,
}
use easy_lsm.Error.{Result, ok, err, Result-cases}
use easy_lsm.Key.{key_le}
use easy_lsm.Entry.{Entry}
use easy_lsm.Compact.Merge.{
  MergeIterItem, MergeIterator, SstableIterator, pop, populate, new, next, merged, merge,
}

-- The entries in the heap and those that are still to be read.
abbrev pub left : MergeIterator → ℕ
left m = length m.peek_heap + length (concat m.iters)

abbrev PopsOne : List MergeIterItem → Option (MergeIterItem × List MergeIterItem) → Type 0
PopsOne heap none = length heap ≡ 0
PopsOne heap (some (x, rest)) = length heap ≡ suc (length rest)

pop-PopsOne : (heap : List MergeIterItem) → PopsOne heap (pop heap)
unfolding pop
pop-PopsOne [] = refl
pop-PopsOne (y ∷ ys) = elim (Option-cases (pop ys)) [
  | inl q ↦ rw (q, pop) (ap suc (rw q at (pop-PopsOne ys)))
  | inr ((z, zs), q) ↦
      let tail : length ys ≡ suc (length zs) = rw q at (pop-PopsOne ys) in
      rw (q, pop)
        (elim (Bool-cases (key_le y.key z.key)) [ inl le ↦ rw le | inr gt ↦ rw gt (ap suc tail) ])
]

length-set :
    (its : List SstableIterator) (i : ℕ) (r : Result Entry) (it : SstableIterator)
    → get_elem? its i ≡ some (r ∷ it)
    → suc (length (concat (set its i it))) ≡ length (concat its)
length-set [] i r it h = absurd (cc h)
length-set (jt ∷ its) zero r it h =
    let same : jt ≡ r ∷ it =
      ap (λ (o : Option SstableIterator). elim o [ some x ↦ x | none ↦ jt ]) h in
    ap (λ (x : SstableIterator). length (x ++ concat its)) (sym same)
length-set (jt ∷ its) (suc i) r it h = omega (
  arith,
  length-set its i r it h,
  length-append jt (concat its),
  length-append jt (concat (set its i it)),
)

abbrev Takes : List SstableIterator → Result (List MergeIterItem × List SstableIterator) → Type 0
Takes its (ok (heap, rest)) = length heap + length (concat rest) ≡ length (concat its)
Takes its (err e) = Unit {0}

populate-Takes : (i : ℕ) (its : List SstableIterator) → Takes its (populate i its)
unfolding populate
populate-Takes i [] = refl
populate-Takes i ([] ∷ its) = elim (Result-cases (populate (i + 1) its)) [
  | inl ((heap, rest), q) ↦ rw (q, populate) (rw q at (populate-Takes (i + 1) its))
  | inr (e, q) ↦ rw (q, populate) tt
]
populate-Takes i ((ok (key, value) ∷ it) ∷ its) = elim (Result-cases (populate (i + 1) its)) [
  | inl ((heap, rest), q) ↦
      let later : length heap + length (concat rest) ≡ length (concat its) =
        rw q at (populate-Takes (i + 1) its) in
      rw (q, populate)
        (omega (arith, length-append it (concat rest), length-append it (concat its)))
  | inr (e, q) ↦ rw (q, populate) tt
]
populate-Takes i ((err e ∷ it) ∷ its) = tt

pub new-left :
    (its : List SstableIterator) (m : MergeIterator) → new its ≡ ok m → left m ≡ length (concat its)
unfolding new
new-left its m h = elim (Result-cases (populate 0 its)) [
  | inl ((heap, rest), q) ↦
      let made : MergeIterator = record { peek_heap = heap; iters = rest } in
      let same : made ≡ m =
        ap (λ (r : Result MergeIterator). elim r [ ok x ↦ x | err e ↦ m ]) (rw (q, new) at h) in
      ap left (sym same) ∙ (rw q at (populate-Takes 0 its))
  | inr (e, q) ↦ absurd (cc (rw (q, new) at h))
]

abbrev Shrinks : MergeIterator → Option (Result Entry × MergeIterator) → Type 0
Shrinks m none = Unit {0}
Shrinks m (some (r, m')) = left m' < left m

pub next-Shrinks : (m : MergeIterator) → Shrinks m (next m)
unfolding next
next-Shrinks m = elim (Option-cases (pop m.peek_heap)) [
  | inl p ↦ rw (p, next) tt
  | inr ((item, heap), p) ↦
      let one : length m.peek_heap ≡ suc (length heap) = rw p at (pop-PopsOne m.peek_heap) in
      rw (p, next)
        (elim (Option-cases (get_elem? m.iters item.iter_idx)) [
          | inl q ↦ rw (q, next) (omega arith)
          | inr ([], q) ↦ rw (q, next) (omega arith)
          | inr (err e ∷ it, q) ↦
              rw (q, next) (omega (arith, length-set m.iters item.iter_idx (err e) it q))
          | inr (ok (k, v) ∷ it, q) ↦
              rw (q, next) (omega (arith, length-set m.iters item.iter_idx (ok (k, v)) it q))
        ])
]

-- With more rounds than there are entries to come, the rounds are enough.
merged-ne-none : (fuel : ℕ) (m : MergeIterator) → left m < fuel → merged fuel m ≢ none
unfolding merged
merged-ne-none zero m h = absurd (omega arith)
merged-ne-none (suc fuel) m h = elim (Option-cases (next m)) [
  | inl q ↦ rw (q, merged) (λ e. absurd (cc e))
  | inr ((err e, m'), q) ↦ rw (q, merged) (λ e. absurd (cc e))
  | inr ((ok kv, m'), q) ↦
      let less : left m' < left m = rw q at (next-Shrinks m) in
      rw (q, merged)
        (elim (Option-cases (merged fuel m')) [
          | inl n ↦ absurd (merged-ne-none fuel m' (omega arith) n)
          | inr (ok es, p) ↦ rw (p, merged) (λ e. absurd (cc e))
          | inr (err x, p) ↦ rw (p, merged) (λ e. absurd (cc e))
        ])
]

-- Merging any inputs comes to an end, in the rounds that it is given, with a list or with an error:
-- also where inputs cannot be read.
merge-ne-none : (its : List SstableIterator) → merge its ≢ none
unfolding merge
merge-ne-none its = elim (Result-cases (new its)) [
  | inr (e, q) ↦ rw (q, merge) (λ h. absurd (cc h))
  | inl (m, q) ↦
      rw (q, merge) (merged-ne-none (suc (length (concat its))) m (omega (arith, new-left its m q)))
]
