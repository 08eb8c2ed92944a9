-- ===== src/Compact/Merge.antt =====
-- compact.rs, `MergeIterator`: the runs of several tables merged into one, smallest key first. An
-- iterator over a table is the list of what its `next` answers from here on.
pub mod Smallest
pub mod Runs
pub mod Invariant
pub mod Sorted
pub mod Rounds
use easy_lsm.Base.{
  ℕ, zero, suc, ◌+◌, List, [], ◌∷◌, length, concat, get_elem?, set, if◌then◌else◌, Option, none,
  some,
}
use easy_lsm.Error.{Result, ok, err}
use easy_lsm.Key.{Key, key_le}
use easy_lsm.Value.{Value}
use easy_lsm.Entry.{Entry}

pub record MergeIterItem : Type 0 where
  pub key : Key
  pub value : Value
  pub iter_idx : ℕ

abbrev pub SstableIterator : Type 0
SstableIterator = List (Result Entry)

pub record MergeIterator : Type 0 where
  pub peek_heap : List MergeIterItem
  pub iters : List SstableIterator

-- The heap's `pop`, whose order is the reverse of the keys': an item whose key is smallest. Of
-- equal keys the heap may give any; this one gives the first in the list.
unfoldable pub pop : List MergeIterItem → Option (MergeIterItem × List MergeIterItem)
pop [] = none
pop (x ∷ xs) = elim (pop xs) [
  | none ↦ some (x, [])
  | some (y, ys) ↦ if key_le x.key y.key then some (x, xs) else some (y, x ∷ ys)
]

-- `MergeIterator::new`, from the iterator at `i` on.
unfoldable pub populate :
    ℕ → List SstableIterator → Result (List MergeIterItem × List SstableIterator)
populate i [] = ok ([], [])
populate i ([] ∷ its) = elim (populate (i + 1) its) [
  | ok (heap, rest) ↦ ok (heap, [] ∷ rest)
  | err e ↦ err e
]
populate i ((ok (key, value) ∷ it) ∷ its) = elim (populate (i + 1) its) [
  | ok (heap, rest) ↦ ok (record { key = key; value = value; iter_idx = i } ∷ heap, it ∷ rest)
  | err e ↦ err e
]
populate i ((err e ∷ it) ∷ its) = err e

unfoldable pub new : List SstableIterator → Result MergeIterator
unfolding populate
new its = elim (populate 0 its) [
  | ok (heap, rest) ↦ ok (record { peek_heap = heap; iters = rest })
  | err e ↦ err e
]

-- `next`, with the iterator that it leaves: the item popped, after its own iterator was advanced.
unfoldable pub next : MergeIterator → Option (Result Entry × MergeIterator)
unfolding pop
next m = elim (pop m.peek_heap) [
  | none ↦ none
  | some (item, heap) ↦ elim (get_elem? m.iters item.iter_idx) [
    | some (ok (next_key, next_val) ∷ it) ↦ some (
      ok (item.key, item.value),
      record {
        peek_heap = record { key = next_key; value = next_val; iter_idx = item.iter_idx } ∷ heap;
        iters = set m.iters item.iter_idx it;
      },
    )
    | some (err e ∷ it) ↦
        some (err e, record { peek_heap = heap; iters = set m.iters item.iter_idx it })
    | _ ↦ some (ok (item.key, item.value), record { peek_heap = heap; iters = m.iters })
  ]
]

-- The loop over the iterator, which leaves at the first error. `none`: out of fuel.
unfoldable pub merged : ℕ → MergeIterator → Option (Result (List Entry))
unfolding next
merged zero m = none
merged (suc fuel) m = elim (next m) [
  | none ↦ some (ok [])
  | some (err e, m') ↦ some (err e)
  | some (ok entry, m') ↦ elim (merged fuel m') [
    | some (ok es) ↦ some (ok (entry ∷ es))
    | other ↦ other
  ]
]

-- All of a merge. Each round takes an entry of an input.
unfoldable pub merge : List SstableIterator → Option (Result (List Entry))
unfolding new merged
merge its = elim (new its) [ ok m ↦ merged (suc (length (concat its))) m | err e ↦ some (err e) ]
