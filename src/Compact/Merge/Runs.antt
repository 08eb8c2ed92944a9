-- ===== src/Compact/Merge/Runs.antt =====
-- The inputs of a merge as runs of entries, when all of them can be read: what a step takes away
-- and what it leaves.
use easy_lsm.Base.{
  ℕ, zero, suc, List, [], ◌∷◌, ◌++◌, map, concat, get_elem?, set, ◌≡◌, refl, sym, ap, subst, Option,
  none, some, Option-cases, Bool-cases, inl, inr,
}
use mathlib.Core.List.{Permᴰ}
use mathlib.Core.List.Permᴰ
use easy_lsm.Error.{ok}
use easy_lsm.Key.{key_le}
use easy_lsm.Entry.{Entry}
pub use easy_lsm.Sstable.Items.{ok_run}
use easy_lsm.Compact.Merge.{MergeIterItem, MergeIterator, SstableIterator, pop, next}

abbrev pub ok_runs : List (List Entry) → List SstableIterator
ok_runs [] = []
ok_runs (r ∷ rs) = ok_run r ∷ ok_runs rs

abbrev pub item : Entry → ℕ → MergeIterItem
item (key, value) i = record { key = key; value = value; iter_idx = i }

abbrev pub entry_of : MergeIterItem → Entry
entry_of x = (x.key, x.value)

abbrev pub state : List MergeIterItem → List (List Entry) → MergeIterator
state heap rs = record { peek_heap = heap; iters = ok_runs rs }

-- What is still to come.
abbrev pub remaining : List MergeIterItem → List (List Entry) → List Entry
remaining heap rs = map entry_of heap ++ concat rs

get_none :
    (rs : List (List Entry)) (i : ℕ) → get_elem? rs i ≡ none → get_elem? (ok_runs rs) i ≡ none
get_none [] i h = refl
get_none (r ∷ rs) zero h = absurd (cc h)
get_none (r ∷ rs) (suc i) h = get_none rs i h

get_some :
    (rs : List (List Entry)) (i : ℕ) (r : List Entry)
    → get_elem? rs i ≡ some r
    → get_elem? (ok_runs rs) i ≡ some (ok_run r)
get_some [] i r h = absurd (cc h)
get_some (s ∷ rs) zero r h =
    ap (λ (o : Option (List Entry)). elim o [ some x ↦ some (ok_run x) | none ↦ none ]) h
get_some (s ∷ rs) (suc i) r h = get_some rs i r h

set-ok_runs :
    (rs : List (List Entry)) (i : ℕ) (r : List Entry)
    → set (ok_runs rs) i (ok_run r) ≡ ok_runs (set rs i r)
set-ok_runs [] i r = refl
set-ok_runs (s ∷ rs) zero r = refl
set-ok_runs (s ∷ rs) (suc i) r =
    ap (λ (x : List SstableIterator). ok_run s ∷ x) (set-ok_runs rs i r)

pub set-Permᴰ :
    (rs : List (List Entry)) (i : ℕ) (e : Entry) (r : List Entry)
    → get_elem? rs i ≡ some (e ∷ r)
    → Permᴰ (e ∷ concat (set rs i r)) (concat rs)
set-Permᴰ [] i e r h = absurd (cc h)
set-Permᴰ (s ∷ rs) zero e r h =
    let same : s ≡ e ∷ r = ap (λ (o : Option (List Entry)). elim o [ some x ↦ x | none ↦ s ]) h in
    subst (λ (x : List Entry). Permᴰ (e ∷ (r ++ concat rs)) (x ++ concat rs)) (sym same)
      (Permᴰ.refl _)
set-Permᴰ (s ∷ rs) (suc i) e r h =
    Permᴰ.trans (Permᴰ.symm (Permᴰ.middle e s (concat (set rs i r))))
      (Permᴰ.append_left s (set-Permᴰ rs i e r h))

abbrev pub PopsPerm : List MergeIterItem → Option (MergeIterItem × List MergeIterItem) → Type 0
PopsPerm heap none = heap ≡ []
PopsPerm heap (some (x, rest)) = Permᴰ (x ∷ rest) heap

-- What is popped and what is left are the heap.
pub pop-Permᴰ : (heap : List MergeIterItem) → PopsPerm heap (pop heap)
unfolding pop
pop-Permᴰ [] = refl
pop-Permᴰ (x ∷ xs) = elim (Option-cases (pop xs)) [
  | inl e ↦
      let empty : xs ≡ [] = subst (PopsPerm xs) e (pop-Permᴰ xs) in
      rw (e, pop)
        (subst (λ (l : List MergeIterItem). Permᴰ (x ∷ []) (x ∷ l)) (sym empty) (Permᴰ.refl _))
  | inr ((y, ys), e) ↦
      let same : Permᴰ (y ∷ ys) xs = subst (PopsPerm xs) e (pop-Permᴰ xs) in
      rw (e, pop)
        (elim (Bool-cases (key_le x.key y.key)) [
          | inl le ↦ rw le (Permᴰ.refl (x ∷ xs))
          | inr gt ↦ rw gt (Permᴰ.trans (Permᴰ.swap refl refl) (Permᴰ.cons refl same))
        ])
]

module _ (heap rest : List MergeIterItem) (rs : List (List Entry)) (x : MergeIterItem)
    (popped : pop heap ≡ some (x, rest)) where
  -- The run of the popped item is at its end.
  pub next-none :
      get_elem? rs x.iter_idx ≡ none → next (state heap rs) ≡ some (ok (entry_of x), state rest rs)
  unfolding next
  next-none h = rw (popped, next) (rw (get_none rs x.iter_idx h))

  pub next-end :
      get_elem? rs x.iter_idx ≡ some []
      → next (state heap rs) ≡ some (ok (entry_of x), state rest rs)
  unfolding next
  next-end h = rw (popped, next) (rw (get_some rs x.iter_idx [] h))

  -- It has a next entry, which goes into the heap.
  pub next-more :
      (e : Entry) (r : List Entry)
      → get_elem? rs x.iter_idx ≡ some (e ∷ r)
      → next (state heap rs)
        ≡ some (ok (entry_of x), state (item e x.iter_idx ∷ rest) (set rs x.iter_idx r))
  unfolding next
  next-more (key, value) r h =
      rw (popped, next)
        (rw (get_some rs x.iter_idx ((key, value) ∷ r) h) (rw (set-ok_runs rs x.iter_idx r)))

  pop-remaining : Permᴰ (entry_of x ∷ remaining rest rs) (remaining heap rs)
  pop-remaining =
      Permᴰ.append_right (concat rs)
        (Permᴰ.map entry_of (subst (PopsPerm heap) popped (pop-Permᴰ heap)))

  pub end-remaining : Permᴰ (entry_of x ∷ remaining rest rs) (remaining heap rs)
  end-remaining = pop-remaining

  pub more-remaining :
      (e : Entry) (r : List Entry)
      → get_elem? rs x.iter_idx ≡ some (e ∷ r)
      → Permᴰ
          (entry_of x ∷ remaining (item e x.iter_idx ∷ rest) (set rs x.iter_idx r))
          (remaining heap rs)
  more-remaining e r h =
      Permᴰ.trans
        (Permᴰ.cons refl (
          Permᴰ.trans
            (Permᴰ.symm (Permᴰ.middle e (map entry_of rest) (concat (set rs x.iter_idx r))))
            (Permᴰ.append_left (map entry_of rest) (set-Permᴰ rs x.iter_idx e r h))))
        pop-remaining
