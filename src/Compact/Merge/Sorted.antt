-- ===== src/Compact/Merge/Sorted.antt =====
-- A merge of ascending runs is ascending, and has the entries of all of them.
use easy_lsm.Base.{
  ℕ, zero, suc, ◌+◌, ◌<◌, List, [], ◌∷◌, ◌++◌, map, concat, get_elem?, set, length, length-append,
  ◌≡◌, refl, sym, ap, ◌∙◌, subst, Option, none, some, Option-cases, inl, inr, arith, All, All-Permᴰ,
  append_assoc, true,
}
use mathlib.Core.List.{Permᴰ, Memᴰ}
use mathlib.Core.List.Permᴰ
use easy_lsm.Error.{Result, ok}
use easy_lsm.Key.{key_le}
use easy_lsm.Entry.{Entry}
use easy_lsm.Compact.Merge.{MergeIterItem, pop, populate, new, next, merged, merge}
use easy_lsm.Compact.Merge.Runs.{
  ok_run, ok_runs, item, entry_of, state, remaining, pop-Permᴰ, PopsPerm, next-none, next-end,
  next-more, end-remaining, more-remaining,
}
use easy_lsm.Compact.Merge.Invariant.{
  AtLeast, IsAscending, IsMerging, popped-AtLeast, end-IsMerging, more-IsMerging,
}

-- The result of a merge of what is to come.
abbrev Merges : List Entry → Option (Result (List Entry)) → Type 0
Merges es r = (out : List Entry) × (r ≡ some (ok out)) × IsAscending out × Permᴰ out es

one_more :
    (e : Entry) (es rest : List Entry) (r : Option (Result (List Entry)))
    → AtLeast e.0 es
    → Permᴰ (e ∷ rest) es
    → Merges rest r
    → Merges es (elim r [ some (ok out) ↦ some (ok (e ∷ out)) | other ↦ other ])
one_more e es rest r low same (out, q, up, perm) = (
  e ∷ out,
  rw q,
  (
    All-Permᴰ (λ (f : Entry). key_le e.0 f.0 ≡ true) (Permᴰ.symm perm)
        (All-Permᴰ (λ (f : Entry). key_le e.0 f.0 ≡ true) (Permᴰ.symm same) low).1,
    up,
  ),
  Permᴰ.trans (Permᴰ.cons refl perm) same,
)

length-Permᴰ : {xs ys : List Entry} → Permᴰ xs ys → length xs ≡ length ys
length-Permᴰ Permᴰ.nil = refl
length-Permᴰ (Permᴰ.cons e p) = ap suc (length-Permᴰ p)
length-Permᴰ (Permᴰ.swap e f) = refl
length-Permᴰ (Permᴰ.trans p q) = length-Permᴰ p ∙ length-Permᴰ q

no_heads :
    (rs : List (List Entry))
    → ((i : ℕ) (e : Entry) (r : List Entry) → get_elem? rs i ≡ some (e ∷ r) → ⊥)
    → concat rs ≡ []
no_heads [] h = refl
no_heads ([] ∷ rs) h = no_heads rs (λ i. h (suc i))
no_heads ((e ∷ r) ∷ rs) h = absurd (h 0 e r refl)

next_empty :
    (heap : List MergeIterItem) (rs : List (List Entry))
    → pop heap ≡ none
    → next (state heap rs) ≡ none
unfolding next
next_empty heap rs e = rw (e, next)

nothing_left :
    (heap : List MergeIterItem) (rs : List (List Entry))
    → IsMerging heap rs
    → pop heap ≡ none
    → Permᴰ [] (remaining heap rs)
nothing_left heap rs v e =
    let empty : heap ≡ [] = subst (PopsPerm heap) e (pop-Permᴰ heap) in
    let ended : concat rs ≡ [] =
      no_heads rs
        (λ i f r h. not-nil (subst (Memᴰ (v.heads i f r h).0) empty (v.heads i f r h).1)) in
    subst (Permᴰ [])
      (sym (ap (λ (l : List MergeIterItem). map entry_of l ++ concat rs) empty ∙ ended)) Permᴰ.nil
  where
    not-nil : {y : MergeIterItem} → Memᴰ y [] → ⊥
    not-nil m = elim m [ ]

merged-Merges :
    (fuel : ℕ) (heap : List MergeIterItem) (rs : List (List Entry))
    → IsMerging heap rs
    → length (remaining heap rs) < fuel
    → Merges (remaining heap rs) (merged fuel (state heap rs))
unfolding merged
merged-Merges zero heap rs v lt = absurd (omega arith)
merged-Merges (suc fuel) heap rs v lt = elim (Option-cases (pop heap)) [
  | inl e ↦ rw (next_empty heap rs e, merged) ([], refl, tt, nothing_left heap rs v e)
  | inr ((x, rest), e) ↦ elim (Option-cases (get_elem? rs x.iter_idx)) [
    | inl q ↦
        rw (next-none heap rest rs x e q, merged)
          (one_more (entry_of x) (remaining heap rs) (remaining rest rs) _
            (popped-AtLeast heap rest rs x e v) (end-remaining heap rest rs x e)
            (merged-Merges fuel rest rs (end-IsMerging heap rest rs x e v (λ f s h. cc))
              (omega (arith, length-Permᴰ (end-remaining heap rest rs x e)))))
    | inr ([], q) ↦
        rw (next-end heap rest rs x e q, merged)
          (one_more (entry_of x) (remaining heap rs) (remaining rest rs) _
            (popped-AtLeast heap rest rs x e v) (end-remaining heap rest rs x e)
            (merged-Merges fuel rest rs (end-IsMerging heap rest rs x e v (λ f s h. cc))
              (omega (arith, length-Permᴰ (end-remaining heap rest rs x e)))))
    | inr (f ∷ s, q) ↦
        rw (next-more heap rest rs x e f s q, merged)
          (one_more (entry_of x) (remaining heap rs)
            (remaining (item f x.iter_idx ∷ rest) (set rs x.iter_idx s)) _
            (popped-AtLeast heap rest rs x e v) (more-remaining heap rest rs x e f s q)
            (merged-Merges fuel (item f x.iter_idx ∷ rest) (set rs x.iter_idx s)
              (more-IsMerging heap rest rs x e v f s q)
              (omega (arith, length-Permᴰ (more-remaining heap rest rs x e f s q)))))
  ]
]

-- The heap and the runs that `new` starts with.
first_heads : ℕ → List (List Entry) → List MergeIterItem
first_heads i [] = []
first_heads i ([] ∷ rs) = first_heads (i + 1) rs
first_heads i ((e ∷ r) ∷ rs) = item e i ∷ first_heads (i + 1) rs

first_rests : List (List Entry) → List (List Entry)
first_rests [] = []
first_rests ([] ∷ rs) = [] ∷ first_rests rs
first_rests ((e ∷ r) ∷ rs) = r ∷ first_rests rs

populate_lem :
    (i : ℕ) (rs : List (List Entry))
    → populate i (ok_runs rs) ≡ ok (first_heads i rs, ok_runs (first_rests rs))
unfolding populate first_heads first_rests
populate_lem i [] = refl
populate_lem i ([] ∷ rs) = rw (populate_lem (i + 1) rs)
populate_lem i (((key, value) ∷ r) ∷ rs) = rw (populate_lem (i + 1) rs)

first-Permᴰ :
    (i : ℕ) (rs : List (List Entry))
    → Permᴰ (remaining (first_heads i rs) (first_rests rs)) (concat rs)
unfolding first_heads first_rests
first-Permᴰ i [] = Permᴰ.nil
first-Permᴰ i ([] ∷ rs) = first-Permᴰ (i + 1) rs
first-Permᴰ i ((e ∷ r) ∷ rs) = Permᴰ.cons refl (
    Permᴰ.trans (swap_front (map entry_of (first_heads (i + 1) rs)) r (concat (first_rests rs)))
      (Permᴰ.append_left r (first-Permᴰ (i + 1) rs)))
  where
    swap_front : (xs ys zs : List Entry) → Permᴰ (xs ++ (ys ++ zs)) (ys ++ (xs ++ zs))
    swap_front xs ys zs = subst (Permᴰ (xs ++ (ys ++ zs))) (append_assoc ys xs zs) (
        subst (λ (l : List Entry). Permᴰ l ((ys ++ xs) ++ zs)) (append_assoc xs ys zs)
          (Permᴰ.append_right zs (Permᴰ.append_comm xs ys)))

first_rests-IsAscending :
    (rs : List (List Entry)) → All IsAscending rs → All IsAscending (first_rests rs)
unfolding first_rests
first_rests-IsAscending [] h = tt
first_rests-IsAscending ([] ∷ rs) (a, h) = (tt, first_rests-IsAscending rs h)
first_rests-IsAscending ((e ∷ r) ∷ rs) ((b, a), h) = (a, first_rests-IsAscending rs h)

first_head :
    (k : ℕ) (rs : List (List Entry)) (i : ℕ) (e : Entry) (r : List Entry)
    → All IsAscending rs
    → get_elem? (first_rests rs) i ≡ some (e ∷ r)
    → (y : MergeIterItem) × Memᴰ y (first_heads k rs)
      × (y.iter_idx ≡ k + i)
      × (key_le y.key e.0 ≡ true)
unfolding first_heads first_rests
first_head k [] i e r a h = absurd (cc h)
first_head k ([] ∷ rs) zero e r a h = absurd (cc h)
first_head k ([] ∷ rs) (suc i) e r (b, a) h =
    let (y, mem, at, le) = first_head (k + 1) rs i e r a h in (y, mem, omega arith, le)
first_head k ((f ∷ s) ∷ rs) zero e r ((low, up), a) h =
    let same : s ≡ e ∷ r = ap (λ (o : Option (List Entry)). elim o [ some z ↦ z | none ↦ s ]) h in
    (item f k, Memᴰ.head refl, omega arith, (subst (AtLeast f.0) same low).0)
first_head k ((f ∷ s) ∷ rs) (suc i) e r (b, a) h =
    let (y, mem, at, le) = first_head (k + 1) rs i e r a h in (y, Memᴰ.tail mem, omega arith, le)

merge_lem :
    (rs : List (List Entry))
    → merge (ok_runs rs)
      ≡ merged (suc (length (concat (ok_runs rs)))) (state (first_heads 0 rs) (first_rests rs))
unfolding merge new
merge_lem rs = rw (populate_lem 0 rs, merge)

-- Merging runs that can be read and are each ascending by key gives, with the rounds that `merge`
-- allows, a list that is ascending by key and holds exactly the entries of all the runs.
pub merge_sorts :
    (rs : List (List Entry))
    → All IsAscending rs
    → (out : List Entry) × (merge (ok_runs rs) ≡ some (ok out))
      × IsAscending out
      × Permᴰ out (concat rs)
unfolding merge new
merge_sorts rs a =
    let v : IsMerging (first_heads 0 rs) (first_rests rs) = record {
      runs = first_rests-IsAscending rs a;
      heads =
          λ i e r h. let (y, mem, at, le) = first_head 0 rs i e r a h in (y, mem, omega arith, le);
    } in
    let (out, q, up, perm) =
      merged-Merges (suc (length (concat (ok_runs rs)))) (first_heads 0 rs) (first_rests rs) v
        (omega (arith, length-ok_runs rs, length-Permᴰ (first-Permᴰ 0 rs))) in
    (out, merge_lem rs ∙ q, up, Permᴰ.trans perm (first-Permᴰ 0 rs))
  where
    length-ok_run : (r : List Entry) → length (ok_run r) ≡ length r
    length-ok_run [] = refl
    length-ok_run (e ∷ r) = ap suc (length-ok_run r)

    length-ok_runs : (rs : List (List Entry)) → length (concat (ok_runs rs)) ≡ length (concat rs)
    length-ok_runs [] = refl
    length-ok_runs (r ∷ rs) = omega (
      arith,
      length-append (ok_run r) (concat (ok_runs rs)),
      length-append r (concat rs),
      length-ok_run r,
      length-ok_runs rs,
    )
