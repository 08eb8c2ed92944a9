-- ===== src/Compact/Merge/Invariant.antt =====
-- What every step of a merge keeps: the runs are ascending, and the heap has their heads.
use easy_lsm.Base.{
  ℕ, zero, suc, List, [], ◌∷◌, map, concat, get_elem?, set, get_elem?-set, ◌≡◌, refl, sym, ap, ◌∙◌,
  subst, Option, none, some, Bool-cases, inl, inr, All, All_at, All-append, Memᴰ-Permᴰ, ◌==◌,
  ==_iff, true, false,
}
use mathlib.Core.List.{Memᴰ}
use mathlib.Core.List.Permᴰ
use easy_lsm.Key.{Key, key_le}
use easy_lsm.Key.Order.{key_le_trans}
use easy_lsm.Entry.{Entry}
use easy_lsm.Compact.Merge.{MergeIterItem, pop}
use easy_lsm.Compact.Merge.Smallest.{IsSmallest, PopsSmallest, pop-PopsSmallest}
use easy_lsm.Compact.Merge.Runs.{item, entry_of, remaining, pop-Permᴰ, PopsPerm}

abbrev pub AtLeast : Key → List Entry → Type 0
AtLeast k es = All (λ (f : Entry). key_le k f.0 ≡ true) es

-- Ascending by key, equal keys allowed.
abbrev pub IsAscending : List Entry → Type 0
IsAscending [] = Unit {0}
IsAscending (e ∷ es) = AtLeast e.0 es × IsAscending es

pub AtLeast-lower : (a b : Key) (es : List Entry) → key_le a b ≡ true → AtLeast b es → AtLeast a es
AtLeast-lower a b [] p h = tt
AtLeast-lower a b (e ∷ es) p (q, h) = (key_le_trans a b e.0 p q, AtLeast-lower a b es p h)

-- Every run that is not at its end has an item in the heap whose key is at most that of its first
-- entry.
abbrev pub Heads : List MergeIterItem → List (List Entry) → Type 0
Heads heap rs =
    (i : ℕ) (e : Entry) (r : List Entry)
    → get_elem? rs i ≡ some (e ∷ r)
    → (y : MergeIterItem) × Memᴰ y heap × (y.iter_idx ≡ i) × (key_le y.key e.0 ≡ true)

pub record IsMerging (heap : List MergeIterItem) (rs : List (List Entry)) : Type 0 where
  pub runs : All IsAscending rs
  pub heads : Heads heap rs

AtLeast-heap :
    (k : Key) (heap : List MergeIterItem) → IsSmallest k heap → AtLeast k (map entry_of heap)
AtLeast-heap k [] h = tt
AtLeast-heap k (y ∷ ys) (p, h) = (p, AtLeast-heap k ys h)

AtLeast-concat :
    (k : Key) (rs : List (List Entry))
    → All IsAscending rs
    → ((i : ℕ) (e : Entry) (r : List Entry) → get_elem? rs i ≡ some (e ∷ r) → key_le k e.0 ≡ true)
    → AtLeast k (concat rs)
AtLeast-concat k [] a h = tt
AtLeast-concat k ([] ∷ rs) (a, as') h = AtLeast-concat k rs as' (λ i. h (suc i))
AtLeast-concat k ((e ∷ r) ∷ rs) ((b, a), as') h = (
  h 0 e r refl,
  All-append (λ (f : Entry). key_le k f.0 ≡ true) r (concat rs)
      (AtLeast-lower k e.0 r (h 0 e r refl) b) (AtLeast-concat k rs as' (λ i. h (suc i))),
)

All-set :
    (rs : List (List Entry)) (i : ℕ) (r : List Entry)
    → IsAscending r
    → All IsAscending rs
    → All IsAscending (set rs i r)
All-set [] i r h a = tt
All-set (s ∷ rs) zero r h (b, a) = (h, a)
All-set (s ∷ rs) (suc i) r h (b, a) = (b, All-set rs i r h a)

All_get :
    (rs : List (List Entry)) (i : ℕ) (r : List Entry)
    → get_elem? rs i ≡ some r
    → All IsAscending rs
    → IsAscending r
All_get [] i r h a = absurd (cc h)
All_get (s ∷ rs) zero r h (b, a) =
    subst IsAscending (ap (λ (o : Option (List Entry)). elim o [ some x ↦ x | none ↦ s ]) h) b
All_get (s ∷ rs) (suc i) r h (b, a) = All_get rs i r h a

module _ (heap rest : List MergeIterItem) (rs : List (List Entry)) (x : MergeIterItem)
    (popped : pop heap ≡ some (x, rest)) (v : IsMerging heap rs) where
  smallest : IsSmallest x.key heap
  smallest = subst (PopsSmallest heap) popped (pop-PopsSmallest heap)

  -- The popped key is a least one of all that is to come.
  pub popped-AtLeast : AtLeast x.key (remaining heap rs)
  popped-AtLeast =
      All-append (λ (f : Entry). key_le x.key f.0 ≡ true) (map entry_of heap) (concat rs)
        (AtLeast-heap x.key heap smallest)
        (AtLeast-concat x.key rs v.runs (λ i e r h.
          let (y, mem, at, le) = v.heads i e r h in
          key_le_trans x.key y.key e.0
            (All_at (λ (z : MergeIterItem). key_le x.key z.key ≡ true) mem smallest) le))

  -- A head of another run is still in the heap.
  other_head : (y : MergeIterItem) → Memᴰ y heap → (x.iter_idx == y.iter_idx) ≡ false → Memᴰ y rest
  other_head y mem ne =
      elim (Memᴰ-Permᴰ (Permᴰ.symm (subst (PopsPerm heap) popped (pop-Permᴰ heap))) mem) [
        | Memᴰ.head e ↦ absurd (
            cc (
              (==_iff x.iter_idx y.iter_idx).1 (ap (λ (z : MergeIterItem). z.iter_idx) (sym e)),
              ne,
            ))
        | Memᴰ.tail t ↦ t
      ]

  -- The popped item's run is at its end, or is not there.
  pub end-IsMerging :
      ((e : Entry) (r : List Entry) → get_elem? rs x.iter_idx ≡ some (e ∷ r) → ⊥)
      → IsMerging rest rs
  end-IsMerging done = record {
    runs = v.runs;
    heads = λ i e r h.
        let (y, mem, at, le) = v.heads i e r h in
        (
          y,
          other_head y mem (elim (Bool-cases (x.iter_idx == y.iter_idx)) [
            | inr ne ↦ ne
            | inl eq ↦
                absurd (done e r (ap (get_elem? rs) ((==_iff x.iter_idx y.iter_idx).0 eq ∙ at) ∙ h))
          ]),
          at,
          le,
        );
  }

  pub more-IsMerging :
      (e : Entry) (r : List Entry)
      → get_elem? rs x.iter_idx ≡ some (e ∷ r)
      → IsMerging (item e x.iter_idx ∷ rest) (set rs x.iter_idx r)
  more-IsMerging e r q = record {
    runs = All-set rs x.iter_idx r run.1 v.runs;
    heads = λ i f s h. elim (Bool-cases (x.iter_idx == i)) [
      | inl eq ↦ (
        item e x.iter_idx,
        Memᴰ.head refl,
        (==_iff x.iter_idx i).0 eq,
        first_le f s (rw eq at (sym (get_elem?-set rs x.iter_idx i (e ∷ r) r q) ∙ h)),
      )
      | inr ne ↦
          let (y, mem, at, le) =
            v.heads i f s (rw ne at (sym (get_elem?-set rs x.iter_idx i (e ∷ r) r q) ∙ h)) in
          (y, Memᴰ.tail (other_head y mem (rw at ne)), at, le)
    ];
  }
    where
      run : IsAscending (e ∷ r)
      run = All_get rs x.iter_idx (e ∷ r) q v.runs

      first_le :
          (f : Entry) (s : List Entry)
          → ◌≡◌ {A = Option (List Entry)} (some r) (some (f ∷ s))
          → key_le e.0 f.0 ≡ true
      first_le f s h =
          (subst (AtLeast e.0)
            (ap (λ (o : Option (List Entry)). elim o [ some z ↦ z | none ↦ r ]) h) run.0).0
