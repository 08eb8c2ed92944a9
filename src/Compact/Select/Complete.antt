-- ===== src/Compact/Select/Complete.antt =====
-- What is selected for a compaction is complete: no file of the next level that meets one of the
-- source files is left out.
use easy_lsm.Base.{
  ℕ, ◌+◌, List, [], ◌∷◌, Bool, true, false, ◌&&◌, ◌||◌, Option, none, some, ◌≡◌, refl, sym, ap, ◌∙◌,
  subst, Bool-cases, inl, inr, ◌⊎◌, arith, All,
}
use mathlib.Core.List.{Memᴰ}
use mathlib.Core.List.Memᴰ.{head, tail}
use easy_lsm.Key.{Key, key_le, key_lt}
use easy_lsm.Key.Order.{
  key_le_self, lt_of_not-key_le, key_le_of_not-lt, key_le_of_lt, key_lt-trans_le, key_le-trans_lt,
  key_le_trans,
}
use easy_lsm.Manifest.{FileMetadata, Manifest}
use easy_lsm.Compact.Select.{
  Selection, min_key, max_key, overlapping, files_at, select_l0, select_ln,
}

-- The ranges of two files do not meet.
abbrev pub is_apart : FileMetadata → FileMetadata → Bool
is_apart f g = key_lt f.max_key g.min_key || key_lt g.max_key f.min_key

-- No source file lies below `lo` or above `hi`.
abbrev Bounded : Key → Key → List FileMetadata → Type 0
Bounded lo hi fs =
    All (λ (f : FileMetadata). (key_le lo f.min_key ≡ true) × (key_le f.max_key hi ≡ true)) fs

Bounded-wider :
    (lo lo' hi hi' : Key) (fs : List FileMetadata)
    → key_le lo' lo ≡ true
    → key_le hi hi' ≡ true
    → Bounded lo hi fs
    → Bounded lo' hi' fs
Bounded-wider lo lo' hi hi' [] p q h = tt
Bounded-wider lo lo' hi hi' (f ∷ fs) p q ((a, b), h) = (
  (key_le_trans lo' lo f.min_key p a, key_le_trans f.max_key hi hi' b q),
  Bounded-wider lo lo' hi hi' fs p q h,
)

min_key_step :
    (f g : FileMetadata) (gs : List FileMetadata)
    → (key_le (min_key f (g ∷ gs)) f.min_key ≡ true)
      × (key_le (min_key f (g ∷ gs)) (min_key g gs) ≡ true)
unfolding min_key
min_key_step f g gs = elim (Bool-cases (key_le f.min_key (min_key g gs))) [
  | inl le ↦ rw le (key_le_self f.min_key, le)
  | inr gt ↦ rw gt (
    key_le_of_lt (min_key g gs) f.min_key (lt_of_not-key_le f.min_key (min_key g gs) gt),
    key_le_self (min_key g gs),
  )
]

max_key_step :
    (f g : FileMetadata) (gs : List FileMetadata)
    → (key_le f.max_key (max_key f (g ∷ gs)) ≡ true)
      × (key_le (max_key g gs) (max_key f (g ∷ gs)) ≡ true)
unfolding max_key
max_key_step f g gs = elim (Bool-cases (key_lt (max_key g gs) f.max_key)) [
  | inl lt ↦ rw lt (key_le_self f.max_key, key_le_of_lt (max_key g gs) f.max_key lt)
  | inr ge ↦ rw ge (key_le_of_not-lt (max_key g gs) f.max_key ge, key_le_self (max_key g gs))
]

range-Bounded :
    (f : FileMetadata) (fs : List FileMetadata) → Bounded (min_key f fs) (max_key f fs) (f ∷ fs)
unfolding min_key max_key
range-Bounded f [] = ((key_le_self f.min_key, key_le_self f.max_key), tt)
range-Bounded f (g ∷ gs) =
    let (a, b) = min_key_step f g gs in
    let (c, d) = max_key_step f g gs in
    (
      (a, c),
      Bounded-wider (min_key g gs) (min_key f (g ∷ gs)) (max_key g gs) (max_key f (g ∷ gs)) (g ∷ gs)
          b d (range-Bounded g gs),
    )

outside-is_apart :
    (lo hi : Key) (g : FileMetadata) (fs : List FileMetadata)
    → Bounded lo hi fs
    → (key_le lo g.max_key && key_le g.min_key hi) ≡ false
    → All (λ (f : FileMetadata). is_apart f g ≡ true) fs
outside-is_apart lo hi g [] b h = tt
outside-is_apart lo hi g (f ∷ fs) ((p, q), b) h = (apart, outside-is_apart lo hi g fs b h)
  where
    apart : is_apart f g ≡ true
    apart = elim (Bool-cases (key_le lo g.max_key)) [
      | inr below ↦
          ground
            (arith, key_lt-trans_le g.max_key lo f.min_key (lt_of_not-key_le lo g.max_key below) p)
      | inl e ↦ elim (Bool-cases (key_le g.min_key hi)) [
        | inr above ↦
            ground (
              arith,
              key_le-trans_lt f.max_key hi g.min_key q (lt_of_not-key_le g.min_key hi above),
            )
        | inl e' ↦ ground (arith, e, e')
      ]
    ]

overlapping-or-apart :
    (lo hi : Key) (fs gs : List FileMetadata) (g : FileMetadata)
    → Bounded lo hi fs
    → Memᴰ g gs
    → Memᴰ g (overlapping lo hi gs) ⊎ All (λ (f : FileMetadata). is_apart f g ≡ true) fs
unfolding overlapping
overlapping-or-apart lo hi fs [] g b mem = elim mem [ ]
overlapping-or-apart lo hi fs (x ∷ xs) g b mem =
    elim (Bool-cases (key_le lo x.max_key && key_le x.min_key hi)) [
      | inl meets ↦ rw meets (elim mem [
        | head e ↦ inl (head e)
        | tail t ↦ elim (overlapping-or-apart lo hi fs xs g b t) [
          | inl found ↦ inl (tail found)
          | inr apart ↦ inr apart
        ]
      ])
      | inr misses ↦ rw misses (elim mem [
        | head e ↦ inr (
            subst (λ (y : FileMetadata). All (λ (f : FileMetadata). is_apart f y ≡ true) fs) (sym e)
              (outside-is_apart lo hi x fs b misses))
        | tail t ↦ overlapping-or-apart lo hi fs xs g b t
      ])
    ]

selected : {o : Option Selection} {s x : Selection} → o ≡ some s → o ≡ some x → x ≡ s
selected {o} {s} {x} h k =
    ap (λ (p : Option Selection). elim p [ some y ↦ y | none ↦ s ]) (sym k ∙ h)

-- What `compact_l0` selects is complete: a file of level 1 is selected, or it meets no file of
-- level 0.
pub select_l0-is_complete :
    (m : Manifest) (s : Selection) (g : FileMetadata)
    → select_l0 m ≡ some s
    → Memᴰ g (files_at 1 m.levels)
    → Memᴰ g s.target ⊎ All (λ (f : FileMetadata). is_apart f g ≡ true) s.source
unfolding select_l0
select_l0-is_complete m s g h mem = of_files (files_at 0 m.levels) refl
  where
    of_files :
        (fs : List FileMetadata)
        → files_at 0 m.levels ≡ fs
        → Memᴰ g s.target ⊎ All (λ (f : FileMetadata). is_apart f g ≡ true) s.source
    of_files [] e = absurd (cc (rw (e, select_l0) at h))
    of_files (f ∷ fs) e =
        let picked : select_l0 m
            ≡ some (record {
              source = f ∷ fs;
              target = overlapping (min_key f fs) (max_key f fs) (files_at 1 m.levels);
            }) =
          rw (e, select_l0) in
        subst
          (λ (x : Selection).
            Memᴰ g x.target ⊎ All (λ (y : FileMetadata). is_apart y g ≡ true) x.source)
          (selected h picked)
          (overlapping-or-apart (min_key f fs) (max_key f fs) (f ∷ fs) (files_at 1 m.levels) g
            (range-Bounded f fs) mem)

-- What `compact_ln` selects is complete: a file of the next level is selected, or it does not meet
-- the file that is merged into it.
select_ln-is_complete :
    (n : ℕ) (m : Manifest) (s : Selection) (g : FileMetadata)
    → select_ln n m ≡ some s
    → Memᴰ g (files_at (n + 1) m.levels)
    → Memᴰ g s.target ⊎ All (λ (f : FileMetadata). is_apart f g ≡ true) s.source
unfolding select_ln
select_ln-is_complete n m s g h mem = of_files (files_at n m.levels) refl
  where
    of_files :
        (fs : List FileMetadata)
        → files_at n m.levels ≡ fs
        → Memᴰ g s.target ⊎ All (λ (f : FileMetadata). is_apart f g ≡ true) s.source
    of_files [] e = absurd (cc (rw (e, select_ln) at h))
    of_files (f ∷ fs) e =
        let picked : select_ln n m
            ≡ some (record {
              source = f ∷ [];
              target = overlapping f.min_key f.max_key (files_at (n + 1) m.levels);
            }) =
          rw (e, select_ln) in
        subst
          (λ (x : Selection).
            Memᴰ g x.target ⊎ All (λ (y : FileMetadata). is_apart y g ≡ true) x.source)
          (selected h picked)
          (overlapping-or-apart f.min_key f.max_key (f ∷ []) (files_at (n + 1) m.levels) g
            ((key_le_self f.min_key, key_le_self f.max_key), tt) mem)
