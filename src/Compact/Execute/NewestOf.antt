-- ===== src/Compact/Execute/NewestOf.antt =====
-- The newest version of a key in the merged run.
use easy_lsm.Base.{
  ◌≤◌, ◌≡◌, refl, sym, ◌∙◌, ap, arith, List, [], ◌∷◌, ◌++◌, All_at, true, false, Option, none, some,
  inl, inr, Bool-cases, Memᴰ-Permᴰ,
}
use mathlib.Core.List.{Memᴰ, Permᴰ}
use mathlib.Core.List.Permᴰ
use easy_lsm.Codec.{Bytes}
use easy_lsm.Key.{Key, cmp, eq_bytes, key_le}
use easy_lsm.Key.Order.{cmp-eq}
use easy_lsm.Entry.{Entry, first_of}
use easy_lsm.Entry.Newest.{eq_bytes-eq, lsn-lt, Ordering-cases}
use easy_lsm.Compact.Merge.Invariant.{IsAscending}

-- The newest version of a key among entries in any order: one of the highest LSN, none where the key
-- has no entry.
abbrev pub IsNewestOf : Bytes → Option Entry → List Entry → Type 0
IsNewestOf k none es = (f : Entry) → Memᴰ f es → eq_bytes f.0.bytes k ≡ false
IsNewestOf k (some e) es =
    (e.0.bytes ≡ k)
    × Memᴰ e es
    × ((f : Entry) → Memᴰ f es → eq_bytes f.0.bytes k ≡ true → f.0.lsn ≤ e.0.lsn)

pub IsNewestOf-Permᴰ :
    (k : Bytes) (o : Option Entry) (es fs : List Entry)
    → Permᴰ es fs
    → IsNewestOf k o es
    → IsNewestOf k o fs
IsNewestOf-Permᴰ k none es fs p h = λ f m. h f (Memᴰ-Permᴰ (Permᴰ.symm p) m)
IsNewestOf-Permᴰ k (some e) es fs p (same, mem, top) =
    (same, Memᴰ-Permᴰ p mem, λ f m q. top f (Memᴰ-Permᴰ (Permᴰ.symm p) m) q)

lsn-le : (a b : Key) → key_le a b ≡ true → a.bytes ≡ b.bytes → b.lsn ≤ a.lsn
unfolding key_le
lsn-le a b h same = elim (Ordering-cases (cmp a b)) [
  | inl lt ↦ omega (arith, lsn-lt a b lt same)
  | inr (inl eq) ↦ omega (arith, ap (λ (x : Key). x.lsn) (cmp-eq a b eq))
  | inr (inr gt) ↦ absurd (cc (rw (gt, key_le) at h))
]

pub first_of-append :
    (k : Bytes) (es fs : List Entry)
    → first_of k (es ++ fs) ≡ elim (first_of k es) [ some e ↦ some e | none ↦ first_of k fs ]
first_of-append k [] fs = refl
first_of-append k (e ∷ es) fs = elim (Bool-cases (eq_bytes e.0.bytes k)) [
  | inl same ↦ rw same
  | inr other ↦ rw other (first_of-append k es fs)
]

-- One more entry in front, of another key.
IsNewestOf-cons :
    (k : Bytes) (e : Entry) (o : Option Entry) (es : List Entry)
    → eq_bytes e.0.bytes k ≡ false
    → IsNewestOf k o es
    → IsNewestOf k o (e ∷ es)
IsNewestOf-cons k e none es other h = all
  where
    all : (f : Entry) → Memᴰ f (e ∷ es) → eq_bytes f.0.bytes k ≡ false
    all f (Memᴰ.head p) = ap (λ (x : Entry). eq_bytes x.0.bytes k) p ∙ other
    all f (Memᴰ.tail m) = h f m
IsNewestOf-cons k e (some g) es other (same, mem, top) = (same, Memᴰ.tail mem, all)
  where
    all : (f : Entry) → Memᴰ f (e ∷ es) → eq_bytes f.0.bytes k ≡ true → f.0.lsn ≤ g.0.lsn
    all f (Memᴰ.head p) q = absurd (cc (sym q ∙ ap (λ (x : Entry). eq_bytes x.0.bytes k) p ∙ other))
    all f (Memᴰ.tail m) q = top f m q

-- In a run that ascends by key the first entry of a key is its newest version.
pub first_of-IsNewestOf :
    (k : Bytes) (es : List Entry) → IsAscending es → IsNewestOf k (first_of k es) es
first_of-IsNewestOf k [] h = λ f m. absurd (not-nil m)
  where
    not-nil : {f : Entry} → Memᴰ f [] → ⊥
    not-nil m = elim m [ ]
first_of-IsNewestOf k (e ∷ es) (low, h) = elim (Bool-cases (eq_bytes e.0.bytes k)) [
  | inl same ↦
      rw same (eq_bytes-eq e.0.bytes k same, Memᴰ.head refl, top (eq_bytes-eq e.0.bytes k same))
  | inr other ↦ rw other (IsNewestOf-cons k e (first_of k es) es other (first_of-IsNewestOf k es h))
]
  where
    top :
        e.0.bytes ≡ k
        → (f : Entry) → Memᴰ f (e ∷ es)
        → eq_bytes f.0.bytes k ≡ true
        → f.0.lsn ≤ e.0.lsn
    top same f (Memᴰ.head p) q = omega (arith, ap (λ (x : Entry). x.0.lsn) p)
    top same f (Memᴰ.tail m) q =
        lsn-le e.0 f.0 (All_at (λ (x : Entry). key_le e.0 x.0 ≡ true) m low)
          (same ∙ sym (eq_bytes-eq f.0.bytes k q))
