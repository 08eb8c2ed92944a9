-- ===== src/Directory.antt =====
-- The database directory. A file name is its kind and number: `{:05}.wal` and its like, which
-- `file_stem` and `parse` take apart again.
use easy_lsm.Base.{
  ℕ, ◌<◌, List, [], ◌∷◌, ◌≡◌, refl, sym, subst, arith, Bool, true, false, ◌==◌, if◌then◌else◌,
  Option, none, some, Bool-cases, inl, inr,
}
use easy_lsm.Codec.{Bytes}

pub data FileName : Type 0 where
  mf mf_tmp wal sst other : ℕ → FileName

unfoldable pub same : FileName → FileName → Bool
same (mf a) (mf b) = a == b
same (mf_tmp a) (mf_tmp b) = a == b
same (wal a) (wal b) = a == b
same (sst a) (sst b) = a == b
same (other a) (other b) = a == b
same _ _ = false

pub same_self : (n : FileName) → same n n ≡ true
unfolding same
same_self (mf a) = ground arith
same_self (mf_tmp a) = ground arith
same_self (wal a) = ground arith
same_self (sst a) = ground arith
same_self (other a) = ground arith

pub same_eq : (a b : FileName) → same a b ≡ true → a ≡ b
unfolding same
same_eq (mf a) (mf b) h = ground arith
same_eq (mf_tmp a) (mf_tmp b) h = ground arith
same_eq (wal a) (wal b) h = ground arith
same_eq (sst a) (sst b) h = ground arith
same_eq (other a) (other b) h = ground arith
same_eq _ _ h = absurd (cc h)

abbrev pub Directory : Type 0
Directory = List (FileName × Bytes)

unfoldable pub read : FileName → Directory → Option Bytes
unfolding same
read n [] = none
read n ((m, bytes) ∷ d) = if same m n then some bytes else read n d

unfoldable pub remove : FileName → Directory → Directory
unfolding same
remove n [] = []
remove n ((m, bytes) ∷ d) = let rest = remove n d in if same m n then rest else (m, bytes) ∷ rest

-- `File::create` and a write of all the bytes.
unfoldable pub put : FileName → Bytes → Directory → Directory
put n bytes d = (n, bytes) ∷ remove n d

pub read-put : (n : FileName) (bytes : Bytes) (d : Directory) → read n (put n bytes d) ≡ some bytes
unfolding put read
read-put n bytes d = rw (same_self n)

-- Removing one file leaves the others.
pub read-remove :
    (n x : FileName) (d : Directory) → same x n ≡ false → read n (remove x d) ≡ read n d
unfolding remove read
read-remove n x [] h = refl
read-remove n x ((y, file) ∷ d) h = elim (Bool-cases (same y x)) [
  | inl e ↦
      let apart : same y n ≡ false =
        subst (λ (z : FileName). same z n ≡ false) (sym (same_eq y x e)) h in
      rw e (rw apart (read-remove n x d h))
  | inr e ↦ rw e (elim (Bool-cases (same y n)) [
    | inl t ↦ rw (t, read)
    | inr t ↦ rw (t, read) (read-remove n x d h)
  ])
]

-- Writing a table leaves those with smaller numbers.
pub read-put_newer :
    (m n : ℕ) (file : Bytes) (d : Directory)
    → m < n
    → read (sst m) (put (sst n) file d) ≡ read (sst m) d
unfolding read put same
read-put_newer m n file d h =
    let apart : (n == m) ≡ false = grind arith in rw apart (read-remove (sst m) (sst n) d apart)
