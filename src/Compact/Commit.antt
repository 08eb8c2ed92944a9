-- ===== src/Compact/Commit.antt =====
-- compact.rs, the changes to the manifest that `flush_memtables` and `execute_compaction` commit.
pub mod Moves
use easy_lsm.Base.{
  ℕ, zero, suc, ◌+◌, List, [], ◌∷◌, ◌++◌, length, take, drop, Bool, true, false, ◌==◌, ◌&&◌, ◌||◌,
  if◌then◌else◌, ◌≡◌, refl, Bool-cases, inl, inr, All, arith, ◌∙◌,
}
use easy_lsm.Error.{Result, ok, err, data_corrupted}
use easy_lsm.Key.{Key, key_le}
use easy_lsm.Key.Order.{key_le_trans, lt_of_not-key_le, key_le_of_lt}
use easy_lsm.Manifest.{FileMetadata, Level, Manifest}
use easy_lsm.Compact.Select.{files_at}

abbrev pub same_ids : List ℕ → List ℕ → Bool
same_ids [] [] = true
same_ids (a ∷ as') (b ∷ bs) = a == b && same_ids as' bs
same_ids _ _ = false

abbrev pub push_files : List FileMetadata → List Level → List Level
push_files new_sstables [] = record { files = new_sstables } ∷ []
push_files new_sstables (l ∷ ls) = record { files = l.files ++ new_sstables } ∷ ls

-- The closure of `flush_memtables`: the new tables go to level 0, and the flushed logs, which must
-- be the oldest ones, go. Levels stay as they are where there is no table.
unfoldable pub flush_commit : List FileMetadata → List ℕ → Manifest → Result Manifest
flush_commit new_sstables wals_to_delete m =
    let pushed : List Level = elim new_sstables [
      | [] ↦ m.levels
      | f ∷ fs ↦ push_files (f ∷ fs) m.levels
    ] in
    if same_ids (take (length wals_to_delete) m.wals) wals_to_delete
    then ok (record m { levels = pushed; wals = drop (length wals_to_delete) m.wals })
    else err (data_corrupted "Manifest mismatch during flush commit")

-- `iter().any(|rem| rem.file_id == f.file_id)`
abbrev pub is_listed : ℕ → List FileMetadata → Bool
is_listed id [] = false
is_listed id (f ∷ fs) = f.file_id == id || is_listed id fs

-- `retain` of the files that are not to be removed.
unfoldable pub retain : List FileMetadata → List FileMetadata → List FileMetadata
retain gone [] = []
retain gone (f ∷ fs) =
    let rest = retain gone fs in if is_listed f.file_id gone then rest else f ∷ rest

-- `sort_by` of the smallest keys, which is stable.
unfoldable pub insert_file : FileMetadata → List FileMetadata → List FileMetadata
insert_file f [] = f ∷ []
insert_file f (g ∷ gs) =
    let rest = insert_file f gs in if key_le f.min_key g.min_key then f ∷ g ∷ gs else g ∷ rest

unfoldable pub sort_files : List FileMetadata → List FileMetadata
unfolding insert_file
sort_files [] = []
sort_files (f ∷ fs) = insert_file f (sort_files fs)

-- The levels with the one at an index changed; levels up to it are made where they are missing.
unfoldable pub change_at : ℕ → (List FileMetadata → List FileMetadata) → List Level → List Level
change_at zero f [] = record { files = f [] } ∷ []
change_at zero f (l ∷ ls) = record { files = f l.files } ∷ ls
change_at (suc n) f [] = record { files = [] } ∷ change_at n f []
change_at (suc n) f (l ∷ ls) = l ∷ change_at n f ls

-- The closure of `execute_compaction`.
unfoldable pub compact_commit :
    ℕ → List FileMetadata → List FileMetadata → List FileMetadata → Manifest → Manifest
unfolding change_at retain sort_files
compact_commit source new_files gone_source gone_target m =
    let removed = change_at source (retain gone_source) m.levels in
    record m {
      levels =
          change_at (source + 1) (λ files. sort_files (retain gone_target files ++ new_files))
            removed;
    }

-- Ascending by the smallest key.
abbrev pub IsAscending : List FileMetadata → Type 0
IsAscending [] = Unit {0}
IsAscending (f ∷ fs) =
    All (λ (g : FileMetadata). key_le f.min_key g.min_key ≡ true) fs × IsAscending fs

All-insert_file :
    (P : FileMetadata → Type 0) (f : FileMetadata) (fs : List FileMetadata)
    → P f
    → All P fs
    → All P (insert_file f fs)
unfolding insert_file
All-insert_file P f [] p h = (p, tt)
All-insert_file P f (g ∷ gs) p (q, h) = elim (Bool-cases (key_le f.min_key g.min_key)) [
  | inl le ↦ rw le (p, (q, h))
  | inr gt ↦ rw gt (q, All-insert_file P f gs p h)
]

All-le :
    (a b : Key) (fs : List FileMetadata)
    → key_le a b ≡ true
    → All (λ (g : FileMetadata). key_le b g.min_key ≡ true) fs
    → All (λ (g : FileMetadata). key_le a g.min_key ≡ true) fs
All-le a b [] p h = tt
All-le a b (g ∷ gs) p (q, h) = (key_le_trans a b g.min_key p q, All-le a b gs p h)

insert_file-IsAscending :
    (f : FileMetadata) (fs : List FileMetadata) → IsAscending fs → IsAscending (insert_file f fs)
unfolding insert_file
insert_file-IsAscending f [] h = (tt, tt)
insert_file-IsAscending f (g ∷ gs) (b, h) = elim (Bool-cases (key_le f.min_key g.min_key)) [
  | inl le ↦ rw le ((le, All-le f.min_key g.min_key gs le b), (b, h))
  | inr gt ↦ rw gt (
    All-insert_file (λ (x : FileMetadata). key_le g.min_key x.min_key ≡ true) f gs
        (key_le_of_lt g.min_key f.min_key (lt_of_not-key_le f.min_key g.min_key gt)) b,
    insert_file-IsAscending f gs h,
  )
]

pub sort_files-IsAscending : (fs : List FileMetadata) → IsAscending (sort_files fs)
unfolding sort_files
sort_files-IsAscending [] = tt
sort_files-IsAscending (f ∷ fs) =
    insert_file-IsAscending f (sort_files fs) (sort_files-IsAscending fs)

pub files_at-change_at :
    (n : ℕ) (f : List FileMetadata → List FileMetadata) (ls : List Level)
    → files_at n (change_at n f ls) ≡ f (files_at n ls)
unfolding files_at change_at
files_at-change_at zero f [] = refl
files_at-change_at zero f (l ∷ ls) = refl
files_at-change_at (suc n) f [] = files_at-change_at n f []
files_at-change_at (suc n) f (l ∷ ls) = files_at-change_at n f ls

pub files_at-change_at_other :
    (n k : ℕ) (f : List FileMetadata → List FileMetadata) (ls : List Level)
    → (n == k) ≡ false
    → files_at k (change_at n f ls) ≡ files_at k ls
unfolding files_at change_at
files_at-change_at_other zero zero f ls h = absurd (cc h)
files_at-change_at_other zero (suc k) f [] h = refl
files_at-change_at_other zero (suc k) f (l ∷ ls) h = refl
files_at-change_at_other (suc n) zero f [] h = refl
files_at-change_at_other (suc n) zero f (l ∷ ls) h = refl
files_at-change_at_other (suc n) (suc k) f [] h =
    files_at-change_at_other n k f [] (ground (arith, h))
files_at-change_at_other (suc n) (suc k) f (l ∷ ls) h =
    files_at-change_at_other n k f ls (ground (arith, h))
