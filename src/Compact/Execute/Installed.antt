-- ===== src/Compact/Execute/Installed.antt =====
-- The files that a compaction installs are live: the collection of garbage takes them for needed.
use easy_lsm.Base.{
  ℕ, zero, suc, ◌+◌, List, [], ◌∷◌, ◌++◌, Bool, true, ◌==◌, ◌||◌, ◌≡◌, refl, ap, ◌∙◌, arith,
  Bool-cases, inl, inr,
}
use easy_lsm.Key.{key_le}
use easy_lsm.Manifest.{Manifest, FileMetadata, Level, ids, file_ids}
use easy_lsm.Compact.Select.{files_at}
use easy_lsm.Compact.Commit.{
  retain, insert_file, sort_files, change_at, compact_commit, files_at-change_at,
  files_at-change_at_other,
}
use easy_lsm.Compact.Collect.{is_in, prepare_gc_snapshot}
use easy_lsm.Compact.Collect.Safety.{is_in_left, is_in_right}
use easy_lsm.Compact.Flush.Listed.{ids-append}

is_in-insert_file :
    (n : ℕ) (f : FileMetadata) (fs : List FileMetadata)
    → is_in n (ids (insert_file f fs)) ≡ is_in n (ids (f ∷ fs))
unfolding insert_file ids
is_in-insert_file n f [] = refl
is_in-insert_file n f (g ∷ gs) = elim (Bool-cases (key_le f.min_key g.min_key)) [
  | inl le ↦ rw le
  | inr gt ↦ rw gt (ground (arith, is_in-insert_file n f gs))
]

pub is_in-sort_files :
    (n : ℕ) (fs : List FileMetadata) → is_in n (ids (sort_files fs)) ≡ is_in n (ids fs)
unfolding sort_files ids
is_in-sort_files n [] = refl
is_in-sort_files n (f ∷ fs) =
    is_in-insert_file n f (sort_files fs)
    ∙ ap (λ (b : Bool). f.file_id == n || b) (is_in-sort_files n fs)

is_in-files_at :
    (n k : ℕ) (ls : List Level)
    → is_in n (ids (files_at k ls)) ≡ true
    → is_in n (file_ids ls) ≡ true
unfolding files_at file_ids ids
is_in-files_at n k [] h = absurd (cc h)
is_in-files_at n zero (l ∷ ls) h = is_in_left n (ids l.files) (file_ids ls) h
is_in-files_at n (suc k) (l ∷ ls) h =
    is_in_right n (ids l.files) (file_ids ls) (is_in-files_at n k ls h)

-- The level below the source holds the new files with those that stay there, in order.
pub files_at-target :
    (source : ℕ) (new_files gone_source gone_target : List FileMetadata) (m : Manifest)
    → files_at (source + 1) (compact_commit source new_files gone_source gone_target m).levels
      ≡ sort_files (retain gone_target (files_at (source + 1) m.levels) ++ new_files)
unfolding compact_commit
files_at-target source new_files gone_source gone_target m =
    let sorted =
      λ (files : List FileMetadata). sort_files (retain gone_target files ++ new_files) in
    files_at-change_at (source + 1) sorted (change_at source (retain gone_source) m.levels)
    ∙ ap sorted
        (files_at-change_at_other source (source + 1) (retain gone_source) m.levels (ground arith))

pub files_at-source :
    (source : ℕ) (new_files gone_source gone_target : List FileMetadata) (m : Manifest)
    → files_at source (compact_commit source new_files gone_source gone_target m).levels
      ≡ retain gone_source (files_at source m.levels)
unfolding compact_commit
files_at-source source new_files gone_source gone_target m =
    files_at-change_at_other (source + 1) source
      (λ (files : List FileMetadata). sort_files (retain gone_target files ++ new_files))
      (change_at source (retain gone_source) m.levels) (ground arith)
    ∙ files_at-change_at source (retain gone_source) m.levels

pub installed_is_live :
    (n k : ℕ) (files new_files : List FileMetadata) (m : Manifest)
    → files_at k m.levels ≡ sort_files (files ++ new_files)
    → is_in n (ids new_files) ≡ true
    → is_in n (prepare_gc_snapshot m).ssts ≡ true
unfolding prepare_gc_snapshot
installed_is_live n k files new_files m e h = is_in-files_at n k m.levels (
    rw e (
      rw (is_in-sort_files n (files ++ new_files), ids-append files new_files)
        (is_in_right n (ids files) (ids new_files) h)))
