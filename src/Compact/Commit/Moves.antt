-- ===== src/Compact/Commit/Moves.antt =====
-- What the commit of a compaction does to every level.
use easy_lsm.Base.{
  ℕ, ◌+◌, List, [], ◌∷◌, ◌++◌, Bool, false, not, ◌==◌, ◌&&◌, ◌||◌, ◌≡◌, refl, ap, ◌∙◌, arith,
  Bool-cases, inl, inr,
}
use mathlib.Core.List.{Permᴰ}
use mathlib.Core.List.Permᴰ
use easy_lsm.Key.{key_le}
use easy_lsm.Manifest.{Manifest, FileMetadata, ids}
use easy_lsm.Compact.Select.{files_at}
use easy_lsm.Compact.Commit.{
  retain, insert_file, sort_files, is_listed, change_at, compact_commit, IsAscending,
  files_at-change_at_other, sort_files-IsAscending,
}
use easy_lsm.Compact.Collect.{is_in}
use easy_lsm.Compact.Collect.Safety.{is_in-append}
use easy_lsm.Compact.Flush.Listed.{ids-append}
use easy_lsm.Compact.Execute.Installed.{is_in-sort_files, files_at-target, files_at-source}

insert_file-Permᴰ : (f : FileMetadata) (fs : List FileMetadata) → Permᴰ (insert_file f fs) (f ∷ fs)
unfolding insert_file
insert_file-Permᴰ f [] = Permᴰ.refl _
insert_file-Permᴰ f (g ∷ gs) = elim (Bool-cases (key_le f.min_key g.min_key)) [
  | inl le ↦ rw le (Permᴰ.refl _)
  | inr gt ↦ rw gt (Permᴰ.trans (Permᴰ.cons refl (insert_file-Permᴰ f gs)) (Permᴰ.swap refl refl))
]

sort_files-Permᴰ : (fs : List FileMetadata) → Permᴰ (sort_files fs) fs
unfolding sort_files
sort_files-Permᴰ [] = Permᴰ.refl _
sort_files-Permᴰ (f ∷ fs) =
    Permᴰ.trans (insert_file-Permᴰ f (sort_files fs)) (Permᴰ.cons refl (sort_files-Permᴰ fs))

is_in-retain :
    (n : ℕ) (gone fs : List FileMetadata)
    → is_in n (ids (retain gone fs)) ≡ (is_in n (ids fs) && not (is_listed n gone))
unfolding retain ids
is_in-retain n gone [] = refl
is_in-retain n gone (f ∷ fs) = elim (Bool-cases (is_listed f.file_id gone)) [
  | inl listed ↦ rw listed (ground (arith, is_in-retain n gone fs, listed))
  | inr kept ↦ rw kept (ground (arith, is_in-retain n gone fs, kept))
]

-- The commit of a compaction, on every manifest. The source level is left with the files that were
-- not to be removed from it, in their order; by their numbers: a file is in it where it was there and
-- was not to be removed. The level below holds, in the order of their smallest keys, exactly the
-- files that were not to be removed from it and the new files; by their numbers: a file is in it
-- where it is new, or was there and was not to be removed. The files of any other level `k` are as
-- before, and so are the logs.
pub compact_commit_moves :
    (source k n : ℕ) (new_files gone_source gone_target : List FileMetadata) (m : Manifest)
    → (source == k) ≡ false
    → (source + 1 == k) ≡ false
    → (let after = compact_commit source new_files gone_source gone_target m in
        (files_at source after.levels ≡ retain gone_source (files_at source m.levels))
        × (is_in n (ids (files_at source after.levels))
            ≡ (is_in n (ids (files_at source m.levels)) && not (is_listed n gone_source)))
        × IsAscending (files_at (source + 1) after.levels)
        × Permᴰ
            (files_at (source + 1) after.levels)
            (retain gone_target (files_at (source + 1) m.levels) ++ new_files)
        × (is_in n (ids (files_at (source + 1) after.levels)) ≡ (
            (is_in n (ids (files_at (source + 1) m.levels)) && not (is_listed n gone_target))
            || is_in n (ids new_files)))
        × (files_at k after.levels ≡ files_at k m.levels)
        × (after.wals ≡ m.wals))
unfolding compact_commit
compact_commit_moves source k n new_files gone_source gone_target m p q =
    let sorted =
      λ (files : List FileMetadata). sort_files (retain gone_target files ++ new_files) in
    let removed = change_at source (retain gone_source) m.levels in
    let stay = retain gone_target (files_at (source + 1) m.levels) in
    let target = files_at-target source new_files gone_source gone_target m in
    (
      files_at-source source new_files gone_source gone_target m,
      ap (λ (fs : List FileMetadata). is_in n (ids fs))
            (files_at-source source new_files gone_source gone_target m)
          ∙ is_in-retain n gone_source (files_at source m.levels),
      rw target (sort_files-IsAscending (stay ++ new_files)),
      rw target (sort_files-Permᴰ (stay ++ new_files)),
      rw target (
          is_in-sort_files n (stay ++ new_files)
          ∙ ap (is_in n) (ids-append stay new_files)
          ∙ is_in-append n (ids stay) (ids new_files)
          ∙ ap (λ (b : Bool). b || is_in n (ids new_files))
              (is_in-retain n gone_target (files_at (source + 1) m.levels))),
      files_at-change_at_other (source + 1) k sorted removed q
          ∙ files_at-change_at_other source k (retain gone_source) m.levels p,
      refl,
    )
