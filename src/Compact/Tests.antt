-- ===== src/Compact/Tests.antt =====
-- compact.rs at a small manifest and directory.
use easy_lsm.Base.{ℕ, ◌≡◌, refl, [], ◌∷◌, ◌++◌, true, not, ◌&&◌, ◌||◌, ◌⊎◌, All}
use mathlib.Core.List.{Memᴰ}
use easy_lsm.Key
use easy_lsm.Key.{Key}
use easy_lsm.Directory
use easy_lsm.Directory.{Directory, sst, wal}
use easy_lsm.Manifest.{FileMetadata, Manifest, ids}
use easy_lsm.Wal.Tests.{sum32}
use easy_lsm.Compact.Select.{Selection, select_l0, files_at, min_key, max_key, overlapping}
use easy_lsm.Compact.Select.Complete.{select_l0-is_complete, is_apart}
use mathlib.Core.List.{Permᴰ}
use easy_lsm.Compact.Commit.{compact_commit, retain, is_listed, IsAscending}
use easy_lsm.Compact.Commit.Moves.{compact_commit_moves}
use easy_lsm.Compact.Collect.{is_in, garbage_collect}
use easy_lsm.Compact.Collect.Safety.{garbage_collect-keeps, live_sst}

abbrev table : ℕ → ℕ → ℕ → FileMetadata
table id lo hi = record {
  file_id = id;
  file_size = 100;
  min_key = record { lsn = 1; bytes = lo ∷ [] };
  max_key = record { lsn = 1; bytes = hi ∷ [] };
}

abbrev manifest : Manifest
manifest = record {
  wals = 5 ∷ [];
  levels =
      record { files = table 1 10 20 ∷ table 2 15 30 ∷ [] }
      ∷ record { files = table 3 5 12 ∷ table 4 40 50 ∷ [] }
      ∷ [];
  next_wal_id = 6;
  next_sstable_id = 5;
  version = 1;
}

abbrev selection : Selection
selection = record { source = table 1 10 20 ∷ table 2 15 30 ∷ []; target = table 3 5 12 ∷ [] }

select_l0-is_complete_example :
    Memᴰ (table 4 40 50) selection.target
    ⊎ All (λ (f : FileMetadata). is_apart f (table 4 40 50) ≡ true) selection.source
unfolding select_l0 files_at min_key max_key overlapping Key.key_le Key.key_lt Key.cmp Key.cmp_bytes
select_l0-is_complete_example =
    select_l0-is_complete manifest selection (table 4 40 50) refl (Memᴰ.tail (Memᴰ.head refl))

abbrev after : Manifest
after = compact_commit 0 (table 7 6 9 ∷ []) selection.source selection.target manifest

compact_commit_moves_example :
    (files_at 0 after.levels ≡ retain selection.source (files_at 0 manifest.levels))
    × (is_in 2 (ids (files_at 0 after.levels))
        ≡ (is_in 2 (ids (files_at 0 manifest.levels)) && not (is_listed 2 selection.source)))
    × IsAscending (files_at 1 after.levels)
    × Permᴰ
        (files_at 1 after.levels)
        (retain selection.target (files_at 1 manifest.levels) ++ (table 7 6 9 ∷ []))
    × (is_in 2 (ids (files_at 1 after.levels)) ≡ (
        (is_in 2 (ids (files_at 1 manifest.levels)) && not (is_listed 2 selection.target))
        || is_in 2 (ids (table 7 6 9 ∷ []))))
    × (files_at 2 after.levels ≡ files_at 2 manifest.levels)
    × (after.wals ≡ manifest.wals)
compact_commit_moves_example =
    compact_commit_moves 0 2 2 (table 7 6 9 ∷ []) selection.source selection.target manifest refl
      refl

abbrev directory : Directory
directory = (sst 1, 1 ∷ []) ∷ (sst 9, 2 ∷ []) ∷ (wal 5, 3 ∷ []) ∷ []

garbage_collect-keeps_example :
    Directory.read
      (sst 1)
      (garbage_collect sum32 (record { wals = 5 ∷ []; ssts = 1 ∷ 2 ∷ [] }) directory)
    ≡ Directory.read (sst 1) directory
garbage_collect-keeps_example =
    garbage_collect-keeps sum32 (record { wals = 5 ∷ []; ssts = 1 ∷ 2 ∷ [] }) directory (sst 1)
      (live_sst 1 refl)
