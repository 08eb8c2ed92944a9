-- ===== src/Compact/Version.antt =====
-- compact.rs, the version of the readers after `execute_compaction` has committed: its tables change
-- as the files of the manifest do.
pub mod Agrees
mod Tests
use easy_lsm.Base.{ℕ, zero, suc, ◌+◌, List, [], ◌∷◌, ◌++◌, if◌then◌else◌}
use easy_lsm.Key.{key_le}
use easy_lsm.SkipMap.{SkipMap}
use easy_lsm.Manifest.{FileMetadata}
use easy_lsm.Sstable.{Sstable}
use easy_lsm.Compact.Commit.{is_listed}
use easy_lsm.Db.{DbVersion}

-- `retain` of the tables whose numbers are not to be removed.
unfoldable pub retain_tables : List FileMetadata → List Sstable → List Sstable
retain_tables gone [] = []
retain_tables gone (t ∷ ts) =
    let rest = retain_tables gone ts in if is_listed t.id gone then rest else t ∷ rest

-- `sort_by` of the smallest keys, which is stable.
unfoldable pub insert_table : Sstable → List Sstable → List Sstable
insert_table t [] = t ∷ []
insert_table t (u ∷ us) =
    let rest = insert_table t us in if key_le t.min_key u.min_key then t ∷ u ∷ us else u ∷ rest

unfoldable pub sort_tables : List Sstable → List Sstable
unfolding insert_table
sort_tables [] = []
sort_tables (t ∷ ts) = insert_table t (sort_tables ts)

-- The levels with the one at an index changed; levels up to it are made where they are missing.
unfoldable pub change_tables_at :
    ℕ → (List Sstable → List Sstable) → List (List Sstable) → List (List Sstable)
change_tables_at zero f [] = f [] ∷ []
change_tables_at zero f (l ∷ ls) = f l ∷ ls
change_tables_at (suc n) f [] = [] ∷ change_tables_at n f []
change_tables_at (suc n) f (l ∷ ls) = l ∷ change_tables_at n f ls

unfoldable pub compact_version :
    (skip_map : SkipMap)
    → ℕ
    → List Sstable
    → List FileMetadata
    → List FileMetadata
    → DbVersion skip_map Sstable
    → DbVersion skip_map Sstable
unfolding change_tables_at retain_tables sort_tables
compact_version skip_map source new_sst_objs gone_source gone_target current =
    let removed = change_tables_at source (retain_tables gone_source) current.sstables in
    record current {
      sstables =
          change_tables_at (source + 1)
            (λ tables. sort_tables (retain_tables gone_target tables ++ new_sst_objs)) removed;
    }
