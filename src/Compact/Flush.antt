-- ===== src/Compact/Flush.antt =====
-- compact.rs, `flush_memtables`: each frozen memtable becomes a table of level 0, its log goes, and
-- readers are given the new version. Opening a table is a parameter, which Sstable.open_table fills.
-- The calls that write to files do not fail here.
pub mod Tables
pub mod Commits
pub mod Listed
pub mod Whole
pub mod Hidden
pub mod Numbers
mod Tests
use easy_lsm.Base.{
  ℕ, zero, suc, ◌+◌, ◌≡◌, List, [], ◌∷◌, ◌++◌, length, take, drop, ◌==◌, if◌then◌else◌, Option,
  none, some,
}
use easy_lsm.Error.{Result, DbError, ok, err, io, IoError, other, data_corrupted}
use easy_lsm.Codec.{Bytes, Loggable}
use easy_lsm.BloomFilter.{BloomFilter}
use easy_lsm.SkipMap.{SkipMap}
use easy_lsm.Memtable
use easy_lsm.Memtable.{Memtable}
use easy_lsm.Directory
use easy_lsm.Directory.{Directory, sst}
use easy_lsm.Manifest
use easy_lsm.Manifest.{Manifest, Meanwhile, FileMetadata}
use easy_lsm.Sstable.Whole.{written}
use easy_lsm.Compact.Commit.{flush_commit}
use easy_lsm.Compact.Collect.{prepare_gc_snapshot, garbage_collect}
use easy_lsm.Db.{DbVersion, open_files}

module _ (skip_map : SkipMap) where
  -- What the first phase finds under the lock.
  pub record FlushPlan : Type 0 where
    pub memtables : List (Memtable skip_map)
    pub start_sst_id : ℕ
    pub wals_to_delete : List ℕ

  module _ (Table : Type 0) where
    -- One number is reserved, even where there are more memtables, or the logs do not match them.
    unfoldable pub prepare_flush :
        Manifest → DbVersion skip_map Table → Result (Option FlushPlan) × Manifest
    prepare_flush m v = elim v.frozen_memtables [
      | [] ↦ (ok none, m)
      | f ∷ fs ↦
          let m' = record m { next_sstable_id = m.next_sstable_id + 1 } in
          let wals_to_delete = take (length (f ∷ fs)) m.wals in
          if length wals_to_delete == length (f ∷ fs)
          then (
            ok (
                some (record {
                  memtables = f ∷ fs;
                  start_sst_id = m.next_sstable_id;
                  wals_to_delete = wals_to_delete;
                })),
            m',
          )
          else (err (data_corrupted "CRITICAL ERROR: WAL len mismatch Memtable len"), m')
    ]

    unfoldable pub push_tables : List Table → List (List Table) → List (List Table)
    push_tables new_sst_objs [] = new_sst_objs ∷ []
    push_tables new_sst_objs (l ∷ ls) = (l ++ new_sst_objs) ∷ ls

    -- The version that readers see after the commit.
    unfoldable pub flush_version :
        ℕ → List Table → DbVersion skip_map Table → DbVersion skip_map Table
    unfolding push_tables
    flush_version num_flushed new_sst_objs current = record current {
      frozen_memtables = drop num_flushed current.frozen_memtables;
      sstables = push_tables new_sst_objs current.sstables;
    }

    module _ (crc32 : Bytes → ℕ) (sip_hash : ℕ × ℕ → Bytes → ℕ)
        (bloom_loggable : Loggable BloomFilter) (new_filter : BloomFilter) where
      -- A table for each memtable, with the numbers from `sst_id` on.
      unfoldable pub flush_tables :
          ℕ → List (Memtable skip_map) → Directory → List FileMetadata × Directory
      flush_tables sst_id [] d = ([], d)
      flush_tables sst_id (m ∷ ms) d =
          let (meta, file) =
            written crc32 sip_hash bloom_loggable new_filter (Memtable.entries skip_map m) in
          let (new_sstables, d') =
            flush_tables (sst_id + 1) ms (Directory.put (sst sst_id) file d) in
          (record meta { file_id = sst_id } ∷ new_sstables, d')

      module _ (open_table : ℕ → Bytes → Result Table) where
        unfoldable pub flush_mutator :
            List FileMetadata → List ℕ → Manifest → Directory → Result (Manifest × Directory)
        flush_mutator new_sstables wals_to_delete m d =
            elim (flush_commit new_sstables wals_to_delete m) [ err e ↦ err e | ok m' ↦ ok (m', d) ]

        -- The commit, the new version, and the garbage collection. `others` is what other threads do
        -- to the manifest meanwhile, and `writers` what they do to the version of the readers. The
        -- snapshot for the collection is that of the manifest committed here.
        unfoldable pub commit_flush :
            Meanwhile
            → (DbVersion skip_map Table → DbVersion skip_map Table)
            → FlushPlan
            → List FileMetadata
            → List Table
            → Manifest
            → Directory
            → DbVersion skip_map Table
            → Result (Unit {0}) × Manifest × Directory × DbVersion skip_map Table
        unfolding flush_mutator flush_version
        commit_flush others writers plan new_sstables new_sst_objs m d v =
            let (r, m', d') =
              Manifest.apply_atomic_update crc32 (flush_mutator new_sstables plan.wals_to_delete)
                others m d in
            elim r [
              | err e ↦ (err e, m', d', writers v)
              | ok committed ↦ (
                ok tt,
                m',
                garbage_collect crc32 (prepare_gc_snapshot m') d',
                flush_version (length new_sstables) new_sst_objs (writers v),
              )
            ]

        unfoldable pub flush_plan :
            Meanwhile
            → (DbVersion skip_map Table → DbVersion skip_map Table)
            → FlushPlan
            → Manifest
            → Directory
            → DbVersion skip_map Table
            → Result (Unit {0}) × Manifest × Directory × DbVersion skip_map Table
        unfolding flush_tables commit_flush
        flush_plan others writers plan m d v =
            let (new_sstables, d') = flush_tables plan.start_sst_id plan.memtables d in
            elim (open_files skip_map Table crc32 open_table new_sstables d') [
              | err e ↦ (err (io (other "Failed to open new SSTable")), m, d', writers v)
              | ok new_sst_objs ↦ commit_flush others writers plan new_sstables new_sst_objs m d' v
            ]

        unfoldable pub flush_memtables :
            Meanwhile
            → (DbVersion skip_map Table → DbVersion skip_map Table)
            → Manifest
            → Directory
            → DbVersion skip_map Table
            → Result (Unit {0}) × Manifest × Directory × DbVersion skip_map Table
        unfolding prepare_flush flush_plan
        flush_memtables others writers m d v =
            let (r, m') = prepare_flush m v in
            elim r [
              | err e ↦ (err e, m', d, v)
              | ok none ↦ (ok tt, m', d, v)
              | ok (some plan) ↦ flush_plan others writers plan m' d v
            ]
