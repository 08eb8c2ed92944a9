-- ===== src/Compact/Execute.antt =====
-- compact.rs, `execute_compaction`, `compact_l0` and `compact_ln`, and a round of `run`: the tables
-- that a selection names are merged into new ones, which take their places in the manifest and in
-- the version that readers see. The calls that write to files do not fail here.
pub mod Inputs
pub mod Installed
pub mod Whole
pub mod Ends
pub mod NewestOf
pub mod Lookup
mod Tests
use easy_lsm.Base.{ℕ, ◌+◌, ◌*◌, ◌≡◌, List, [], ◌∷◌, ◌++◌, Bool, if◌then◌else◌, Option, none, some}
use easy_lsm.Error.{Result, ok, err, io, IoError, not_found, other}
use easy_lsm.Codec.{Bytes, Loggable}
use easy_lsm.Entry.{Entry}
use easy_lsm.BloomFilter.{BloomFilter}
use easy_lsm.SkipMap.{SkipMap}
use easy_lsm.Directory
use easy_lsm.Directory.{Directory, sst}
use easy_lsm.Manifest
use easy_lsm.Manifest.{Manifest, Meanwhile, FileMetadata}
use easy_lsm.Manifest.Commits.{changing}
use easy_lsm.Sstable.{Sstable}
use easy_lsm.Sstable.Ends.{iterate, open_file}
use easy_lsm.Db.{DbVersion, open_files}
use easy_lsm.Compact.Merge.{SstableIterator}
use easy_lsm.Compact.Output.{Outputs, write_outputs}
use easy_lsm.Compact.Commit.{compact_commit}
use easy_lsm.Compact.Version.{compact_version}
use easy_lsm.Compact.Collect.{prepare_gc_snapshot, garbage_collect}
use easy_lsm.Compact.Select.{Work, flush_work, l0_work, ln_work, wait, work, select_l0, select_ln}
use easy_lsm.Compact.Flush.{flush_memtables}

-- TARGET_FILE_SIZE of `run`
abbrev pub run_target_file_size : ℕ
run_target_file_size = 64 * 1024 * 1024

module _ (crc32 : Bytes → ℕ) (bloom_loggable : Loggable BloomFilter) where
  -- `Sstable::new` of each file, and an iterator over it.
  unfoldable pub open_inputs : List FileMetadata → Directory → Result (List SstableIterator)
  unfolding iterate open_file
  open_inputs [] d = ok []
  open_inputs (f ∷ fs) d = elim (Directory.read (sst f.file_id) d) [
    | none ↦ err (io (other "Failed to open SST"))
    | some file ↦ elim (open_file crc32 bloom_loggable f.file_id file) [
      | err e ↦ err (io (other "Failed to open SST"))
      | ok t ↦ elim (open_inputs fs d) [ ok inputs ↦ ok (iterate crc32 t ∷ inputs) | err e ↦ err e ]
    ]
  ]

module _ (skip_map : SkipMap) where
  -- What the compaction thread works on: the shared manifest, the directory, the readers' version.
  pub record Store : Type 0 where
    pub manifest : Manifest
    pub directory : Directory
    pub version : DbVersion skip_map Sstable

  -- What other threads do: to the counter of table numbers before it is read for each output
  -- table; to the shared manifest while the output is written; to the manifest and its files between
  -- the snapshot and the commit of each attempt at an update; and to the version up to its exchange.
  -- They reserve no table numbers.
  pub record Others : Type 0 where
    pub rivals : ℕ → ℕ → ℕ
    pub meanwhile : Manifest → Manifest
    pub others : Meanwhile
    pub writers : DbVersion skip_map Sstable → DbVersion skip_map Sstable

  module _ (crc32 : Bytes → ℕ) (sip_hash : ℕ × ℕ → Bytes → ℕ)
      (bloom_loggable : Loggable BloomFilter) (new_filter : BloomFilter) (threads : Others)
      (target_file_size : ℕ) where
    -- From the commit on.
    unfoldable pub install_files :
        ℕ
        → List FileMetadata
        → List Sstable
        → List FileMetadata
        → List FileMetadata
        → Store
        → Result (Unit {0}) × Store
    unfolding compact_commit compact_version
    install_files source new_files new_sst_objs gone_source gone_target s =
        let (r, m, d) =
          Manifest.apply_atomic_update crc32
            (changing (λ m. ok (compact_commit source new_files gone_source gone_target m)))
            threads.others s.manifest s.directory in
        elim r [
          | err e ↦
              (err e, record { manifest = m; directory = d; version = threads.writers s.version })
          | ok committed ↦ (
            ok tt,
            record {
              manifest = m;
              directory = garbage_collect crc32 (prepare_gc_snapshot m) d;
              version =
                  compact_version skip_map source new_sst_objs gone_source gone_target
                    (threads.writers s.version);
            },
          )
        ]

    -- The store after the writing.
    abbrev pub written_store : Store → Outputs → Store
    written_store s o = record s {
      manifest = threads.meanwhile (record (s.manifest) { next_sstable_id = o.next_sstable_id });
      directory = o.directory;
    }

    -- The new tables are opened before they are installed.
    unfoldable pub install_outputs :
        ℕ
        → List FileMetadata
        → List FileMetadata
        → Result (Unit {0}) × Outputs
        → Store
        → Result (Unit {0}) × Store
    unfolding open_file install_files
    install_outputs source gone_source gone_target (err e, o) s = (err e, written_store s o)
    install_outputs source gone_source gone_target (ok _, o) s =
        elim (open_files skip_map Sstable crc32 (open_file crc32 bloom_loggable) o.new_files
          o.directory) [
            | err e ↦ (err (io (other "Failed to open new SST")), written_store s o)
            | ok new_sst_objs ↦
                install_files source o.new_files new_sst_objs gone_source gone_target
                  (written_store s o)
          ]

    -- `none`: the writing is out of fuel.
    unfoldable pub execute_compaction :
        ℕ
        → List FileMetadata
        → List FileMetadata
        → List FileMetadata
        → Store
        → Option (Result (Unit {0}) × Store)
    unfolding open_inputs install_outputs
    execute_compaction source all_files gone_source gone_target s =
        elim (open_inputs crc32 bloom_loggable all_files s.directory) [
          | err e ↦ some (err e, s)
          | ok inputs ↦
              elim (write_outputs crc32 sip_hash bloom_loggable new_filter threads.rivals
                target_file_size inputs s.manifest.next_sstable_id s.directory) [
                  | none ↦ none
                  | some written ↦ some (install_outputs source gone_source gone_target written s)
                ]
        ]

    -- `compact_l0`, and `compact_ln` of a level.
    unfoldable pub compact_l0 : Store → Option (Result (Unit {0}) × Store)
    unfolding execute_compaction
    compact_l0 s = elim (select_l0 s.manifest) [
      | none ↦ some (ok tt, s)
      | some files ↦ execute_compaction 0 (files.source ++ files.target) files.source files.target s
    ]

    unfoldable pub compact_ln : ℕ → Store → Option (Result (Unit {0}) × Store)
    unfolding execute_compaction
    compact_ln level_idx s = elim (select_ln level_idx s.manifest) [
      | none ↦ some (ok tt, s)
      | some files ↦
          execute_compaction level_idx (files.source ++ files.target) files.source files.target s
    ]

  module _ (crc32 : Bytes → ℕ) (sip_hash : ℕ × ℕ → Bytes → ℕ)
      (bloom_loggable : Loggable BloomFilter) (new_filter : BloomFilter) (threads : Others) where
    unfoldable pub flush_store : Store → Result (Unit {0}) × Store
    unfolding open_file
    flush_store s =
        let (r, m, d, v) =
          flush_memtables skip_map Sstable crc32 sip_hash bloom_loggable new_filter
            (open_file crc32 bloom_loggable) threads.others threads.writers s.manifest s.directory
            s.version in
        (r, record { manifest = m; directory = d; version = v })

    -- A round of the loop of `run`, unless the database shuts down: a result is only printed there,
    -- where it is an error. Where `run` would wait, the round is over.
    unfoldable pub run_round : Store → Option (Result (Unit {0}) × Store)
    unfolding compact_l0 compact_ln flush_store
    run_round s = elim (work s.manifest) [
      | flush_work ↦ some (flush_store s)
      | l0_work ↦ compact_l0 crc32 sip_hash bloom_loggable new_filter threads run_target_file_size s
      | ln_work level ↦
          compact_ln crc32 sip_hash bloom_loggable new_filter threads run_target_file_size level s
      | wait ↦ some (ok tt, s)
    ]
