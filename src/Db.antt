-- ===== src/Db.antt =====
-- lib.rs: the version of the database that readers see, its rotation, and its recovery. The tables
-- are searched through a parameter, which Sstable.search fills.
pub mod Recover
pub mod Read
pub mod Rotate
pub mod Open
pub mod Logs
pub mod Reopen
mod Tests
use easy_lsm.Base.{
  ℕ, zero, suc, ◌+◌, List, [], ◌∷◌, ◌++◌, length, Bool, true, false, if◌then◌else◌, Option, none,
  some, ◌≡◌, refl,
}
use easy_lsm.Error.{Result, DbError, ok, err, io, not_found, data_corrupted}
use easy_lsm.Codec.{Bytes}
use easy_lsm.Key
use easy_lsm.Key.{Key}
use easy_lsm.Value.{Value}
use easy_lsm.Entry.{Entry}
use easy_lsm.SkipMap.{SkipMap}
use easy_lsm.Memtable
use easy_lsm.Memtable.{Memtable}
use easy_lsm.Wal
use easy_lsm.Directory
use easy_lsm.Directory.{Directory, wal, sst}
use easy_lsm.Manifest
use easy_lsm.Manifest.{Manifest, Meanwhile, FileMetadata, Level}

-- The last of the logs, and those before it.
unfoldable pub last : List ℕ → Option ℕ
last [] = none
last (x ∷ []) = some x
last (x ∷ y ∷ ys) = last (y ∷ ys)

unfoldable pub all_but_last : List ℕ → List ℕ
all_but_last [] = []
all_but_last (x ∷ []) = []
all_but_last (x ∷ y ∷ ys) = x ∷ all_but_last (y ∷ ys)

module _ (skip_map : SkipMap) (Table : Type 0) where
  -- `mutable_wal` is the number of the log that writes go to.
  pub record DbVersion : Type 0 where
    pub next_lsn : ℕ
    pub mutable_memtable : Memtable skip_map
    pub frozen_memtables : List (Memtable skip_map)
    pub mutable_wal : ℕ
    pub sstables : List (List Table)

  -- The frozen memtables, newest (last) first.
  unfoldable pub search_frozen : List (Memtable skip_map) → Bytes → Option Value
  search_frozen [] key = none
  search_frozen (m ∷ ms) key = elim (search_frozen ms key) [
    | some val ↦ some val
    | none ↦ Memtable.get skip_map m key
  ]

  module _ (search : Table → Bytes → Result (Option Value)) where
    unfoldable pub search_level : List Table → Bytes → Result (Option Value)
    search_level [] key = ok none
    search_level (t ∷ ts) key = elim (search t key) [
      | err e ↦ err e
      | ok (some val) ↦ ok (some val)
      | ok none ↦ search_level ts key
    ]

    unfoldable pub search_levels : List (List Table) → Bytes → Result (Option Value)
    unfolding search_level
    search_levels [] key = ok none
    search_levels (l ∷ ls) key = elim (search_level l key) [
      | err e ↦ err e
      | ok (some val) ↦ ok (some val)
      | ok none ↦ search_levels ls key
    ]

    -- `Db::get`
    unfoldable pub get : DbVersion → Bytes → Result (Option Value)
    unfolding search_frozen search_levels
    get v key = elim (Memtable.get skip_map v.mutable_memtable key) [
      | some val ↦ ok (some val)
      | none ↦ elim (search_frozen v.frozen_memtables key) [
        | some val ↦ ok (some val)
        | none ↦ search_levels v.sstables key
      ]
    ]

  module _ (crc32 : Bytes → ℕ) where
    -- The closure of `rotate_memtable`: a log with the next number is opened and listed.
    unfoldable pub rotate_commit : Manifest → Directory → Result (Manifest × Directory)
    rotate_commit m d = elim (Manifest.open_wal crc32 m.next_wal_id d) [
      | err e ↦ err e
      | ok d' ↦ ok (record m { wals = m.wals ++ (m.next_wal_id ∷ []) }, d')
    ]

    -- The new version, once the manifest is committed.
    unfoldable pub rotate_version : ℕ → DbVersion → DbVersion
    rotate_version new_wal current = record {
      next_lsn = current.next_lsn;
      mutable_memtable = Memtable.new skip_map;
      frozen_memtables =
          current.frozen_memtables ++ (Memtable.freeze skip_map current.mutable_memtable ∷ []);
      mutable_wal = new_wal;
      sstables = current.sstables;
    }

    -- `rotate_memtable`, with what other threads do to the manifest.
    unfoldable pub rotate_memtable :
        Meanwhile
        → Manifest
        → Directory
        → DbVersion
        → Result (Unit {0}) × Manifest × Directory × DbVersion
    unfolding rotate_commit rotate_version last
    rotate_memtable others shared d v =
        let (r, shared', d') = Manifest.apply_atomic_update crc32 rotate_commit others shared d in
        elim r [
          | err e ↦ (err e, shared', d', v)
          | ok new_manifest ↦ elim (last new_manifest.wals) [
            | none ↦ (err (data_corrupted "No WALs after rotation"), shared', d', v)
            | some id ↦ elim (Manifest.open_wal crc32 id d') [
              | err e ↦ (err e, shared', d', v)
              | ok d'' ↦ (ok tt, shared', d'', rotate_version id v)
            ]
          ]
        ]

    unfoldable pub replay : List Entry → Memtable skip_map → Memtable skip_map
    replay [] m = m
    replay ((key, value) ∷ es) m = replay es (Memtable.recover skip_map m key value)

    -- The entries of a log file; running out of fuel is excluded by Wal.Log.read_log-ne-none.
    unfoldable pub read_wal : ℕ → Directory → Result (List Entry)
    read_wal id d = elim (Directory.read (wal id) d) [
      | none ↦ err (io not_found)
      | some file ↦ elim (Wal.read_log crc32 file) [ some r ↦ r | none ↦ err (io not_found) ]
    ]

    unfoldable pub replay_immutable_wal : ℕ → Directory → Result (Memtable skip_map)
    unfolding replay read_wal
    replay_immutable_wal id d = elim (read_wal id d) [
      | err e ↦ err e
      | ok es ↦ ok (Memtable.freeze skip_map (replay es (Memtable.new skip_map)))
    ]

    -- The LSN of the last entry, 0 where there is none.
    unfoldable pub last_lsn : List Entry → ℕ
    last_lsn [] = 0
    last_lsn ((key, value) ∷ []) = key.lsn
    last_lsn (e ∷ f ∷ es) = last_lsn (f ∷ es)

    unfoldable pub replay_mutable_wal : ℕ → Directory → Result (Memtable skip_map × ℕ)
    unfolding replay read_wal last_lsn
    replay_mutable_wal id d = elim (read_wal id d) [
      | err e ↦ err e
      | ok es ↦ ok (replay es (Memtable.new skip_map), last_lsn es)
    ]

    -- The logs before the last; the first error, as `collect` gives one.
    unfoldable pub replay_frozen : List ℕ → Directory → Result (List (Memtable skip_map))
    unfolding replay_immutable_wal
    replay_frozen [] d = ok []
    replay_frozen (id ∷ ids) d = elim (replay_immutable_wal id d) [
      | err e ↦ err e
      | ok m ↦ elim (replay_frozen ids d) [ ok ms ↦ ok (m ∷ ms) | err e ↦ err e ]
    ]

    module _ (open_table : ℕ → Bytes → Result Table) where
      unfoldable pub open_files : List FileMetadata → Directory → Result (List Table)
      open_files [] d = ok []
      open_files (f ∷ fs) d = elim (Directory.read (sst f.file_id) d) [
        | none ↦ err (io not_found)
        | some file ↦ elim (open_table f.file_id file) [
          | err e ↦ err e
          | ok t ↦ elim (open_files fs d) [ ok ts ↦ ok (t ∷ ts) | err e ↦ err e ]
        ]
      ]

      unfoldable pub open_levels : List Level → Directory → Result (List (List Table))
      unfolding open_files
      open_levels [] d = ok []
      open_levels (l ∷ ls) d = elim (open_files l.files d) [
        | err e ↦ err e
        | ok ts ↦ elim (open_levels ls d) [ ok tss ↦ ok (ts ∷ tss) | err e ↦ err e ]
      ]

      recover_tables :
          Manifest
          → Directory
          → ℕ
          → List (Memtable skip_map)
          → Memtable skip_map
          → ℕ
          → Result (DbVersion × Directory)
      unfolding open_levels
      recover_tables m d id frozen mutable max_lsn = elim (Manifest.open_wal crc32 id d) [
        | err e ↦ err e
        | ok d' ↦ elim (open_levels m.levels d') [
          | err e ↦ err e
          | ok tables ↦ ok (
            record {
              next_lsn = max_lsn + 1;
              mutable_memtable = mutable;
              frozen_memtables = frozen;
              mutable_wal = id;
              sstables = tables;
            },
            d',
          )
        ]
      ]

      -- `recover_state`, and the version that `Db::new` makes of it.
      unfoldable pub recover_state : Manifest → Directory → Result (DbVersion × Directory)
      unfolding last all_but_last replay_frozen replay_mutable_wal recover_tables
      recover_state m d = elim (last m.wals) [
        | none ↦ err (data_corrupted "Manifest contains no WALs")
        | some id ↦ elim (replay_frozen (all_but_last m.wals) d) [
          | err e ↦ err e
          | ok frozen ↦ elim (replay_mutable_wal id d) [
            | err e ↦ err e
            | ok (mutable, max_lsn) ↦ recover_tables m d id frozen mutable max_lsn
          ]
        ]
      ]
