-- ===== src/Compact/Version/Tests.antt =====
-- compact.rs: one table of level 0 is merged with one of level 1, and one is flushed.
use easy_lsm.Base.{ℕ, refl, [], ◌∷◌}
use easy_lsm.Key.{Key}
use easy_lsm.SkipMap.{sorted_list}
use easy_lsm.Memtable
use easy_lsm.Manifest.{FileMetadata, Manifest}
use easy_lsm.Sstable.{Sstable}
use easy_lsm.Compact.Commit.{compact_commit, flush_commit}
use easy_lsm.Db.{DbVersion}
use easy_lsm.Compact.Flush.{flush_version}
use easy_lsm.Compact.Version.{compact_version}
use easy_lsm.Compact.Version.Agrees.{Agree, IsOpen, compact_version-Agree, flush_version-Agree}

abbrev key : ℕ → Key
key n = record { lsn = 1; bytes = n ∷ [] }

abbrev file : ℕ → ℕ → FileMetadata
file id lo = record { file_id = id; file_size = 100; min_key = key lo; max_key = key 90 }

abbrev table : ℕ → ℕ → Sstable
table id lo = record {
  id = id;
  file = [];
  index = [];
  bloom_filter = record {
    bitmap = 0 ∷ [];
    bitmap_bits = 64;
    k_num = 1;
    sip_keys = record { first = (1, 2); second = (3, 4) };
  };
  min_key = key lo;
  max_key = key 90;
}

opens : (id lo : ℕ) → IsOpen (table id lo) (file id lo)
opens id lo = record { number = refl; smallest = refl }

abbrev manifest : Manifest
manifest = record {
  wals = 5 ∷ 6 ∷ [];
  levels = record { files = file 1 10 ∷ [] } ∷ record { files = file 2 5 ∷ file 3 40 ∷ [] } ∷ [];
  next_wal_id = 7;
  next_sstable_id = 9;
  version = 1;
}

abbrev version : DbVersion sorted_list Sstable
version = record {
  next_lsn = 4;
  mutable_memtable = Memtable.new sorted_list;
  frozen_memtables = [];
  mutable_wal = 6;
  sstables = (table 1 10 ∷ []) ∷ (table 2 5 ∷ table 3 40 ∷ []) ∷ [];
}

agree : Agree version.sstables manifest.levels
agree = ((opens 1 10, tt), ((opens 2 5, (opens 3 40, tt)), tt))

compact_version-Agree_example :
    Agree
      (compact_version sorted_list 0
        (table 9 5 ∷ [])
        (file 1 10 ∷ [])
        (file 2 5 ∷ [])
        version).sstables
      (compact_commit 0 (file 9 5 ∷ []) (file 1 10 ∷ []) (file 2 5 ∷ []) manifest).levels
compact_version-Agree_example =
    compact_version-Agree sorted_list 0 (table 9 5 ∷ []) (file 9 5 ∷ []) (file 1 10 ∷ [])
      (file 2 5 ∷ []) version manifest (opens 9 5, tt) agree

abbrev flushed : Manifest
flushed = record manifest {
  wals = 6 ∷ [];
  levels =
      record { files = file 1 10 ∷ file 9 7 ∷ [] }
      ∷ record { files = file 2 5 ∷ file 3 40 ∷ [] }
      ∷ [];
}

flush_version-Agree_example :
    Agree (flush_version sorted_list Sstable 1 (table 9 7 ∷ []) version).sstables flushed.levels
unfolding flush_commit
flush_version-Agree_example =
    flush_version-Agree sorted_list 1 (table 9 7 ∷ []) (file 9 7) [] (5 ∷ []) version manifest
      flushed (opens 9 7, tt) agree refl
