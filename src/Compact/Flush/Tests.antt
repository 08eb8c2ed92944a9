-- ===== src/Compact/Flush/Tests.antt =====
-- compact.rs: one frozen memtable is flushed, next to an older table.
use easy_lsm.Base.{ℕ, ◌≡◌, refl, [], ◌∷◌, ◌==◌, if◌then◌else◌, Option, some}
use easy_lsm.Error.{Result, ok}
use easy_lsm.Codec.{Bytes, Loggable}
use easy_lsm.Value.{Value, tombstone, int, negsuc}
use easy_lsm.SkipMap.{sorted_list}
use easy_lsm.Memtable
use easy_lsm.Memtable.{Memtable}
use easy_lsm.BloomFilter.{BloomFilter}
use easy_lsm.Directory
use easy_lsm.Directory.{Directory, wal}
use easy_lsm.Manifest
use easy_lsm.Manifest.{Manifest, Meanwhile}
use easy_lsm.Compact.Commit
use easy_lsm.Db
use easy_lsm.Db.{DbVersion, get}
use easy_lsm.Compact.Flush.{flush_version}
use easy_lsm.Compact.Flush.Hidden.{flush_version_hides}

abbrev small_filter : BloomFilter
small_filter = record {
  bitmap = 0 ∷ [];
  bitmap_bits = 64;
  k_num = 0;
  sip_keys = record { first = (1, 2); second = (3, 4) };
}

abbrev no_bytes : Loggable BloomFilter
no_bytes = record {
  encode = λ (f : BloomFilter). [];
  decode = λ (bs : Bytes). ok (small_filter, bs);
}

abbrev no_hash : ℕ × ℕ → Bytes → ℕ
no_hash key bs = 0

-- A table is its number.
abbrev open_table : ℕ → Bytes → Result ℕ
open_table id file = ok id

abbrev frozen : Memtable sorted_list
frozen =
    Memtable.put_batch sorted_list (Memtable.new sorted_list)
      ((record { lsn = 3; bytes = 7 ∷ [] }, tombstone) ∷ [])

abbrev manifest : Manifest
manifest = record {
  wals = 5 ∷ 6 ∷ [];
  levels = [];
  next_wal_id = 7;
  next_sstable_id = 9;
  version = 1;
}

abbrev version : DbVersion sorted_list ℕ
version = record {
  next_lsn = 4;
  mutable_memtable = Memtable.new sorted_list;
  frozen_memtables = frozen ∷ [];
  mutable_wal = 6;
  sstables = [];
}

abbrev quiet : Meanwhile
quiet = record { manifest = λ k m. m; files = λ k d. d }

abbrev same_version : DbVersion sorted_list ℕ → DbVersion sorted_list ℕ
same_version v = v

-- The table 1 has an older value for the key that is flushed to the table 9.
abbrev search_numbered : ℕ → Bytes → Result (Option Value)
search_numbered id key = if id == 1 then ok (some (int (negsuc 4))) else ok (some tombstone)

abbrev version_with_table : DbVersion sorted_list ℕ
version_with_table = record version { sstables = (1 ∷ []) ∷ [] }

flush_version_hides_example :
    get sorted_list ℕ search_numbered
      (flush_version sorted_list ℕ 1 (9 ∷ []) version_with_table)
      (7 ∷ [])
    ≡ ok (some (int (negsuc 4)))
unfolding Memtable.get Db.search_frozen Memtable.new
flush_version_hides_example =
    flush_version_hides sorted_list ℕ search_numbered 1 (9 ∷ []) version_with_table 1 [] [] (7 ∷ [])
      (int (negsuc 4)) refl refl refl refl

-- Two frozen memtables, and one number for their tables.
abbrev two_frozen : DbVersion sorted_list ℕ
two_frozen = record version { frozen_memtables = frozen ∷ frozen ∷ [] }

abbrev two_logs : Manifest
two_logs = record manifest { wals = 4 ∷ 5 ∷ 6 ∷ [] }
