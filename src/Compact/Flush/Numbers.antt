-- ===== src/Compact/Flush/Numbers.antt =====
-- The table numbers that a flush uses and those that it reserves.
use easy_lsm.Base.{ℕ, ◌≡◌}
use easy_lsm.Error.{Result}
use easy_lsm.Codec.{Bytes, Loggable}
use easy_lsm.BloomFilter.{BloomFilter}
use easy_lsm.SkipMap.{SkipMap}
use easy_lsm.Memtable
use easy_lsm.Memtable.{Memtable}
use easy_lsm.Directory
use easy_lsm.Directory.{Directory}
use easy_lsm.Manifest.{Manifest, Meanwhile, KeepTables}
use easy_lsm.Db.{DbVersion}

module _ (skip_map : SkipMap) (Table : Type 0) (crc32 : Bytes → ℕ) (sip_hash : ℕ × ℕ → Bytes → ℕ)
    (bloom_loggable : Loggable BloomFilter) (new_filter : BloomFilter)
    (open_table : ℕ → Bytes → Result Table) (others : Meanwhile)
    (writers : DbVersion skip_map Table → DbVersion skip_map Table) (keeps : KeepTables others)
    (reserve_none : (k : ℕ) (m : Manifest)
      → (others.manifest k m).next_sstable_id ≡ m.next_sstable_id) where
  abbrev Reserves : ℕ → Result (Unit {0}) × Manifest × Directory × DbVersion skip_map Table → Type 0
  Reserves n (r, m, d, v) = m.next_sstable_id ≡ n
