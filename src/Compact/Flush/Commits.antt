-- ===== src/Compact/Flush/Commits.antt =====
-- What a flush commits, and that the tables which it wrote outlive its commit.
use easy_lsm.Base.{ℕ, List}
use easy_lsm.Error.{Result}
use easy_lsm.Codec.{Bytes, Loggable}
use easy_lsm.BloomFilter.{BloomFilter}
use easy_lsm.SkipMap.{SkipMap}
use easy_lsm.Directory.{Directory}
use easy_lsm.Manifest.{Manifest, Meanwhile, KeepTables, FileMetadata, apply_atomic_update}
use easy_lsm.Manifest.Commits as Generic
use easy_lsm.Manifest.Commits.{Commits}
use easy_lsm.Compact.Commit.{flush_commit}
use easy_lsm.Compact.Flush.{flush_mutator}

module _ (skip_map : SkipMap) (Table : Type 0) (crc32 : Bytes → ℕ) (sip_hash : ℕ × ℕ → Bytes → ℕ)
    (bloom_loggable : Loggable BloomFilter) (new_filter : BloomFilter)
    (open_table : ℕ → Bytes → Result Table) (new_sstables : List FileMetadata) (wals : List ℕ)
    (others : Meanwhile) (keeps : KeepTables others) where
  pub apply_atomic_update-Commits :
      (shared : Manifest) (d : Directory)
      → Commits crc32 (flush_commit new_sstables wals) others 3 shared d (
          apply_atomic_update crc32
            (flush_mutator skip_map Table crc32 sip_hash bloom_loggable new_filter open_table
              new_sstables wals)
            others
            shared
            d)
  unfolding flush_mutator
  apply_atomic_update-Commits shared d =
      Generic.apply_atomic_update-Commits crc32 (flush_commit new_sstables wals) others keeps shared
        d
