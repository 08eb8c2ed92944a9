-- ===== src/Compact/Flush/Tables.antt =====
-- The tables that a flush writes: one for each memtable, and each stays as it was written.
use easy_lsm.Base.{ℕ, ◌+◌, ◌<◌, arith, List, [], ◌∷◌, ◌≡◌, refl, ap, ◌∙◌}
use easy_lsm.Codec.{Bytes, Loggable}
use easy_lsm.Entry.{Entry}
use easy_lsm.BloomFilter.{BloomFilter}
use easy_lsm.SkipMap.{SkipMap}
use easy_lsm.Memtable
use easy_lsm.Memtable.{Memtable}
use easy_lsm.Directory
use easy_lsm.Directory.{Directory, sst, read-put, read-put_newer}
use easy_lsm.Manifest.{FileMetadata}
use easy_lsm.Sstable.Whole.{written}
use easy_lsm.Compact.Output.Stored.{metas_of, Stored}
use easy_lsm.Compact.Flush.{flush_tables}

module _ (skip_map : SkipMap) where
  abbrev pub chunks_of : List (Memtable skip_map) → List (List Entry)
  chunks_of [] = []
  chunks_of (m ∷ ms) = Memtable.entries skip_map m ∷ chunks_of ms

  module _ (Table : Type 0) (crc32 : Bytes → ℕ) (sip_hash : ℕ × ℕ → Bytes → ℕ)
      (bloom_loggable : Loggable BloomFilter) (new_filter : BloomFilter) where
    flush_tables_keeps :
        (id n : ℕ) (ms : List (Memtable skip_map)) (d : Directory)
        → id < n
        → Directory.read
            (sst id)
            (flush_tables skip_map Table crc32 sip_hash bloom_loggable new_filter n ms d).1
          ≡ Directory.read (sst id) d
    unfolding flush_tables
    flush_tables_keeps id n [] d h = refl
    flush_tables_keeps id n (m ∷ ms) d h =
        flush_tables_keeps id (n + 1) ms _ (omega arith) ∙ read-put_newer id n _ d h

    pub flush_tables-metas_of :
        (id : ℕ) (ms : List (Memtable skip_map)) (d : Directory)
        → (flush_tables skip_map Table crc32 sip_hash bloom_loggable new_filter id ms d).0
          ≡ metas_of crc32 sip_hash bloom_loggable new_filter id (chunks_of ms)
    unfolding flush_tables
    flush_tables-metas_of id [] d = refl
    flush_tables-metas_of id (m ∷ ms) d =
        let c = written crc32 sip_hash bloom_loggable new_filter (Memtable.entries skip_map m) in
        ap (λ (l : List FileMetadata). record (c.0) { file_id = id } ∷ l)
          (flush_tables-metas_of (id + 1) ms (Directory.put (sst id) c.1 d))

    pub flush_tables-Stored :
        (id : ℕ) (ms : List (Memtable skip_map)) (d : Directory)
        → Stored crc32 sip_hash bloom_loggable new_filter id
            (chunks_of ms)
            (flush_tables skip_map Table crc32 sip_hash bloom_loggable new_filter id ms d).1
    unfolding flush_tables
    flush_tables-Stored id [] d = tt
    flush_tables-Stored id (m ∷ ms) d =
        let c = written crc32 sip_hash bloom_loggable new_filter (Memtable.entries skip_map m) in
        let d' = Directory.put (sst id) c.1 d in
        (
          flush_tables_keeps id (id + 1) ms d' (omega arith) ∙ read-put (sst id) c.1 d,
          flush_tables-Stored (id + 1) ms d',
        )
