-- ===== src/Compact/Flush/Whole.antt =====
-- A flush as a whole: what is in the manifest and on disk when it succeeds.
use easy_lsm.Base.{
  ℕ, ◌+◌, ◌==◌, List, ◌∷◌, ◌++◌, length, take, drop, ◌≡◌, refl, Bool-cases, inl, inr,
}
use easy_lsm.Error.{Result, ok}
use easy_lsm.Codec.{Bytes, Loggable}
use easy_lsm.Entry.{Entry}
use easy_lsm.BloomFilter.{BloomFilter}
use easy_lsm.SkipMap.{SkipMap}
use easy_lsm.Memtable
use easy_lsm.Memtable.{Memtable}
use easy_lsm.Directory.{Directory}
use easy_lsm.Manifest.Commits.{IsSnapshot}
use easy_lsm.Manifest.{Manifest, Meanwhile, KeepTables}
use easy_lsm.Compact.Select.{files_at}
use easy_lsm.Compact.Output.Stored.{metas_of, Stored}
use easy_lsm.Db.{DbVersion}
use easy_lsm.Compact.Flush.{prepare_flush}

module _ (skip_map : SkipMap) (Table : Type 0) (crc32 : Bytes → ℕ) (sip_hash : ℕ × ℕ → Bytes → ℕ)
    (bloom_loggable : Loggable BloomFilter) (new_filter : BloomFilter) where
  -- The tables of the chunks are on disk and at the end of level 0, after the files of the manifest
  -- that the update found, a snapshot of the shared manifest; its oldest logs, which must be `wals`,
  -- are gone from the list.
  pub record IsFlushOf (others : Meanwhile) (shared : Manifest) (start : ℕ)
      (chunks : List (List Entry)) (wals : List ℕ) (m : Manifest) (d : Directory) : Type 0 where
    pub found : Manifest
    pub snapshot : IsSnapshot others found 3 shared
    pub level0 :
        files_at 0 m.levels
        ≡ files_at 0 found.levels ++ metas_of crc32 sip_hash bloom_loggable new_filter start chunks
    pub oldest : take (length wals) found.wals ≡ wals
    pub newer_wals : m.wals ≡ drop (length wals) found.wals
    pub stored : Stored crc32 sip_hash bloom_loggable new_filter start chunks d

  module _ (open_table : ℕ → Bytes → Result Table) (others : Meanwhile)
      (writers : DbVersion skip_map Table → DbVersion skip_map Table)
      (keeps : KeepTables others) where
    abbrev Flushes :
        Manifest
        → ℕ
        → List (List Entry)
        → List ℕ
        → Result (Unit {0}) × Manifest × Directory × DbVersion skip_map Table
        → Type 0
    Flushes shared start chunks wals (r, m, d, v) =
        r ≡ ok tt → IsFlushOf others shared start chunks wals m d

    pub prepared :
        (f : Memtable skip_map) (fs : List (Memtable skip_map)) (m : Manifest)
        (v : DbVersion skip_map Table)
        → v.frozen_memtables ≡ f ∷ fs
        → (prepare_flush skip_map Table m v).1
          ≡ record m { next_sstable_id = m.next_sstable_id + 1 }
    unfolding prepare_flush
    prepared f fs m v e =
        rw (e, prepare_flush)
          (elim (Bool-cases (length (take (length (f ∷ fs)) m.wals) == length (f ∷ fs))) [
            | inr wrong ↦ rw wrong refl
            | inl right ↦ rw right refl
          ])
