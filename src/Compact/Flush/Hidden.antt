-- ===== src/Compact/Flush/Hidden.antt =====
-- What readers find after a flush when level 0 holds an older version of a key.
use easy_lsm.Base.{ℕ, List, ◌∷◌, drop, Option, some, none, ◌≡◌}
use easy_lsm.Error.{Result, ok}
use easy_lsm.Codec.{Bytes}
use easy_lsm.Value.{Value}
use easy_lsm.SkipMap.{SkipMap}
use easy_lsm.Memtable
use easy_lsm.Db.{DbVersion, get, search_frozen, search_levels, search_level}
use easy_lsm.Compact.Flush.{flush_version, push_tables}

-- A flush hides what it writes behind older versions. Where the first table of level 0 has a value
-- for a key, and the memtables that are not flushed have none, that old value is the answer after
-- the flush, whatever the new tables hold for the key: they stand behind it in level 0.
pub flush_version_hides :
    (skip_map : SkipMap) (Table : Type 0) (search : Table → Bytes → Result (Option Value))
    (num_flushed : ℕ) (new_sst_objs : List Table) (v : DbVersion skip_map Table) (t : Table)
    (ts : List Table) (ls : List (List Table)) (k : Bytes) (val : Value)
    → v.sstables ≡ (t ∷ ts) ∷ ls
    → Memtable.get skip_map v.mutable_memtable k ≡ none
    → search_frozen skip_map Table (drop num_flushed v.frozen_memtables) k ≡ none
    → search t k ≡ ok (some val)
    → get skip_map Table search (flush_version skip_map Table num_flushed new_sst_objs v) k
      ≡ ok (some val)
unfolding get flush_version push_tables search_levels search_level
flush_version_hides skip_map Table search num_flushed new_sst_objs v t ts ls k val e m f h =
    rw e (rw (m, get) (rw (f, get) (rw (h, get))))
