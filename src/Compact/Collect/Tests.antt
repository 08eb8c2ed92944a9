-- ===== src/Compact/Collect/Tests.antt =====
-- compact.rs and manifest.rs: a committed manifest outlives a collection and a restart.
use easy_lsm.Base.{◌+◌, [], ◌∷◌, ◌++◌}
use easy_lsm.Error.{Result, ok}
use easy_lsm.Directory
use easy_lsm.Directory.{Directory, mf, wal, sst}
use easy_lsm.Wal.Tests.{sum32}
use easy_lsm.Manifest.{Manifest, Meanwhile, new, apply_atomic_update}
use easy_lsm.Manifest.Commits.{changing}
use easy_lsm.Compact.Collect.{Live}

abbrev push_wal : Manifest → Result Manifest
push_wal m = ok (record m { wals = m.wals ++ (7 ∷ []) })

-- Another thread takes a table id, and leaves the version.
abbrev reserve : Meanwhile
reserve = record {
  manifest = λ k m. record m { next_sstable_id = m.next_sstable_id + 1 };
  files = λ k d. d;
}

abbrev pushed : Manifest
pushed = record {
  wals = 3 ∷ 7 ∷ [];
  levels = [];
  next_wal_id = 4;
  next_sstable_id = 0;
  version = 1;
}

-- A log and a table that nothing refers to, and an older manifest.
abbrev directory : Directory
directory = (mf 0, []) ∷ (wal 2, []) ∷ (sst 9, []) ∷ (wal 3, 1 ∷ []) ∷ []

abbrev live : Live
live = record { wals = 3 ∷ 7 ∷ []; ssts = [] }

abbrev committed : Directory
unfolding apply_atomic_update
committed = (apply_atomic_update sum32 (changing push_wal) reserve (new 3) directory).2
