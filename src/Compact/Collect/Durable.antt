-- ===== src/Compact/Collect/Durable.antt =====
-- A committed manifest is the one that a restart finds, also after the collection of garbage.
use easy_lsm.Base.{ℕ, ◌≡◌}
use easy_lsm.Error.{Result, ok}
use easy_lsm.Codec.{Bytes}
use easy_lsm.Directory
use easy_lsm.Directory.{Directory, FileName, mf, wal, sst, other, same, same_eq, read-remove}
use easy_lsm.Manifest.{Manifest, Meanwhile, loggable}
use easy_lsm.Compact.Collect.{versions}
use easy_lsm.Compact.Collect.Newest.{Older}

module _ (crc32 : Bytes → ℕ) where
  -- A directory with the file of the manifest `m` put before manifests that are all older.
  abbrev IsTop : Manifest → Directory → Type 0
  IsTop m d' =
      (d0 : Directory) × (d' ≡ Directory.put (mf m.version) ((loggable crc32).encode m) d0)
      × Older m.version (versions d0)

  abbrev Tops : Manifest → Result Manifest × Manifest × Directory → Type 0
  Tops m (r, shared, d') = r ≡ ok m → IsTop m d'

  -- Other threads add no manifest of the version of `m` or above.
  abbrev pub KeepOlder : Meanwhile → Manifest → Type 0
  KeepOlder others m =
      (k : ℕ) (d : Directory)
      → Older m.version (versions d)
      → Older m.version (versions (others.files k d))
