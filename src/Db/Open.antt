-- ===== src/Db/Open.antt =====
-- lib.rs, `Db::new` without its threads, and `put` and `del` up to the writer that they start.
use easy_lsm.Base.{ℕ, List, Option, none, some, ◌≡◌}
use easy_lsm.Error.{Result, ok, err, directory_not_found}
use easy_lsm.Codec.{Bytes}
use easy_lsm.Key
use easy_lsm.Value.{Value, tombstone}
use easy_lsm.Entry.{Entry}
use easy_lsm.SkipMap.{SkipMap}
use easy_lsm.Directory
use easy_lsm.Directory.{Directory, wal}
use easy_lsm.Manifest
use easy_lsm.Manifest.{Manifest, latest, try_open, recover_or_init}
use easy_lsm.Wal.Torn.{session, open_writable-session}
use easy_lsm.Write.{WriteSyncs, new_syncs}
use easy_lsm.Db.{DbVersion, recover_state}

-- What `put` hands to `write`: the LSN is given out when the log is written.
unfoldable pub put : Bytes → Value → Entry
put key value = (Key.new key 0, value)

unfoldable pub del : Bytes → Entry
unfolding put
del key = put key tombstone

module _ (skip_map : SkipMap) (Table : Type 0) (crc32 : Bytes → ℕ)
    (open_table : ℕ → Bytes → Result Table) where
  -- The parts of a `Db` that other code reads; `none` is a path that does not exist.
  pub record Db : Type 0 where
    pub current : DbVersion skip_map Table
    pub write_sync : WriteSyncs
    pub manifest : Manifest
    pub db_dir : Directory

  unfoldable pub open_db : Option Directory → Result Db
  open_db none = err (directory_not_found "db_dir")
  open_db (some d) = elim (recover_or_init crc32 d) [
    | err e ↦ err e
    | ok (m, d') ↦ elim (recover_state skip_map Table crc32 open_table m d') [
      | err e ↦ err e
      | ok (v, d'') ↦
          ok (record { current = v; write_sync = new_syncs v.next_lsn; manifest = m; db_dir = d'' })
    ]
  ]

  pub open_wal-session :
      (id : ℕ) (d : Directory) (batches : List (List Entry))
      → Directory.read (wal id) d ≡ some (session crc32 batches)
      → Manifest.open_wal crc32 id d ≡ ok (Directory.put (wal id) (session crc32 batches) d)
  unfolding Manifest.open_wal
  open_wal-session id d batches e =
      rw (e, Manifest.open_wal) (rw (open_writable-session crc32 batches))

  pub recover_or_init_lem :
      (d : Directory) (version : ℕ) (m : Manifest)
      → latest d ≡ some version
      → try_open crc32 version d ≡ ok m
      → recover_or_init crc32 d ≡ ok (m, d)
  unfolding recover_or_init
  recover_or_init_lem d version m newest_mf opened =
      rw (newest_mf, recover_or_init) (rw (opened, recover_or_init))
