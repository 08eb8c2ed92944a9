-- ===== src/Db/Reopen.antt =====
-- lib.rs: a database opened from several logs, the last of which writes go on in.
use easy_lsm.Base.{
  ℕ, ◌+◌, ◌^◌, ◌<◌, List, [], ◌∷◌, ◌++◌, Option, none, some, ◌≡◌, refl, sym, ap, All, Option-cases,
  inl, inr,
}
use easy_lsm.Error.{Result, ok}
use easy_lsm.Codec.{Bytes}
use easy_lsm.Value.{Value}
use easy_lsm.Entry.{Entry, Fits, newest}
use easy_lsm.SkipMap.{SkipMap}
use easy_lsm.Memtable.{visible}
use easy_lsm.Directory
use easy_lsm.Directory.{Directory, wal}
use easy_lsm.Manifest.{Manifest, latest, try_open}
use easy_lsm.Wal.Torn.{session, in_order, read_log-session}
use easy_lsm.Write.{new_syncs}
use easy_lsm.Db.{
  DbVersion, recover_state, recover_tables, open_levels, last, all_but_last, get, search_levels,
  last_lsn,
}
use easy_lsm.Db.Recover.{replay_lem, get_replayed, All-in_order}
use easy_lsm.Db.Open.{Db, open_db, open_wal-session, recover_or_init_lem}
use easy_lsm.Db.Logs.{
  Log, numbers, last-append, all_but_last-append, Logged, shown, answer, answer-append_some,
  answer-append_none, replayed, frozen, replay_frozen-session, search_frozen-session,
}

module _ (skip_map : SkipMap) (Table : Type 0) (crc32 : Bytes → ℕ)
    (crc32_u32 : (bs : Bytes) → crc32 bs < 2 ^ 32) (open_table : ℕ → Bytes → Result Table) where
  -- What a recovery makes of the logs `logs`, and of the last one.
  abbrev recovered : List Log → ℕ → List (List Entry) → DbVersion skip_map Table
  recovered logs id batches = record {
    next_lsn = last_lsn skip_map Table crc32 (in_order crc32 batches) + 1;
    mutable_memtable = replayed skip_map Table crc32 batches;
    frozen_memtables = frozen skip_map Table crc32 logs;
    mutable_wal = id;
    sstables = [];
  }

  recover_state-session :
      (d : Directory) (m : Manifest) (logs : List Log) (id : ℕ) (batches : List (List Entry))
      → m.wals ≡ numbers logs ++ (id ∷ [])
      → m.levels ≡ []
      → Logged skip_map Table crc32 d logs
      → All (All Fits) batches
      → Directory.read (wal id) d ≡ some (session crc32 batches)
      → recover_state skip_map Table crc32 open_table m d
        ≡ ok (recovered logs id batches, Directory.put (wal id) (session crc32 batches) d)
  unfolding recover_state recover_tables open_levels
  recover_state-session d m logs id batches wals levels logged fits e =
      let newest_log : last m.wals ≡ some id = rw wals (last-append (numbers logs) id) in
      let earlier : all_but_last m.wals ≡ numbers logs =
        rw wals (all_but_last-append (numbers logs) id) in
      let mutable =
        replay_lem skip_map Table crc32 id d (session crc32 batches) (in_order crc32 batches) e
          (read_log-session crc32 crc32_u32 batches fits) in
      rw (newest_log, recover_state)
        (rw (earlier, recover_state)
          (rw (replay_frozen-session skip_map Table crc32 crc32_u32 d logs logged, recover_state)
            (rw (mutable, recover_state)
              (rw (open_wal-session skip_map Table crc32 open_table id d batches e, recover_tables)
                (rw (levels, recover_tables))))))

  get-recovered :
      (search : Table → Bytes → Result (Option Value)) (d : Directory) (logs : List Log) (id : ℕ)
      (batches : List (List Entry)) (k : Bytes)
      → Logged skip_map Table crc32 d logs
      → All (All Fits) batches
      → get skip_map Table search (recovered logs id batches) k
        ≡ ok (answer skip_map Table crc32 (logs ++ ((id, batches) ∷ [])) k)
  unfolding get search_levels
  get-recovered search d logs id batches k logged fits =
      let here =
        get_replayed skip_map Table crc32 k (in_order crc32 batches)
          (All-in_order skip_map Table crc32 batches fits) in
      elim (Option-cases (shown skip_map Table crc32 batches k)) [
        | inr (val, q) ↦
            rw (here, get)
              (rw (q, get)
                (ap ok (sym (answer-append_some skip_map Table crc32 logs id batches k val q))))
        | inl q ↦
            let found = search_frozen-session skip_map Table crc32 crc32_u32 d logs k logged in
            rw (here, get)
              (rw (q, get)
                (rw (found, get)
                  (rw (answer-append_none skip_map Table crc32 logs id batches k q)
                    (elim (Option-cases (answer skip_map Table crc32 logs k)) [
                      | inl none_there ↦ rw (none_there, get)
                      | inr (val, there) ↦ rw (there, get)
                    ]))))
      ]

  -- Opening a database whose latest manifest lists any number of logs and no tables, where each
  -- log is what writes of whole batches made of it, succeeds. Every get then answers with what
  -- the newest log that shows a value for the key shows: the newest version among its writes,
  -- unless that is a tombstone. The next LSN is one above that of the last entry of the last
  -- log alone, which is taken as 0 where that log has no entry. The keys and values fit their
  -- length fields, and the checksum 32 bits.
  pub reopen_logs :
      (search : Table → Bytes → Result (Option Value)) (d : Directory) (version : ℕ) (m : Manifest)
      (logs : List Log) (id : ℕ) (batches : List (List Entry))
      → latest d ≡ some version
      → try_open crc32 version d ≡ ok m
      → m.wals ≡ numbers logs ++ (id ∷ [])
      → m.levels ≡ []
      → Logged skip_map Table crc32 d logs
      → All (All Fits) batches
      → Directory.read (wal id) d ≡ some (session crc32 batches)
      → (db : Db skip_map Table crc32 open_table) × (open_db skip_map Table crc32 open_table
            (some d)
          ≡ ok db)
        × (db.write_sync.next_lsn ≡ last_lsn skip_map Table crc32 (in_order crc32 batches) + 1)
        × ((k : Bytes)
            → get skip_map Table search db.current k
              ≡ ok (answer skip_map Table crc32 (logs ++ ((id, batches) ∷ [])) k))
  unfolding open_db new_syncs
  reopen_logs search d version m logs id batches newest_mf opened wals levels logged fits e = (
    record {
      current = recovered logs id batches;
      write_sync = new_syncs (recovered logs id batches).next_lsn;
      manifest = m;
      db_dir = Directory.put (wal id) (session crc32 batches) d;
    },
    rw (recover_or_init_lem skip_map Table crc32 open_table d version m newest_mf opened, open_db)
        (rw (recover_state-session d m logs id batches wals levels logged fits e, open_db)),
    refl,
    λ k. get-recovered search d logs id batches k logged fits,
  )

  -- The case of one log.
  get-open_db :
      (search : Table → Bytes → Result (Option Value)) (d : Directory) (version id : ℕ)
      (m : Manifest) (batches : List (List Entry)) (k : Bytes)
      → latest d ≡ some version
      → try_open crc32 version d ≡ ok m
      → m.wals ≡ id ∷ []
      → m.levels ≡ []
      → Directory.read (wal id) d ≡ some (session crc32 batches)
      → All (All Fits) batches
      → (db : Db skip_map Table crc32 open_table) × (open_db skip_map Table crc32 open_table
            (some d)
          ≡ ok db)
        × (get skip_map Table search db.current k
            ≡ ok (visible (newest k none (in_order crc32 batches))))
  get-open_db search d version id m batches k newest_mf opened wals levels e fits =
      let (db, is_open, lsn, answers) =
        reopen_logs search d version m [] id batches newest_mf opened wals levels tt fits e in
      (db, is_open, answers k)
