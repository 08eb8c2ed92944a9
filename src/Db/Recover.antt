-- ===== src/Db/Recover.antt =====
-- lib.rs: what a restart reads back of the log that was written, up to the answers of `get`.
use easy_lsm.Base.{
  ℕ, ◌^◌, ◌<◌, List, [], ◌∷◌, Option, none, some, ◌≡◌, refl, ◌∙◌, ap, All, All-append,
}
use easy_lsm.Error.{ok}
use easy_lsm.Codec.{Bytes}
use easy_lsm.Entry.{Entry, Fits, newest}
use easy_lsm.SkipMap.{SkipMap}
use easy_lsm.Memtable
use easy_lsm.Memtable.{Memtable, put_batch, visible, entries}
use easy_lsm.Memtable.Lookup.{new-IsValid, get-put_batch, Lsn64, first_of-new}
use easy_lsm.Wal.{read_log}
use easy_lsm.Wal.Torn.{session, in_order, read_log-session}
use easy_lsm.Directory
use easy_lsm.Directory.{Directory, wal}
use easy_lsm.Db.{replay, read_wal, last_lsn, replay_mutable_wal}

module _ (skip_map : SkipMap) (Table : Type 0) (crc32 : Bytes → ℕ) where
  pub replay-put_batch :
      (es : List Entry) (m : Memtable skip_map)
      → replay skip_map Table crc32 es m ≡ put_batch skip_map m es
  unfolding replay put_batch
  replay-put_batch [] m = refl
  replay-put_batch ((key, value) ∷ es) m =
      replay-put_batch es (Memtable.recover skip_map m key value)

  pub replay_lem :
      (id : ℕ) (d : Directory) (file : Bytes) (es : List Entry)
      → Directory.read (wal id) d ≡ some file
      → read_log crc32 file ≡ some (ok es)
      → replay_mutable_wal skip_map Table crc32 id d
        ≡ ok (put_batch skip_map (Memtable.new skip_map) es, last_lsn skip_map Table crc32 es)
  unfolding replay_mutable_wal read_wal
  replay_lem id d file es e p =
      let all : read_wal skip_map Table crc32 id d ≡ ok es = rw (e, read_wal) (rw p) in
      rw (all, replay_mutable_wal) (rw (replay-put_batch es (Memtable.new skip_map)))

  Lsn64-Fits : (es : List Entry) → All Fits es → Lsn64 es
  Lsn64-Fits [] h = tt
  Lsn64-Fits ((key, value) ∷ es) ((fk, fv), h) = (fk.lsn_u64, Lsn64-Fits es h)

  -- The memtable that `es` are replayed into shows of a key the newest version among them.
  pub get_replayed :
      (k : Bytes) (es : List Entry)
      → All Fits es
      → Memtable.get skip_map (put_batch skip_map (Memtable.new skip_map) es) k
        ≡ visible (newest k none es)
  get_replayed k es h =
      get-put_batch skip_map (Memtable.new skip_map) es k (Lsn64-Fits es h) (new-IsValid skip_map)
      ∙ ap (λ (o : Option Entry). visible (newest k o es)) (first_of-new skip_map k)

  pub All-in_order :
      (batches : List (List Entry)) → All (All Fits) batches → All Fits (in_order crc32 batches)
  All-in_order [] h = tt
  All-in_order (batch ∷ earlier) (p, h) =
      All-append Fits (in_order crc32 earlier) batch (All-in_order earlier h) p

  module _ (crc32_u32 : (bs : Bytes) → crc32 bs < 2 ^ 32) where
    -- Recovery: where the log of a directory is what writes of whole batches made of it, replaying
    -- it gives a memtable, and that memtable answers for every key with the newest version among
    -- all the writes, or with nothing where that is a tombstone or there is none. The keys and values
    -- fit their length fields, and the checksum 32 bits.
    pub replay_mutable_wal-session :
        (id : ℕ) (d : Directory) (batches : List (List Entry))
        → All (All Fits) batches
        → Directory.read (wal id) d ≡ some (session crc32 batches)
        → (m : Memtable skip_map) × (lsn : ℕ) × (replay_mutable_wal skip_map Table crc32 id d
            ≡ ok (m, lsn))
          × ((k : Bytes)
              → Memtable.get skip_map m k ≡ visible (newest k none (in_order crc32 batches)))
    replay_mutable_wal-session id d batches h e = (
      put_batch skip_map (Memtable.new skip_map) (in_order crc32 batches),
      last_lsn skip_map Table crc32 (in_order crc32 batches),
      replay_lem id d (session crc32 batches) (in_order crc32 batches) e
          (read_log-session crc32 crc32_u32 batches h),
      λ k. get_replayed k (in_order crc32 batches) (All-in_order batches h),
    )
