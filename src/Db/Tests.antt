-- ===== src/Db/Tests.antt =====
-- lib.rs on a sorted list, with no tables.
use easy_lsm.Base.{ℕ, ◌≡◌, refl, arith, [], ◌∷◌, Option, none, some}
use easy_lsm.Error.{Result, ok}
use easy_lsm.Codec.{Bytes, vec, uint, to_le_bytes, read_exact, from_le_bytes}
use easy_lsm.Key
use easy_lsm.Value.{Value}
use easy_lsm.Entry.{newest}
use easy_lsm.SkipMap.{sorted_list}
use easy_lsm.Memtable
use easy_lsm.Memtable.{Memtable, visible, put_batch, entries}
use easy_lsm.Memtable.Lookup.{put_batch-IsValid, new-IsValid}
use easy_lsm.Directory
use easy_lsm.Directory.{Directory, wal, mf}
use easy_lsm.Manifest
use easy_lsm.Manifest.{Manifest}
use easy_lsm.Wal
use easy_lsm.Wal.Tests.{sum32, sum32-lt, put_a, del_b, batches, batches-Fits}
use easy_lsm.Wal.Torn.{session, in_order}
use easy_lsm.Db.{DbVersion, get, rotate_commit, replay_mutable_wal, last_lsn}
use easy_lsm.Db.Recover.{replay_mutable_wal-session}
use easy_lsm.Db.Read.{get-mutable}
use easy_lsm.Manifest.Update.{reopened, try_open_lem}
use easy_lsm.Db.Open.{Db, open_db}
use easy_lsm.Db.Logs.{answer}
use easy_lsm.Db.Reopen.{reopen_logs}
use easy_lsm.Db.Rotate.{rotate_twice}

abbrev log : Directory
log = (wal 3, session sum32 batches) ∷ []

replay_mutable_wal-session_example :
    (m : Memtable sorted_list) × (lsn : ℕ) × (replay_mutable_wal sorted_list (Unit {0}) sum32 3 log
      ≡ ok (m, lsn))
    × ((k : Bytes)
        → Memtable.get sorted_list m k ≡ visible (newest k none (in_order sum32 batches)))
unfolding Directory.read Directory.same
replay_mutable_wal-session_example =
    replay_mutable_wal-session sorted_list (Unit {0}) sum32 sum32-lt 3 log batches batches-Fits refl

abbrev no_table : Unit {0} → Bytes → Result (Option Value)
no_table t k = ok none

abbrev mutable : Memtable sorted_list
mutable = put_batch sorted_list (Memtable.new sorted_list) (put_a ∷ del_b ∷ [])

abbrev version : DbVersion sorted_list (Unit {0})
version = record {
  next_lsn = 7;
  mutable_memtable = mutable;
  frozen_memtables = [];
  mutable_wal = 3;
  sstables = [];
}

-- The key was deleted, and is answered from what is older.
get-mutable_example :
    get sorted_list (Unit {0}) no_table version (98 ∷ 98 ∷ [])
    ≡ get sorted_list
        (Unit {0})
        no_table
        (record version { mutable_memtable = Memtable.new sorted_list })
        (98 ∷ 98 ∷ [])
unfolding visible Key.eq_bytes Key.cmp Key.cmp_bytes entries put_batch Memtable.new Memtable.recover
get-mutable_example = get-mutable sorted_list (Unit {0}) no_table version (98 ∷ 98 ∷ []) (
    put_batch-IsValid sorted_list (Memtable.new sorted_list) (put_a ∷ del_b ∷ [])
      (omega arith, (omega arith, tt)) (new-IsValid sorted_list))

abbrev after_one : Manifest
after_one = record (Manifest.new 3) { wals = 3 ∷ 4 ∷ [] }

abbrev after_two : Manifest
after_two = record (Manifest.new 3) { wals = 3 ∷ 4 ∷ 4 ∷ []; version = 1 }

abbrev with_log : Directory
with_log = (wal 4, 0xbe ∷ 0xba ∷ 0xfe ∷ 0xca ∷ []) ∷ []

rotate_twice_example : after_two.wals ≡ 3 ∷ 4 ∷ 4 ∷ []
unfolding rotate_commit Manifest.open_wal Manifest.new Directory.read Directory.same Directory.put
    Directory.remove Wal.open_writable uint to_le_bytes read_exact from_le_bytes
rotate_twice_example =
    rotate_twice sorted_list (Unit {0}) sum32 (Manifest.new 3) after_one after_two 1 [] with_log
      with_log refl refl

abbrev two_logs : Manifest
two_logs = record {
  wals = 3 ∷ 4 ∷ [];
  levels = [];
  next_wal_id = 5;
  next_sstable_id = 1;
  version = 1;
}

two_logs-Fits : Manifest.Fits two_logs
unfolding Manifest.encode_body vec uint to_le_bytes
two_logs-Fits = record {
  wal_ids = (omega arith, (omega arith, tt));
  wal_count = omega arith;
  level_count = omega arith;
  level_sizes = tt;
  body_size = omega arith;
}

-- After a rotation, before the next write.
abbrev rotated : Directory
rotated = (mf 1, (Manifest.loggable sum32).encode two_logs) ∷ (wal 4, session sum32 []) ∷ log

listed : Directory.read (mf 1) rotated ≡ some ((Manifest.loggable sum32).encode two_logs)
unfolding Directory.read Directory.same
listed = refl

abbrev open_none : ℕ → Bytes → Result (Unit {0})
open_none id file = ok tt

-- The LSNs start at 1 again, below those of the first log.
reopen_logs_example :
    (db : Db sorted_list (Unit {0}) sum32 open_none) × (open_db sorted_list
        (Unit {0})
        sum32
        open_none
        (some rotated)
      ≡ ok db)
    × (db.write_sync.next_lsn ≡ 1)
    × ((k : Bytes)
        → get sorted_list (Unit {0}) no_table db.current k
          ≡ ok (answer sorted_list (Unit {0}) sum32 ((3, batches) ∷ (4, []) ∷ []) k))
unfolding Manifest.latest Directory.read Directory.same last_lsn
reopen_logs_example =
    reopen_logs sorted_list (Unit {0}) sum32 sum32-lt open_none no_table rotated 1
      (reopened sum32 two_logs) ((3, batches) ∷ []) 4 [] refl
      (try_open_lem sum32 two_logs rotated two_logs-Fits (sum32-lt (Manifest.encode_body two_logs))
        listed)
      refl refl (refl, batches-Fits, tt) tt refl
