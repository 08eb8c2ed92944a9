-- ===== src/Write/Stranded.antt =====
-- A failed write to the log drops its ticket at once, whoever's turn it is at the memtable. The
-- turn then passes the leader that had it.
use easy_lsm.Base.{ℕ, ◌≤◌, ◌<◌, ◌≡◌, refl, arith, some}
use easy_lsm.Error.{DbError}
use easy_lsm.Write.{
  World, Stage, Choice, step, Reach, here, later, act, GroupGuard, waiting_to_be_queued,
  leader_holding_ticket, leader_waiting_to_write_memtable,
}

-- No step takes a turn back.
act-turn_grows :
    (c : Choice) (i : ℕ) (s : Stage) (w w' : World)
    → act c i s w ≡ some w'
    → w.syncs.ticket_to_mem ≤ w'.syncs.ticket_to_mem
unfolding act
act-turn_grows c i (waiting_to_be_queued key value) w w' h = ground arith
act-turn_grows c i s w w' h = ground arith

-- A leader whose ticket has been passed stays where it is.
act-passed :
    (c : Choice) (i : ℕ) (s : Stage) (w w' : World) (j t : ℕ) (g : GroupGuard)
    → w.stage i ≡ s
    → act c i s w ≡ some w'
    → w.stage j ≡ leader_waiting_to_write_memtable g t
    → t < w.syncs.ticket_to_mem
    → w'.stage j ≡ leader_waiting_to_write_memtable g t
unfolding act
act-passed c i (waiting_to_be_queued key value) w w' j t g e h k lt = ground arith
act-passed c i s w w' j t g e h k lt = ground arith

pub passed_for_good :
    {w w' : World} (j t : ℕ) (g : GroupGuard)
    → w.stage j ≡ leader_waiting_to_write_memtable g t
    → t < w.syncs.ticket_to_mem
    → Reach w w'
    → (w'.stage j ≡ leader_waiting_to_write_memtable g t) × (t < w'.syncs.ticket_to_mem)
passed_for_good j t g e lt here = (e, lt)
passed_for_good j t g e lt (later {w = u} {w' = x} r (step c i h)) =
    let (stay, past) = passed_for_good j t g e lt r in
    (
      act-passed c i (u.stage i) u x j t g refl h stay past,
      omega (arith, act-turn_grows c i (u.stage i) u x h),
    )

failed_write_passes :
    (c : Choice) (i j t t' l : ℕ) (g g' : GroupGuard) (x : DbError) (w w' : World)
    → w.stage j ≡ leader_waiting_to_write_memtable g t
    → w.syncs.ticket_to_mem ≡ t
    → w.stage i ≡ leader_holding_ticket g' t' l
    → c.wal_error ≡ some x
    → act c i (leader_holding_ticket g' t' l) w ≡ some w'
    → (w'.stage j ≡ leader_waiting_to_write_memtable g t) × (t < w'.syncs.ticket_to_mem)
unfolding act
failed_write_passes c i j t t' l g g' x w w' e turn holds fails h = ground arith

-- Where a leader waits for the memtable with the ticket whose turn it is, and another writer's
-- write to the log fails before it goes on, it waits in every world that any further steps lead to.
pub failed_wal_write_strands :
    (c : Choice) (i j t t' l : ℕ) (g g' : GroupGuard) (x : DbError) (w w' w'' : World)
    → w.stage j ≡ leader_waiting_to_write_memtable g t
    → w.syncs.ticket_to_mem ≡ t
    → w.stage i ≡ leader_holding_ticket g' t' l
    → c.wal_error ≡ some x
    → act c i (w.stage i) w ≡ some w'
    → Reach w' w''
    → w''.stage j ≡ leader_waiting_to_write_memtable g t
failed_wal_write_strands c i j t t' l g g' x w w' w'' e turn holds fails h r =
    (passed_for_good j t g (passed.0) (passed.1) r).0
  where
    passed : (w'.stage j ≡ leader_waiting_to_write_memtable g t) × (t < w'.syncs.ticket_to_mem)
    passed = failed_write_passes c i j t t' l g g' x w w' e turn holds fails (rw holds at h)
