-- ===== src/Write.antt =====
-- write_req.rs, with `WriteSyncs` and `Db::write` of lib.rs: pipelined group commit as a state
-- machine of each writer over shared state. A step runs a writer up to its next wait, or over one
-- critical section; `none` means that it waits on its condition variable. Writers are numbered,
-- and a request carries its writer's number where the source compares the completion's address.
pub mod Family
pub mod Exclusive
pub mod Order
pub mod Rotations
pub mod Lsn
pub mod Acknowledged
pub mod Stranded
pub mod Owed
pub mod Progress
pub mod Steps
mod Tests
use easy_lsm.Base.{
  ℕ, zero, suc, ◌+◌, ◌^◌, ◌<◌, ◌≡◌, List, [], ◌∷◌, ◌++◌, length, map, Bool, true, false, ◌&&◌, ltb,
  ◌==◌, if◌then◌else◌, Option, none, some,
}
use easy_lsm.Error.{Result, DbError, ok, err, writer_panic}
use easy_lsm.Key
use easy_lsm.Key.{Key}
use easy_lsm.Value.{Value}
use easy_lsm.Entry.{Entry}
use easy_lsm.Write.Family.{update}

pub record WriteRequest : Type 0 where
  pub writer : ℕ
  pub key : Key
  pub value : Value

pub data CompletionVariant : Type 0 where
  follower : CompletionVariant
  success : (lsn : ℕ) → CompletionVariant

pub record GroupGuard : Type 0 where
  pub reqs : List WriteRequest
  pub committed_lsn : Option ℕ

pub record WriteSyncs : Type 0 where
  pub write_queue : List WriteRequest
  pub wal_busy : Bool
  pub ticket_to_mem : ℕ
  pub next_ticket : ℕ
  pub next_lsn : ℕ

-- `Writer<State>`; `leader_holding_ticket` is inside `LeaderWritingWal::step`, between its first
-- critical section and the write. The last two are the results of `Db::write`.
pub data Stage : Type 0 where
  waiting_to_be_queued : Key → Value → Stage
  seeking_membership : Stage
  follower_waiting_completion : Stage
  leader_waiting_to_write_wal : GroupGuard → Stage
  leader_writing_wal : GroupGuard → Stage
  leader_holding_ticket : GroupGuard → (ticket_num : ℕ) → (batch_start_lsn : ℕ) → Stage
  leader_waiting_to_write_memtable : GroupGuard → (ticket_num : ℕ) → Stage
  leader_writing_memtable : GroupGuard → (ticket_num : ℕ) → Stage
  leader_finishing_write : GroupGuard → Stage
  succeeded : Stage
  failed : DbError → Stage

-- `wal` and `mem` are the batches whose entries reached a log and a memtable, oldest first, over all
-- the logs and memtables since the opening. A rotation starts a new log and a new memtable:
-- `rotations` has for each of them, oldest first, how many batches had reached the logs and the
-- memtables by then, so that the active ones hold what comes after its last entry.
pub record World : Type 0 where
  pub syncs : WriteSyncs
  pub completion : ℕ → Option (Result CompletionVariant)
  pub stage : ℕ → Stage
  pub wal : List (List WriteRequest)
  pub mem : List (List WriteRequest)
  pub rotations : List (ℕ × ℕ)

-- What the outside decides: whether the log is written, and the result of a rotation, if the memtable
-- is full.
pub record Choice : Type 0 where
  pub wal_error : Option DbError
  pub rotation : Option (Result (Unit {0}))

-- `WriteSyncs::new`
unfoldable pub new_syncs : ℕ → WriteSyncs
new_syncs start_lsn = record {
  write_queue = [];
  wal_busy = false;
  ticket_to_mem = 0;
  next_ticket = 0;
  next_lsn = start_lsn;
}

unfoldable pub notify :
    List WriteRequest
    → Result CompletionVariant
    → (ℕ → Option (Result CompletionVariant))
    → ℕ
    → Option (Result CompletionVariant)
notify [] r f = f
notify (q ∷ qs) r f = notify qs r (update f q.writer (some r))

-- `GroupGuard::drop`
unfoldable pub completion_variant : GroupGuard → Result CompletionVariant
completion_variant g = elim g.committed_lsn [
  | some lsn ↦ ok (success lsn)
  | none ↦ err writer_panic
]

unfoldable pub drop_group : GroupGuard → World → World
unfolding notify completion_variant
drop_group g w = record w { completion = notify g.reqs (completion_variant g) w.completion }

-- `WalGuard::drop` and `TicketGuard::drop`
unfoldable pub drop_wal_guard : World → World
drop_wal_guard w = record w { syncs = record (w.syncs) { wal_busy = false } }

unfoldable pub drop_ticket_guard : World → World
drop_ticket_guard w = record w {
  syncs = record (w.syncs) { ticket_to_mem = w.syncs.ticket_to_mem + 1 };
}

abbrev pub goto : ℕ → Stage → World → World
goto i s w = record w { stage = update w.stage i s }

abbrev pub take_completion : ℕ → World → World
take_completion i w = record w { completion = update w.completion i none }

queue_step : ℕ → Key → Value → World → World
queue_step i key value w = goto i seeking_membership (record w {
  syncs = record (w.syncs) {
    write_queue = w.syncs.write_queue ++ (record { writer = i; key = key; value = value } ∷ []);
  };
})

abbrev pub is_front : ℕ → List WriteRequest → Bool
is_front i [] = false
is_front i (q ∷ qs) = i == q.writer

-- `form_write_group` drains the queue.
form_write_group : WriteSyncs → GroupGuard × WriteSyncs
form_write_group s =
    (record { reqs = s.write_queue; committed_lsn = none }, record s { write_queue = [] })

lead : ℕ → World → World
unfolding form_write_group notify
lead i w =
    let (group, syncs) = form_write_group w.syncs in
    goto i (leader_waiting_to_write_wal group)
      (record w { syncs = syncs; completion = notify group.reqs (ok follower) w.completion })

-- One round of the loop of `SeekingMembership::step`.
seek_step : ℕ → World → Option World
unfolding lead
seek_step i w = elim (w.completion i) [
  | some (ok follower) ↦ some (goto i follower_waiting_completion (take_completion i w))
  | some (ok (success lsn)) ↦ some (goto i succeeded (take_completion i w))
  | some (err e) ↦ some (goto i (failed e) (take_completion i w))
  | none ↦ if is_front i w.syncs.write_queue then some (lead i w) else none
]

-- One round of the loop of `FollowerWaitingCompletion::step`.
follower_step : ℕ → World → Option World
follower_step i w = elim (w.completion i) [
  | some (ok (success lsn)) ↦ some (goto i succeeded (take_completion i w))
  | some (err e) ↦ some (goto i (failed e) (take_completion i w))
  | some (ok follower) ↦ some (take_completion i w)
  | none ↦ none
]

wait_wal_step : ℕ → GroupGuard → World → Option World
wait_wal_step i g w =
    if w.syncs.wal_busy
    then none
    else some
        (goto i (leader_writing_wal g) (record w { syncs = record (w.syncs) { wal_busy = true } }))

-- The counters are `u64` and `usize`: a sum that does not fit stops the writer.
take_ticket_step : ℕ → GroupGuard → World → Option World
take_ticket_step i g w =
    if ltb (w.syncs.next_ticket + 1) (2 ^ 64) && ltb (w.syncs.next_lsn + length g.reqs) (2 ^ 64)
    then some (
        goto i (leader_holding_ticket g w.syncs.next_ticket w.syncs.next_lsn) (record w {
          syncs = record (w.syncs) {
            next_ticket = w.syncs.next_ticket + 1;
            next_lsn = w.syncs.next_lsn + length g.reqs;
          };
        }))
    else none

-- The loop over the group: each request takes the next LSN.
unfoldable pub assign_lsns : ℕ → List WriteRequest → List WriteRequest
assign_lsns lsn [] = []
assign_lsns lsn (q ∷ qs) = record q { key = Key.update_lsn q.key lsn } ∷ assign_lsns (lsn + 1) qs

abbrev pub entry_of : WriteRequest → Entry
entry_of q = (q.key, q.value)

-- The write to the log. On an error the guards are dropped in the order of the locals, then the
-- group.
write_wal_step : Choice → ℕ → GroupGuard → ℕ → ℕ → World → World
unfolding drop_wal_guard drop_ticket_guard drop_group assign_lsns Key.update_lsn
write_wal_step c i g ticket lsn w =
    let reqs = assign_lsns lsn g.reqs in
    elim c.wal_error [
      | none ↦
          goto i
            (leader_waiting_to_write_memtable (record { reqs = reqs; committed_lsn = some lsn })
              ticket)
            (drop_wal_guard (record w { wal = w.wal ++ (reqs ∷ []) }))
      | some e ↦ goto i (failed e) (
          drop_group (record { reqs = reqs; committed_lsn = g.committed_lsn })
            (drop_ticket_guard (drop_wal_guard w)))
    ]

wait_memtable_step : ℕ → GroupGuard → ℕ → World → Option World
wait_memtable_step i g ticket w =
    if w.syncs.ticket_to_mem == ticket
    then some (goto i (leader_writing_memtable g ticket) w)
    else none

-- `rotate_memtable`, where it succeeds, as the writers see it.
unfoldable pub rotate : World → World
rotate w = record w { rotations = w.rotations ++ ((length w.wal, length w.mem) ∷ []) }

-- The batch is put into the memtable; a rotation that fails drops the group early.
write_memtable_step : Choice → ℕ → GroupGuard → World → World
unfolding drop_ticket_guard drop_group rotate
write_memtable_step c i g w =
    let put = record w { mem = w.mem ++ (g.reqs ∷ []) } in
    elim c.rotation [
      | none ↦ goto i (leader_finishing_write g) (drop_ticket_guard put)
      | some (ok u) ↦ goto i (leader_finishing_write g) (drop_ticket_guard (rotate put))
      | some (err e) ↦ goto i (failed e) (drop_ticket_guard (drop_group g put))
    ]

finish_step : ℕ → GroupGuard → World → World
unfolding drop_group
finish_step i g w = goto i succeeded (drop_group g w)

-- `Db::write` runs the steps of its writer one after the other.
unfoldable pub act : Choice → ℕ → Stage → World → Option World
unfolding queue_step seek_step follower_step wait_wal_step take_ticket_step write_wal_step
    wait_memtable_step write_memtable_step finish_step
act c i (waiting_to_be_queued key value) w = some (queue_step i key value w)
act c i seeking_membership w = seek_step i w
act c i follower_waiting_completion w = follower_step i w
act c i (leader_waiting_to_write_wal g) w = wait_wal_step i g w
act c i (leader_writing_wal g) w = take_ticket_step i g w
act c i (leader_holding_ticket g ticket lsn) w = some (write_wal_step c i g ticket lsn w)
act c i (leader_waiting_to_write_memtable g ticket) w = wait_memtable_step i g ticket w
act c i (leader_writing_memtable g ticket) w = some (write_memtable_step c i g w)
act c i (leader_finishing_write g) w = some (finish_step i g w)
act c i succeeded w = none
act c i (failed e) w = none

-- A step of any writer, and the worlds that a start leads to.
pub data Step (w : World) : World → Type 0 where
  step : {w' : World} (c : Choice) (i : ℕ) → act c i (w.stage i) w ≡ some w' → Step w w'

pub data Reach (start : World) : World → Type 0 where
  here : Reach start start
  later : {w w' : World} → Reach start w → Step w w' → Reach start w'

-- A database that was just opened, with writers that are about to write.
abbrev pub opened : ℕ → (ℕ → Entry) → World
opened start_lsn entry = record {
  syncs = new_syncs start_lsn;
  completion = λ i. none;
  stage = λ i. waiting_to_be_queued (entry i).0 (entry i).1;
  wal = [];
  mem = [];
  rotations = [];
}

-- A run over choices, for tests.
unfoldable pub run : List (Choice × ℕ) → World → World
unfolding act
run [] w = w
run ((c, i) ∷ cs) w = elim (act c i (w.stage i) w) [ some w' ↦ run cs w' | none ↦ run cs w ]
