-- ===== src/Write/Tests.antt =====
-- write_req.rs at concrete runs: two or three writers, by the order of their steps.
use easy_lsm.Base.{
  ℕ, ◌+◌, ◌≤◌, arith, ◌≡◌, refl, List, [], ◌∷◌, map, length, take, All, true, Option, none, some,
  Option-cases, inl, inr,
}
use easy_lsm.Error.{ok, writer_panic}
use easy_lsm.Key
use easy_lsm.Value.{bytes}
use easy_lsm.Entry.{Entry}
use easy_lsm.Write.{
  World, Choice, step, Reach, here, later, act, opened, run, leader_waiting_to_write_memtable,
  GroupGuard, new_syncs,
}
use easy_lsm.Write.Exclusive.{wal_exclusive}
use easy_lsm.Write.Order.{WalReach}
use easy_lsm.Write.Rotations.{Covered, put_as_logged}
use easy_lsm.Write.Order
use easy_lsm.Write.Lsn.{wal-IsRising, IsRising, requests}
use easy_lsm.Write.Acknowledged.{succeeded-is_logged, is_logged}
use easy_lsm.Write.Progress.{HasRoom, SomeMoves, under_way_moves_on}
use easy_lsm.Write.Steps.{taken, rank, taken_at_most}
use easy_lsm.Write.Stranded.{failed_wal_write_strands}

abbrev calm : Choice
calm = record { wal_error = none; rotation = none }

abbrev broken : Choice
broken = record { wal_error = some writer_panic; rotation = none }

abbrev turn : ℕ → Choice × ℕ
turn i = (calm, i)

abbrev entry : ℕ → Entry
entry i = (Key.new (i ∷ []) 0, bytes (7 ∷ i ∷ []))

abbrev start : World
start = opened 100 entry

run-Reach : {s : World} (cs : List (Choice × ℕ)) (w : World) → Reach s w → Reach s (run cs w)
unfolding run
run-Reach [] w r = r
run-Reach ((c, i) ∷ cs) w r = elim (Option-cases (act c i (w.stage i) w)) [
  | inl e ↦ rw (e, run) (run-Reach cs w r)
  | inr (w', e) ↦ rw (e, run) (run-Reach cs w' (later r (step c i e)))
]

run-WalReach :
    {s : World} (is : List ℕ) (w : World) → WalReach s w → WalReach s (run (map turn is) w)
unfolding run
run-WalReach [] w r = r
run-WalReach (i ∷ is) w r = elim (Option-cases (act calm i (w.stage i) w)) [
  | inl e ↦ rw (e, run) (run-WalReach is w r)
  | inr (w', e) ↦ rw (e, run) (run-WalReach is w' (Order.later calm i r refl e))
]

-- Writer 0 has the log, and writer 1 leads a group that waits for it.
abbrev at_log : World
at_log = run (map turn (0 ∷ 0 ∷ 0 ∷ 1 ∷ 1 ∷ 1 ∷ [])) start

wal_exclusive_example : (at_log.syncs.wal_busy ≡ true) × ◌≡◌ {A = ℕ} 0 0
unfolding run new_syncs
wal_exclusive_example =
    wal_exclusive 100 entry at_log 0 0
      (run-Reach (map turn (0 ∷ 0 ∷ 0 ∷ 1 ∷ 1 ∷ 1 ∷ [])) start here) refl refl

-- Two batches are in the log, and writer 0 is at the memtable.
abbrev two_batches : List ℕ
two_batches = 0 ∷ 0 ∷ 1 ∷ 1 ∷ 0 ∷ 0 ∷ 0 ∷ 1 ∷ 1 ∷ 1 ∷ 1 ∷ 0 ∷ []

abbrev at_memtable : World
at_memtable = run (map turn two_batches) start

-- Writer 0 rotates the memtable, while the batch of writer 1 is in the log that this closes.
abbrev full : Choice
full = record { wal_error = none; rotation = some (ok tt) }

abbrev rotated : World
rotated = run ((full, 0) ∷ turn 1 ∷ turn 1 ∷ []) at_memtable

rotated-WalReach : WalReach start rotated
unfolding run new_syncs
rotated-WalReach =
    Order.later calm 1
      (Order.later calm 1 (Order.later full 0 (run-WalReach two_batches start Order.here) refl refl)
        refl refl)
      refl refl

put_as_logged_example :
    (rotated.mem ≡ take (length rotated.mem) rotated.wal) × All Covered rotated.rotations
put_as_logged_example = put_as_logged 100 entry rotated rotated-WalReach

rotated_test : (rotated.rotations ≡ (2, 1) ∷ []) × (length rotated.mem ≡ 2)
unfolding run new_syncs
rotated_test = (refl, refl)

wal-IsRising_example : IsRising 100 (requests at_memtable.wal) at_memtable.syncs.next_lsn
wal-IsRising_example =
    wal-IsRising 100 entry at_memtable (run-Reach (map turn two_batches) start here)

next_lsn_test : at_memtable.syncs.next_lsn ≡ 102
unfolding run new_syncs
next_lsn_test = refl

-- Writer 1 is in the group of writer 0, and returns once that is done.
abbrev one_group : List ℕ
one_group = 0 ∷ 1 ∷ 0 ∷ 0 ∷ 0 ∷ 0 ∷ 0 ∷ 0 ∷ 0 ∷ 1 ∷ []

abbrev all_done : World
all_done = run (map turn one_group) start

succeeded-is_logged_example : (is_logged 1 all_done.wal ≡ true) × (is_logged 1 all_done.mem ≡ true)
unfolding run new_syncs
succeeded-is_logged_example =
    succeeded-is_logged 100 entry all_done 1 (run-Reach (map turn one_group) start here) refl

-- Writer 0 waits for the memtable with the ticket 0, and writer 1 is to write the log with 1.
abbrev before_failure : World
before_failure = run (map turn (0 ∷ 0 ∷ 1 ∷ 1 ∷ 0 ∷ 0 ∷ 0 ∷ 1 ∷ 1 ∷ [])) start

abbrev after_failure : World
after_failure = run ((broken, 1) ∷ []) before_failure

abbrev group_of : ℕ → ℕ → Option ℕ → GroupGuard
group_of i lsn committed = record {
  reqs = record { writer = i; key = Key.new (i ∷ []) lsn; value = (entry i).1 } ∷ [];
  committed_lsn = committed;
}

failed_wal_write_strands_example :
    (run (map turn (0 ∷ 0 ∷ 0 ∷ [])) after_failure).stage 0
    ≡ leader_waiting_to_write_memtable (group_of 0 100 (some 100)) 0
unfolding run new_syncs Key.new
failed_wal_write_strands_example =
    failed_wal_write_strands broken 1 0 0 1 101 (group_of 0 100 (some 100)) (group_of 1 0 none)
      writer_panic before_failure after_failure (run (map turn (0 ∷ 0 ∷ 0 ∷ [])) after_failure) refl
      refl refl refl refl (run-Reach (map turn (0 ∷ 0 ∷ 0 ∷ [])) after_failure here)

-- Writer 1 waits for the log, which writer 0 has.
at_log-HasRoom : HasRoom at_log
unfolding run new_syncs
at_log-HasRoom = record { ticket_room = omega arith; lsn_room = λ i g e. ground arith }

under_way_moves_on_example : SomeMoves at_log
unfolding run new_syncs
under_way_moves_on_example =
    under_way_moves_on 100 entry at_log 1
      (run-WalReach (0 ∷ 0 ∷ 0 ∷ 1 ∷ 1 ∷ 1 ∷ []) start Order.here) at_log-HasRoom refl

taken_at_most_example :
    taken 1 (run-WalReach (0 ∷ 0 ∷ 0 ∷ 1 ∷ 1 ∷ 1 ∷ []) start Order.here) + rank (at_log.stage 1) ≤ 8
taken_at_most_example =
    taken_at_most 100 entry at_log 1 (run-WalReach (0 ∷ 0 ∷ 0 ∷ 1 ∷ 1 ∷ 1 ∷ []) start Order.here)
