-- ===== src/Write/Steps.antt =====
-- A write takes few steps: each step of a writer brings it nearer to its result.
use easy_lsm.Base.{
  ℕ, ◌+◌, ◌≤◌, ◌≡◌, refl, arith, Bool, true, false, ◌==◌, if◌then◌else◌, Option, none, some,
}
use easy_lsm.Error.{Result, ok}
use easy_lsm.Entry.{Entry}
use easy_lsm.Write.{
  opened, World, Stage, Choice, act, CompletionVariant, follower, waiting_to_be_queued,
  seeking_membership, follower_waiting_completion, leader_waiting_to_write_wal, leader_writing_wal,
  leader_holding_ticket, leader_waiting_to_write_memtable, leader_writing_memtable,
  leader_finishing_write, completion_variant,
}
use easy_lsm.Write.Order.{IsOrdered, WalReach, here, later, opened-IsOrdered}
use easy_lsm.Write.Acknowledged.{is_member, notify_lem}
use easy_lsm.Write.Owed.{IsServed, is_seeking}
use easy_lsm.Write.Progress.{WalReach-IsServed, opened-IsServed}

-- The steps that are left at most.
abbrev pub rank : Stage → ℕ
rank (waiting_to_be_queued key value) = 8
rank seeking_membership = 7
rank (leader_waiting_to_write_wal g) = 6
rank (leader_writing_wal g) = 5
rank (leader_holding_ticket g t l) = 4
rank (leader_waiting_to_write_memtable g t) = 3
rank (leader_writing_memtable g t) = 2
rank (leader_finishing_write g) = 1
rank follower_waiting_completion = 1
rank _ = 0

-- A follower that is told once more that it is one.
abbrev is_told_again : Stage → Option (Result CompletionVariant) → Bool
is_told_again follower_waiting_completion (some (ok follower)) = true
is_told_again _ _ = false

abbrev ToldOnce : World → Type 0
ToldOnce w = (k : ℕ) → is_told_again (w.stage k) (w.completion k) ≡ false

module _ (c : Choice) (quiet : c.wal_error ≡ none) (i : ℕ) (w w' : World) (k : ℕ) where
  act-told_once :
      (s : Stage)
      → w.stage i ≡ s
      → act c i s w ≡ some w'
      → (is_member k w.syncs.write_queue ≡ true → is_seeking (w.stage k) ≡ true)
      → is_told_again (w.stage k) (w.completion k) ≡ false
      → is_told_again (w'.stage k) (w'.completion k) ≡ false
  unfolding act completion_variant
  act-told_once (waiting_to_be_queued key value) e h q p = ground arith
  act-told_once seeking_membership e h q p =
      ground (arith, q, notify_lem w.syncs.write_queue (ok follower) w.completion k)
  act-told_once (leader_holding_ticket g t l) e h q p = ground (arith, quiet)
  act-told_once (leader_writing_memtable g t) e h q p =
      ground (arith, notify_lem g.reqs (completion_variant g) w.completion k)
  act-told_once (leader_finishing_write g) e h q p =
      ground (arith, notify_lem g.reqs (completion_variant g) w.completion k)
  act-told_once s e h q p = ground arith

  act-rank :
      (s : Stage)
      → w.stage i ≡ s
      → act c i s w ≡ some w'
      → is_told_again (w.stage i) (w.completion i) ≡ false
      → (if i == k then 1 else 0) + rank (w'.stage k) ≤ rank (w.stage k)
  unfolding act
  act-rank (waiting_to_be_queued key value) e h p = ground arith
  act-rank s e h p = ground arith

-- The steps that a writer has taken in a run.
abbrev pub taken : {s w : World} → ℕ → WalReach s w → ℕ
taken k here = 0
taken k (later c i r quiet h) = (if i == k then 1 else 0) + taken k r

taken-rank :
    {s w : World} (k : ℕ)
    → IsOrdered s
    → IsServed s
    → ToldOnce s
    → (r : WalReach s w) → ToldOnce w × (taken k r + rank (w.stage k) ≤ rank (s.stage k))
taken-rank k o v t here = (t, omega arith)
taken-rank {s} k o v t (later {w = w} {w' = w'} c i r quiet h) =
    let (t', le) = taken-rank k o v t r in
    let served = (WalReach-IsServed o v r).1 in
    (
      λ j. act-told_once c quiet i w w' j (w.stage i) refl h (λ m. (served.queued j m).0) (t' j),
      omega (arith, le, act-rank c quiet i w w' k (w.stage i) refl h (t' i)),
    )

-- In every run from a database that was just opened, in which the log can be written: a writer has
-- taken at most eight steps, and where it has not returned, at most seven.
pub taken_at_most :
    (lsn : ℕ) (entry : ℕ → Entry) (w : World) (k : ℕ)
    → (r : WalReach (opened lsn entry) w) → taken k r + rank (w.stage k) ≤ 8
taken_at_most lsn entry w k r =
    (taken-rank k (opened-IsOrdered lsn entry) (opened-IsServed lsn entry) (λ j. refl) r).1
