-- ===== src/Write/Acknowledged.antt =====
-- A write that is acknowledged is in the log and in the memtable, whatever fails.
use easy_lsm.Base.{
  ℕ, ◌+◌, ◌≡◌, refl, ap, arith, List, [], ◌∷◌, ◌++◌, Bool, true, false, ◌||◌, ◌==◌, if◌then◌else◌,
  Option, none, some,
}
use easy_lsm.Error.{Result, DbError, ok, err}
use easy_lsm.Entry.{Entry}
use easy_lsm.Key
use easy_lsm.Write.Family.{update}
use easy_lsm.Write.{
  opened, new_syncs, assign_lsns, notify, World, WriteSyncs, Stage, Choice, Step, step, Reach, here,
  later, act, GroupGuard, WriteRequest, waiting_to_be_queued, seeking_membership,
  follower_waiting_completion, leader_waiting_to_write_wal, leader_writing_wal,
  leader_holding_ticket, leader_waiting_to_write_memtable, leader_writing_memtable,
  leader_finishing_write, succeeded, failed, CompletionVariant, success, follower,
  completion_variant,
}

-- The writers of a batch, and of the batches of a log.
unfoldable pub is_member : ℕ → List WriteRequest → Bool
is_member j [] = false
is_member j (q ∷ qs) = q.writer == j || is_member j qs

pub is_logged : ℕ → List (List WriteRequest) → Bool
is_logged j [] = false
is_logged j (b ∷ bs) = is_member j b || is_logged j bs

is_logged-append :
    (j : ℕ) (bs : List (List WriteRequest)) (b : List WriteRequest)
    → is_logged j (bs ++ (b ∷ [])) ≡ (is_logged j bs || is_member j b)
unfolding is_logged
is_logged-append j [] b = ground arith
is_logged-append j (x ∷ bs) b = ground (arith, is_logged-append j bs b)

pub is_member-assign_lsns :
    (j l : ℕ) (qs : List WriteRequest) → is_member j (assign_lsns l qs) ≡ is_member j qs
unfolding is_member assign_lsns Key.update_lsn
is_member-assign_lsns j l [] = refl
is_member-assign_lsns j l (q ∷ qs) = ground (arith, is_member-assign_lsns j (l + 1) qs)

-- A notification reaches the members of the group and no other writer.
pub notify_lem :
    (qs : List WriteRequest) (r : Result CompletionVariant)
    (f : ℕ → Option (Result CompletionVariant)) (j : ℕ)
    → notify qs r f j ≡ (if is_member j qs then some r else f j)
unfolding notify is_member
notify_lem [] r f j = refl
notify_lem (q ∷ qs) r f j = ground (arith, notify_lem qs r (update f q.writer (some r)) j)

-- The group of a leader, with what has been written of it.
abbrev pub group : Stage → List WriteRequest
group (leader_waiting_to_write_wal g) = g.reqs
group (leader_writing_wal g) = g.reqs
group (leader_holding_ticket g t l) = g.reqs
group (leader_waiting_to_write_memtable g t) = g.reqs
group (leader_writing_memtable g t) = g.reqs
group (leader_finishing_write g) = g.reqs
group _ = []

abbrev committed : Stage → Option ℕ
committed (leader_waiting_to_write_wal g) = g.committed_lsn
committed (leader_writing_wal g) = g.committed_lsn
committed (leader_holding_ticket g t l) = g.committed_lsn
committed _ = none

abbrev pub leads : Stage → Bool
leads (leader_waiting_to_write_wal g) = true
leads (leader_writing_wal g) = true
leads (leader_holding_ticket g t l) = true
leads (leader_waiting_to_write_memtable g t) = true
leads (leader_writing_memtable g t) = true
leads (leader_finishing_write g) = true
leads _ = false

abbrev wrote_wal : Stage → Bool
wrote_wal (leader_waiting_to_write_memtable g t) = true
wrote_wal (leader_writing_memtable g t) = true
wrote_wal (leader_finishing_write g) = true
wrote_wal _ = false

abbrev wrote_mem : Stage → Bool
wrote_mem (leader_finishing_write g) = true
wrote_mem _ = false

abbrev acknowledges : Option (Result CompletionVariant) → Bool
acknowledges (some (ok (success lsn))) = true
acknowledges _ = false

abbrev is_succeeded : Stage → Bool
is_succeeded succeeded = true
is_succeeded _ = false

pub record IsHonest (w : World) : Type 0 where
  pub own : (i : ℕ) → leads (w.stage i) ≡ true → is_member i (group (w.stage i)) ≡ true
  pub early : (i : ℕ) → committed (w.stage i) ≡ none
  pub in_wal :
      (i j : ℕ)
      → wrote_wal (w.stage i) ≡ true
      → is_member j (group (w.stage i)) ≡ true
      → is_logged j w.wal ≡ true
  pub in_mem :
      (i j : ℕ)
      → wrote_mem (w.stage i) ≡ true
      → is_member j (group (w.stage i)) ≡ true
      → is_logged j w.mem ≡ true
  pub told :
      (j : ℕ)
      → acknowledges (w.completion j) ≡ true
      → (is_logged j w.wal ≡ true) × (is_logged j w.mem ≡ true)
  pub done :
      (j : ℕ)
      → is_succeeded (w.stage j) ≡ true
      → (is_logged j w.wal ≡ true) × (is_logged j w.mem ≡ true)

front_member :
    (i : ℕ) (qs : List WriteRequest) → easy_lsm.Write.is_front i qs ≡ true → is_member i qs ≡ true
unfolding is_member
front_member i [] h = cc
front_member i (q ∷ qs) h = ground arith

module _ (c : Choice) (i : ℕ) (w w' : World) (v : IsHonest w) where
  act-own :
      (s : Stage)
      → w.stage i ≡ s
      → act c i s w ≡ some w'
      → (j : ℕ) → leads (w'.stage j) ≡ true
      → is_member j (group (w'.stage j)) ≡ true
  unfolding act
  act-own (waiting_to_be_queued key value) e h j k = ground (arith, v.own j)
  act-own (leader_holding_ticket g t l) e h j k =
      ground (arith, v.own j, v.own i, is_member-assign_lsns i l g.reqs)
  act-own s e h j k = ground (arith, v.own j, v.own i, front_member i w.syncs.write_queue)

  act-early :
      (s : Stage) → w.stage i ≡ s → act c i s w ≡ some w' → (j : ℕ) → committed (w'.stage j) ≡ none
  unfolding act
  act-early (waiting_to_be_queued key value) e h j = ground (arith, v.early j)
  act-early s e h j = ground (arith, v.early j, v.early i)

  act-in_wal :
      (s : Stage)
      → w.stage i ≡ s
      → act c i s w ≡ some w'
      → (j k : ℕ) → wrote_wal (w'.stage j) ≡ true
      → is_member k (group (w'.stage j)) ≡ true
      → is_logged k w'.wal ≡ true
  unfolding act
  act-in_wal (waiting_to_be_queued key value) e h j k p q = ground (arith, v.in_wal j k)
  act-in_wal (leader_holding_ticket g t l) e h j k p q = ground (
    arith,
    v.in_wal j k,
    is_logged-append k w.wal (assign_lsns l g.reqs),
    is_member-assign_lsns k l g.reqs,
  )
  act-in_wal s e h j k p q = ground (arith, v.in_wal j k, v.in_wal i k)

  act-in_mem :
      (s : Stage)
      → w.stage i ≡ s
      → act c i s w ≡ some w'
      → (j k : ℕ) → wrote_mem (w'.stage j) ≡ true
      → is_member k (group (w'.stage j)) ≡ true
      → is_logged k w'.mem ≡ true
  unfolding act
  act-in_mem (waiting_to_be_queued key value) e h j k p q = ground (arith, v.in_mem j k)
  act-in_mem (leader_writing_memtable g t) e h j k p q =
      ground (arith, v.in_mem j k, is_logged-append k w.mem g.reqs)
  act-in_mem s e h j k p q = ground (arith, v.in_mem j k)

  act-told :
      (s : Stage)
      → w.stage i ≡ s
      → act c i s w ≡ some w'
      → (j : ℕ) → acknowledges (w'.completion j) ≡ true
      → (is_logged j w'.wal ≡ true) × (is_logged j w'.mem ≡ true)
  unfolding act completion_variant
  act-told (waiting_to_be_queued key value) e h j k = ground (arith, v.told j)
  act-told seeking_membership e h j k =
      ground (arith, v.told j, notify_lem w.syncs.write_queue (ok follower) w.completion j)
  act-told (leader_holding_ticket g t l) e h j k = ground (
    arith,
    v.told j,
    v.early i,
    is_logged-append j w.wal (assign_lsns l g.reqs),
    notify_lem (assign_lsns l g.reqs) (err DbError.writer_panic) w.completion j,
  )
  act-told (leader_writing_memtable g t) e h j k = ground (
    arith,
    v.told j,
    v.in_wal i j,
    is_logged-append j w.mem g.reqs,
    notify_lem g.reqs (completion_variant g) w.completion j,
  )
  act-told (leader_finishing_write g) e h j k = ground (
    arith,
    v.told j,
    v.in_wal i j,
    v.in_mem i j,
    notify_lem g.reqs (completion_variant g) w.completion j,
  )
  act-told s e h j k = ground (arith, v.told j)

  act-done :
      (s : Stage)
      → w.stage i ≡ s
      → act c i s w ≡ some w'
      → (j : ℕ) → is_succeeded (w'.stage j) ≡ true
      → (is_logged j w'.wal ≡ true) × (is_logged j w'.mem ≡ true)
  unfolding act
  act-done (waiting_to_be_queued key value) e h j k = ground (arith, v.done j)
  act-done (leader_holding_ticket g t l) e h j k =
      ground (arith, v.done j, is_logged-append j w.wal (assign_lsns l g.reqs))
  act-done (leader_writing_memtable g t) e h j k =
      ground (arith, v.done j, is_logged-append j w.mem g.reqs)
  act-done (leader_finishing_write g) e h j k =
      ground (arith, v.done j, v.own i, v.in_wal i j, v.in_mem i j)
  act-done s e h j k = ground (arith, v.done j, v.told j)

  act-IsHonest : act c i (w.stage i) w ≡ some w' → IsHonest w'
  act-IsHonest h = record {
    own = act-own (w.stage i) refl h;
    early = act-early (w.stage i) refl h;
    in_wal = act-in_wal (w.stage i) refl h;
    in_mem = act-in_mem (w.stage i) refl h;
    told = act-told (w.stage i) refl h;
    done = act-done (w.stage i) refl h;
  }

Reach-IsHonest : {s w : World} → IsHonest s → Reach s w → IsHonest w
Reach-IsHonest v here = v
Reach-IsHonest {w = x} v (later {w} r (step c i h)) = act-IsHonest c i w x (Reach-IsHonest v r) h

opened-IsHonest : (lsn : ℕ) (entry : ℕ → Entry) → IsHonest (opened lsn entry)
opened-IsHonest lsn entry = record {
  own = λ i h. absurd (cc h);
  early = λ i. refl;
  in_wal = λ i j h k. absurd (cc h);
  in_mem = λ i j h k. absurd (cc h);
  told = λ j h. absurd (cc h);
  done = λ j h. absurd (cc h);
}

-- In every run from a database that was just opened, whatever fails: a writer that has returned
-- with success, as a leader or as a follower, has a request in the log and in the memtable.
pub succeeded-is_logged :
    (lsn : ℕ) (entry : ℕ → Entry) (w : World) (j : ℕ)
    → Reach (opened lsn entry) w
    → w.stage j ≡ succeeded
    → (is_logged j w.wal ≡ true) × (is_logged j w.mem ≡ true)
succeeded-is_logged lsn entry w j r e =
    (Reach-IsHonest (opened-IsHonest lsn entry) r).done j (ap is_succeeded e)
