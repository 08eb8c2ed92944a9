-- ===== src/Write/Progress.antt =====
-- No deadlock: while a write is under way, some writer can take a step.
use easy_lsm.Base.{
  ℕ, ◌+◌, ◌^◌, ◌<◌, ◌≡◌, ◌≢◌, refl, arith, List, [], ◌∷◌, length, Bool, true, false, none, some,
  Bool-cases, Option-cases, inl, inr,
}
use easy_lsm.Error.{Result}
use easy_lsm.Entry.{Entry}
use easy_lsm.Write.{
  opened, new_syncs, World, Stage, Choice, act, GroupGuard, WriteRequest, CompletionVariant,
  waiting_to_be_queued, seeking_membership, follower_waiting_completion,
  leader_waiting_to_write_wal, leader_writing_wal, leader_holding_ticket,
  leader_waiting_to_write_memtable, leader_writing_memtable, leader_finishing_write, succeeded,
  failed,
}
use easy_lsm.Write.Exclusive.{in_wal_stage}
use easy_lsm.Write.Order.{
  IsOrdered, WalReach, here, later, mem_ticket, opened-IsOrdered, act-IsOrdered,
}
use easy_lsm.Write.Acknowledged.{is_member, group, leads}
use easy_lsm.Write.Owed.{IsServed, act-IsServed, is_seeking, is_none}

pub WalReach-IsServed :
    {s w : World} → IsOrdered s → IsServed s → WalReach s w → IsOrdered w × IsServed w
WalReach-IsServed o v here = (o, v)
WalReach-IsServed o v (later {w = w} {w' = w'} c i r quiet h) =
    let (o', v') = WalReach-IsServed o v r in
    (act-IsOrdered c quiet i w w' o' h, act-IsServed c quiet i w w' v' o' h)

pub opened-IsServed : (lsn : ℕ) (entry : ℕ → Entry) → IsServed (opened lsn entry)
unfolding new_syncs is_member
opened-IsServed lsn entry = record {
  seekers = λ i h k. absurd (cc h);
  queued = λ i h. absurd (cc h);
  grouped = λ i j h. absurd (cc h);
  unstarted = λ i h. refl;
  led = λ i h. absurd (cc h);
  owner = λ h. absurd (cc h);
  holders = λ t low high. absurd (omega arith);
}

-- Between the queue and the result.
abbrev pub is_under_way : Stage → Bool
is_under_way (waiting_to_be_queued key value) = false
is_under_way succeeded = false
is_under_way (failed e) = false
is_under_way _ = true

-- The counters have room for one more batch: where not, the source's addition panics.
pub record HasRoom (w : World) : Type 0 where
  pub ticket_room : w.syncs.next_ticket + 1 < 2 ^ 64
  pub lsn_room :
      (i : ℕ) (g : GroupGuard)
      → w.stage i ≡ leader_writing_wal g
      → w.syncs.next_lsn + length g.reqs < 2 ^ 64

abbrev quiet : Choice
quiet = record { wal_error = none; rotation = none }

-- A writer that is under way, and does not have to wait, where its write to the log succeeds.
abbrev pub SomeMoves : World → Type 0
SomeMoves w =
    (j : ℕ) × (c : Choice) × (c.wal_error ≡ none)
    × (is_under_way (w.stage j) ≡ true)
    × (act c j (w.stage j) w ≢ none)

moves :
    (w : World) (j : ℕ) (s : Stage)
    → w.stage j ≡ s
    → is_under_way s ≡ true
    → act quiet j s w ≢ none
    → SomeMoves w
moves w j s e u h = (j, quiet, refl, rw e u, rw e h)

busy_moves :
    (w : World) (j : ℕ) (s : Stage)
    → HasRoom w
    → w.stage j ≡ s
    → in_wal_stage s ≡ true
    → SomeMoves w
unfolding act
busy_moves w j (leader_writing_wal g) room e h =
    let tickets = room.ticket_room in
    let lsns = room.lsn_room j g e in moves w j (leader_writing_wal g) e refl (λ q. ground arith)
busy_moves w j (leader_holding_ticket g t l) room e h =
    moves w j (leader_holding_ticket g t l) e refl (λ q. cc)
busy_moves w j (waiting_to_be_queued key value) room e h = absurd (cc h)
busy_moves w j s room e h = absurd (cc h)

holder_moves :
    (w : World) (j : ℕ) (s : Stage)
    → w.stage j ≡ s
    → mem_ticket s ≡ some w.syncs.ticket_to_mem
    → SomeMoves w
unfolding act
holder_moves w j (leader_waiting_to_write_memtable g t) e h =
    moves w j (leader_waiting_to_write_memtable g t) e refl (λ q. ground arith)
holder_moves w j (leader_writing_memtable g t) e h =
    moves w j (leader_writing_memtable g t) e refl (λ q. cc)
holder_moves w j (waiting_to_be_queued key value) e h = absurd (cc h)
holder_moves w j s e h = absurd (cc h)

told_moves :
    (w : World) (i : ℕ) (r : Result CompletionVariant)
    → w.completion i ≡ some r
    → (act quiet i seeking_membership w ≢ none) × (act quiet i follower_waiting_completion w ≢ none)
unfolding act
told_moves w i r h = (λ q. ground arith, λ q. ground arith)

front_leads :
    (w : World) (q : WriteRequest) (qs : List WriteRequest)
    → w.syncs.write_queue ≡ q ∷ qs
    → is_none (w.completion q.writer) ≡ true
    → act quiet q.writer seeking_membership w ≢ none
unfolding act
front_leads w q qs e h = λ z. ground arith

seeking_stage : (s : Stage) → is_seeking s ≡ true → s ≡ seeking_membership
seeking_stage seeking_membership h = refl
seeking_stage (waiting_to_be_queued key value) h = absurd (cc h)
seeking_stage s h = absurd (cc h)

module _ (w : World) (o : IsOrdered w) (v : IsServed w) (room : HasRoom w) where
  -- A leader can go on, or whoever has the log or the turn for the memtable can.
  leader_moves : (j : ℕ) (s : Stage) → w.stage j ≡ s → leads s ≡ true → SomeMoves w
  unfolding act
  leader_moves j (leader_waiting_to_write_wal g) e h = elim (Bool-cases w.syncs.wal_busy) [
    | inl busy ↦ let (k, m) = v.owner busy in busy_moves w k (w.stage k) room refl m
    | inr free ↦ moves w j (leader_waiting_to_write_wal g) e refl (rw free (λ q. cc))
  ]
  leader_moves j (leader_writing_wal g) e h = busy_moves w j (leader_writing_wal g) room e refl
  leader_moves j (leader_holding_ticket g t l) e h =
      busy_moves w j (leader_holding_ticket g t l) room e refl
  leader_moves j (leader_waiting_to_write_memtable g t) e h =
      let (low, high, batch) = o.logged j t (rw e) in
      let (k, m) = v.holders w.syncs.ticket_to_mem (omega arith) (omega arith) in
      holder_moves w k (w.stage k) refl m
  leader_moves j (leader_writing_memtable g t) e h =
      moves w j (leader_writing_memtable g t) e refl (λ q. cc)
  leader_moves j (leader_finishing_write g) e h =
      moves w j (leader_finishing_write g) e refl (λ q. cc)
  leader_moves j (waiting_to_be_queued key value) e h = absurd (cc h)
  leader_moves j s e h = absurd (cc h)

  member_moves : (i j : ℕ) (s : Stage) → w.stage j ≡ s → is_member i (group s) ≡ true → SomeMoves w
  unfolding is_member
  member_moves i j (waiting_to_be_queued key value) e m = absurd (cc m)
  member_moves i j seeking_membership e m = absurd (cc m)
  member_moves i j follower_waiting_completion e m = absurd (cc m)
  member_moves i j succeeded e m = absurd (cc m)
  member_moves i j (failed x) e m = absurd (cc m)
  member_moves i j s e m = leader_moves j s e refl

  -- The front of the queue can lead.
  front_moves :
      (i : ℕ) (qs : List WriteRequest)
      → w.syncs.write_queue ≡ qs
      → is_member i qs ≡ true
      → SomeMoves w
  unfolding act is_member
  front_moves i [] e m = absurd (cc m)
  front_moves i (q ∷ qs) e m =
      let (seeks, none_yet) = v.queued q.writer (rw e (ground arith)) in
      moves w q.writer seeking_membership (seeking_stage (w.stage q.writer) seeks) refl
        (front_leads w q qs e none_yet)

  under_way_moves : (i : ℕ) (s : Stage) → w.stage i ≡ s → is_under_way s ≡ true → SomeMoves w
  unfolding act
  under_way_moves i seeking_membership e h = elim (Option-cases (w.completion i)) [
    | inl q ↦ front_moves i w.syncs.write_queue refl (v.seekers i (rw e) (rw q))
    | inr (r, q) ↦ moves w i seeking_membership e refl (told_moves w i r q).0
  ]
  under_way_moves i follower_waiting_completion e h = elim (Option-cases (w.completion i)) [
    | inl q ↦ let (j, m) = v.led i (rw (e, q)) in member_moves i j (w.stage j) refl m
    | inr (r, q) ↦ moves w i follower_waiting_completion e refl (told_moves w i r q).1
  ]
  under_way_moves i (waiting_to_be_queued key value) e h = absurd (cc h)
  under_way_moves i succeeded e h = absurd (cc h)
  under_way_moves i (failed x) e h = absurd (cc h)
  under_way_moves i s e h = leader_moves i s e refl

-- No deadlock. In every run from a database that was just opened, in which the log can be written
-- and the counters have room: while a write is under way, between the queue and its result, some
-- writer that is under way does not have to wait: it can take its next step.
pub under_way_moves_on :
    (lsn : ℕ) (entry : ℕ → Entry) (w : World) (i : ℕ)
    → WalReach (opened lsn entry) w
    → HasRoom w
    → is_under_way (w.stage i) ≡ true
    → SomeMoves w
under_way_moves_on lsn entry w i r room h =
    let (o, v) = WalReach-IsServed (opened-IsOrdered lsn entry) (opened-IsServed lsn entry) r in
    under_way_moves w o v room i (w.stage i) refl h
