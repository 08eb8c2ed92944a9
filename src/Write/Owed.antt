-- ===== src/Write/Owed.antt =====
-- Who is waited for: the queue holds the writers that look for a group, a follower has a leader,
-- the busy log has its writer, and every ticket that is next for the memtable has its holder.
use easy_lsm.Base.{
  ℕ, ◌≤◌, ◌<◌, ◌≡◌, refl, arith, List, [], ◌∷◌, ◌++◌, length, length-append, Bool, true, false,
  ◌==◌, ◌||◌, Option, none, some, Bool-cases, inl, inr, ◌⊎◌,
}
use easy_lsm.Error.{Result, ok}
use easy_lsm.Write.{
  World, Stage, Choice, act, WriteRequest, CompletionVariant, follower, waiting_to_be_queued,
  seeking_membership, follower_waiting_completion, leader_waiting_to_write_wal,
  leader_holding_ticket, leader_writing_memtable, leader_finishing_write, assign_lsns,
  completion_variant,
}
use easy_lsm.Write.Exclusive.{in_wal_stage}
use easy_lsm.Write.Order.{IsOrdered, mem_ticket, held, in_mem_stage}
use easy_lsm.Write.Acknowledged.{is_member, is_member-assign_lsns, notify_lem, group}

abbrev pub is_unstarted : Stage → Bool
is_unstarted (waiting_to_be_queued key value) = true
is_unstarted _ = false

abbrev pub is_seeking : Stage → Bool
is_seeking seeking_membership = true
is_seeking _ = false

abbrev pub is_none : Option (Result CompletionVariant) → Bool
is_none none = true
is_none (some r) = false

-- A follower that has no final answer yet, or a writer that will learn that it is one.
abbrev pub is_owed : Stage → Option (Result CompletionVariant) → Bool
is_owed follower_waiting_completion none = true
is_owed follower_waiting_completion (some (ok follower)) = true
is_owed seeking_membership (some (ok follower)) = true
is_owed _ _ = false

pub record IsServed (w : World) : Type 0 where
  pub seekers :
      (i : ℕ)
      → is_seeking (w.stage i) ≡ true
      → is_none (w.completion i) ≡ true
      → is_member i w.syncs.write_queue ≡ true
  pub queued :
      (i : ℕ)
      → is_member i w.syncs.write_queue ≡ true
      → (is_seeking (w.stage i) ≡ true) × (is_none (w.completion i) ≡ true)
  pub grouped :
      (i j : ℕ)
      → is_member i (group (w.stage j)) ≡ true
      → (is_member i w.syncs.write_queue ≡ false) × (is_unstarted (w.stage i) ≡ false)
  pub unstarted : (i : ℕ) → is_unstarted (w.stage i) ≡ true → is_none (w.completion i) ≡ true
  pub led :
      (i : ℕ)
      → is_owed (w.stage i) (w.completion i) ≡ true
      → (j : ℕ) × (is_member i (group (w.stage j)) ≡ true)
  pub owner : w.syncs.wal_busy ≡ true → (j : ℕ) × (in_wal_stage (w.stage j) ≡ true)
  pub holders :
      (t : ℕ)
      → w.syncs.ticket_to_mem ≤ t
      → t < length w.wal
      → (j : ℕ) × (mem_ticket (w.stage j) ≡ some t)

is_member-nil : (i : ℕ) → is_member i [] ≡ false
unfolding is_member
is_member-nil i = refl

is_member-push :
    (i : ℕ) (qs : List WriteRequest) (q : WriteRequest)
    → is_member i (qs ++ (q ∷ [])) ≡ (is_member i qs || (q.writer == i))
unfolding is_member
is_member-push i [] q = ground arith
is_member-push i (x ∷ qs) q = ground (arith, is_member-push i qs q)

-- A writer that looks for a group, and one of the queue: the step gives it a group, or no answer.
module _ (c : Choice) (i : ℕ) (w w' : World) (k : ℕ) where
  seek_group :
      w.stage i ≡ seeking_membership
      → act c i seeking_membership w ≡ some w'
      → is_member k w.syncs.write_queue ≡ true
      → (is_seeking (w.stage k) ≡ true) × (is_none (w.completion k) ≡ true)
      → is_owed (w'.stage k) (w'.completion k) ≡ true
      → is_member k (group (w'.stage i)) ≡ true
  unfolding act
  seek_group e h m q p = ground arith

  seek_owed :
      w.stage i ≡ seeking_membership
      → act c i seeking_membership w ≡ some w'
      → is_member k w.syncs.write_queue ≡ false
      → is_owed (w'.stage k) (w'.completion k) ≡ true
      → is_owed (w.stage k) (w.completion k) ≡ true
  unfolding act
  seek_owed e h m p = ground (arith, notify_lem w.syncs.write_queue (ok follower) w.completion k)

  seek_kept :
      (j : ℕ)
      → w.stage i ≡ seeking_membership
      → act c i seeking_membership w ≡ some w'
      → is_member k (group (w.stage j)) ≡ true
      → is_member k (group (w'.stage j)) ≡ true
  unfolding act
  seek_kept j e h m = ground (arith, is_member-nil k)

-- A step of another stage owes nobody more than before, and a leader keeps those whom it owes.
module _ (c : Choice) (quiet : c.wal_error ≡ none) (i : ℕ) (w w' : World) (k : ℕ) where
  still_owed :
      (s : Stage)
      → is_seeking s ≡ false
      → w.stage i ≡ s
      → act c i s w ≡ some w'
      → (is_unstarted (w.stage i) ≡ true → is_none (w.completion i) ≡ true)
      → is_owed (w'.stage k) (w'.completion k) ≡ true
      → is_owed (w.stage k) (w.completion k) ≡ true
  unfolding act completion_variant
  still_owed (waiting_to_be_queued key value) n e h u p = ground (arith, u)
  still_owed (leader_holding_ticket g t l) n e h u p = ground (arith, quiet)
  still_owed (leader_writing_memtable g t) n e h u p =
      ground (arith, notify_lem g.reqs (completion_variant g) w.completion k)
  still_owed (leader_finishing_write g) n e h u p =
      ground (arith, notify_lem g.reqs (completion_variant g) w.completion k)
  still_owed seeking_membership n e h u p = absurd (cc n)
  still_owed s n e h u p = ground arith

  kept_group :
      (j : ℕ) (s : Stage)
      → is_seeking s ≡ false
      → w.stage i ≡ s
      → act c i s w ≡ some w'
      → is_owed (w'.stage k) (w'.completion k) ≡ true
      → is_member k (group (w.stage j)) ≡ true
      → is_member k (group (w'.stage j)) ≡ true
  unfolding act completion_variant
  kept_group j (waiting_to_be_queued key value) n e h p m = ground (arith, is_member-nil k)
  kept_group j (leader_holding_ticket g t l) n e h p m =
      ground (arith, quiet, is_member-assign_lsns k l g.reqs)
  kept_group j (leader_writing_memtable g t) n e h p m =
      ground (arith, notify_lem g.reqs (completion_variant g) w.completion k, is_member-nil k)
  kept_group j (leader_finishing_write g) n e h p m =
      ground (arith, notify_lem g.reqs (completion_variant g) w.completion k, is_member-nil k)
  kept_group j seeking_membership n e h p m = absurd (cc n)
  kept_group j s n e h p m = ground (arith, is_member-nil k)

module _ (c : Choice) (quiet : c.wal_error ≡ none) (i : ℕ) (w w' : World) where
  -- The log is busy after a step: it was before, or the writer has just come to it.
  kept_owner :
      (s : Stage)
      → w.stage i ≡ s
      → act c i s w ≡ some w'
      → w'.syncs.wal_busy ≡ true
      → (in_wal_stage (w'.stage i) ≡ true)
        ⊎ ((w.syncs.wal_busy ≡ true)
            × ((j : ℕ) → in_wal_stage (w.stage j) ≡ true → in_wal_stage (w'.stage j) ≡ true))
  unfolding act
  kept_owner (waiting_to_be_queued key value) e h b = inr (ground arith, (λ j m. ground arith))
  kept_owner (leader_waiting_to_write_wal g) e h b = inl (ground arith)
  kept_owner (leader_holding_ticket g t l) e h b = absurd (ground (arith, quiet))
  kept_owner s e h b = inr (ground arith, (λ j m. ground arith))

  -- A ticket that is next or later is that of the batch which is written just now, or was out before.
  kept_holder :
      (s : Stage)
      → ((u : ℕ) → held (w.stage i) ≡ some u → u ≡ length w.wal)
      → ((u : ℕ)
          → in_mem_stage (w.stage i) ≡ true
          → mem_ticket (w.stage i) ≡ some u
          → u ≡ w.syncs.ticket_to_mem)
      → w.stage i ≡ s
      → act c i s w ≡ some w'
      → (t : ℕ) → w'.syncs.ticket_to_mem ≤ t
      → t < length w'.wal
      → (mem_ticket (w'.stage i) ≡ some t)
        ⊎ ((w.syncs.ticket_to_mem ≤ t)
            × (t < length w.wal)
            × ((j : ℕ) → mem_ticket (w.stage j) ≡ some t → mem_ticket (w'.stage j) ≡ some t))
  unfolding act
  kept_holder (waiting_to_be_queued key value) holds turn e h t low high =
      inr (ground arith, ground arith, (λ j m. ground arith))
  kept_holder (leader_holding_ticket g u l) holds turn e h t low high =
      let grown = length-append w.wal (assign_lsns l g.reqs ∷ []) in
      elim (Bool-cases (t == length w.wal)) [
        | inl last ↦ inl (ground (arith, quiet, holds u))
        | inr before ↦
            inr
              (ground (arith, quiet), ground (arith, quiet, grown), (λ j m. ground (arith, quiet)))
      ]
  kept_holder (leader_writing_memtable g u) holds turn e h t low high =
      inr (ground arith, ground arith, (λ j m. ground (arith, turn u)))
  kept_holder s holds turn e h t low high = inr (ground arith, ground arith, (λ j m. ground arith))

module _ (c : Choice) (quiet : c.wal_error ≡ none) (i : ℕ) (w w' : World) (v : IsServed w) where
  act-seekers :
      (s : Stage)
      → w.stage i ≡ s
      → act c i s w ≡ some w'
      → (k : ℕ) → is_seeking (w'.stage k) ≡ true
      → is_none (w'.completion k) ≡ true
      → is_member k w'.syncs.write_queue ≡ true
  unfolding act
  act-seekers (waiting_to_be_queued key value) e h k p q = ground (
    arith,
    v.seekers k,
    is_member-push k w.syncs.write_queue (record { writer = i; key = key; value = value }),
  )
  act-seekers seeking_membership e h k p q =
      ground (arith, v.seekers k, notify_lem w.syncs.write_queue (ok follower) w.completion k)
  act-seekers (leader_holding_ticket g t l) e h k p q = ground (arith, quiet, v.seekers k)
  act-seekers (leader_writing_memtable g t) e h k p q =
      ground (arith, v.seekers k, notify_lem g.reqs (completion_variant g) w.completion k)
  act-seekers (leader_finishing_write g) e h k p q =
      ground (arith, v.seekers k, notify_lem g.reqs (completion_variant g) w.completion k)
  act-seekers s e h k p q = ground (arith, v.seekers k)

  act-queued :
      (s : Stage)
      → w.stage i ≡ s
      → act c i s w ≡ some w'
      → (k : ℕ) → is_member k w'.syncs.write_queue ≡ true
      → (is_seeking (w'.stage k) ≡ true) × (is_none (w'.completion k) ≡ true)
  unfolding act
  act-queued (waiting_to_be_queued key value) e h k p = ground (
    arith,
    v.queued k,
    v.unstarted i,
    is_member-push k w.syncs.write_queue (record { writer = i; key = key; value = value }),
  )
  act-queued seeking_membership e h k p = ground (arith, v.queued k, is_member-nil k)
  act-queued (leader_holding_ticket g t l) e h k p = ground (arith, quiet, v.queued k)
  act-queued (leader_writing_memtable g t) e h k p =
      ground
        (arith, v.queued k, v.grouped k i, notify_lem g.reqs (completion_variant g) w.completion k)
  act-queued (leader_finishing_write g) e h k p =
      ground
        (arith, v.queued k, v.grouped k i, notify_lem g.reqs (completion_variant g) w.completion k)
  act-queued s e h k p = ground (arith, v.queued k)

  act-grouped :
      (s : Stage)
      → w.stage i ≡ s
      → act c i s w ≡ some w'
      → (k j : ℕ) → is_member k (group (w'.stage j)) ≡ true
      → (is_member k w'.syncs.write_queue ≡ false) × (is_unstarted (w'.stage k) ≡ false)
  unfolding act
  act-grouped (waiting_to_be_queued key value) e h k j p = ground (
    arith,
    v.grouped k j,
    is_member-push k w.syncs.write_queue (record { writer = i; key = key; value = value }),
  )
  act-grouped seeking_membership e h k j p =
      ground (arith, v.grouped k j, v.queued k, is_member-nil k)
  act-grouped (leader_holding_ticket g t l) e h k j p =
      ground (arith, quiet, v.grouped k j, v.grouped k i, is_member-assign_lsns k l g.reqs)
  act-grouped s e h k j p = ground (arith, v.grouped k j, v.grouped k i, is_member-nil k)

  act-unstarted :
      (s : Stage)
      → w.stage i ≡ s
      → act c i s w ≡ some w'
      → (k : ℕ) → is_unstarted (w'.stage k) ≡ true
      → is_none (w'.completion k) ≡ true
  unfolding act
  act-unstarted (waiting_to_be_queued key value) e h k p = ground (arith, v.unstarted k)
  act-unstarted seeking_membership e h k p = ground (
    arith,
    v.unstarted k,
    v.queued k,
    notify_lem w.syncs.write_queue (ok follower) w.completion k,
  )
  act-unstarted (leader_holding_ticket g t l) e h k p = ground (arith, quiet, v.unstarted k)
  act-unstarted (leader_writing_memtable g t) e h k p =
      ground (
        arith,
        v.unstarted k,
        v.grouped k i,
        notify_lem g.reqs (completion_variant g) w.completion k,
      )
  act-unstarted (leader_finishing_write g) e h k p =
      ground (
        arith,
        v.unstarted k,
        v.grouped k i,
        notify_lem g.reqs (completion_variant g) w.completion k,
      )
  act-unstarted s e h k p = ground (arith, v.unstarted k)

  act-led :
      (s : Stage)
      → w.stage i ≡ s
      → act c i s w ≡ some w'
      → (k : ℕ) → is_owed (w'.stage k) (w'.completion k) ≡ true
      → (j : ℕ) × (is_member k (group (w'.stage j)) ≡ true)
  act-led seeking_membership e h k p = elim (Bool-cases (is_member k w.syncs.write_queue)) [
    | inl here ↦ (i, seek_group c i w w' k e h here (v.queued k here) p)
    | inr elsewhere ↦
        let (j, m) = v.led k (seek_owed c i w w' k e h elsewhere p) in
        (j, seek_kept c i w w' k j e h m)
  ]
  act-led s e h k p =
      let (j, m) = v.led k (still_owed c quiet i w w' k s refl e h (v.unstarted i) p) in
      (j, kept_group c quiet i w w' k j s refl e h p m)

  act-owner :
      (s : Stage)
      → w.stage i ≡ s
      → act c i s w ≡ some w'
      → w'.syncs.wal_busy ≡ true
      → (j : ℕ) × (in_wal_stage (w'.stage j) ≡ true)
  act-owner s e h b = elim (kept_owner c quiet i w w' s e h b) [
    | inl here ↦ (i, here)
    | inr (busy, stays) ↦ let (j, m) = v.owner busy in (j, stays j m)
  ]

  act-holders :
      (s : Stage)
      → IsOrdered w
      → w.stage i ≡ s
      → act c i s w ≡ some w'
      → (t : ℕ) → w'.syncs.ticket_to_mem ≤ t
      → t < length w'.wal
      → (j : ℕ) × (mem_ticket (w'.stage j) ≡ some t)
  act-holders s o e h t low high =
      elim (kept_holder c quiet i w w' s (λ u k. (o.holds i u k).0) (o.turn i) e h t low high) [
        | inl here ↦ (i, here)
        | inr (above, below, stays) ↦ let (j, m) = v.holders t above below in (j, stays j m)
      ]

  pub act-IsServed : IsOrdered w → act c i (w.stage i) w ≡ some w' → IsServed w'
  act-IsServed o h = record {
    seekers = act-seekers (w.stage i) refl h;
    queued = act-queued (w.stage i) refl h;
    grouped = act-grouped (w.stage i) refl h;
    unstarted = act-unstarted (w.stage i) refl h;
    led = act-led (w.stage i) refl h;
    owner = act-owner (w.stage i) refl h;
    holders = act-holders (w.stage i) o refl h;
  }
