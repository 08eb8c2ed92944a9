-- ===== src/Write/Order.antt =====
-- The order of the batches: while the log can be written, the memtable takes the batches in the
-- order of the log, one leader at a time.
use easy_lsm.Base.{
  ℕ, zero, suc, ◌+◌, ◌≤◌, ◌<◌, ◌≡◌, refl, ◌∙◌, ap, arith, List, [], ◌∷◌, ◌++◌, length, take,
  get_elem?, Bool, true, false, Option, none, some, length-append, take-append, length-take,
}
use easy_lsm.Entry.{Entry}
use easy_lsm.Write.{
  opened, new_syncs, assign_lsns, World, Stage, Choice, step, act, WriteRequest,
  waiting_to_be_queued, leader_writing_wal, leader_holding_ticket, leader_waiting_to_write_memtable,
  leader_writing_memtable,
}
use easy_lsm.Write.Exclusive.{in_wal_stage, IsExclusive, Step-IsExclusive}

-- Runs in which every write to the log succeeds; rotations may fail.
pub data WalReach (start : World) : World → Type 0 where
  here : WalReach start start
  later :
      {w w' : World} (c : Choice) (i : ℕ)
      → WalReach start w
      → c.wal_error ≡ none
      → act c i (w.stage i) w ≡ some w'
      → WalReach start w'

abbrev pub mem_ticket : Stage → Option ℕ
mem_ticket (leader_waiting_to_write_memtable g ticket) = some ticket
mem_ticket (leader_writing_memtable g ticket) = some ticket
mem_ticket _ = none

abbrev pub mem_batch : Stage → List WriteRequest
mem_batch (leader_waiting_to_write_memtable g ticket) = g.reqs
mem_batch (leader_writing_memtable g ticket) = g.reqs
mem_batch _ = []

abbrev pub in_mem_stage : Stage → Bool
in_mem_stage (leader_writing_memtable g ticket) = true
in_mem_stage _ = false

-- The ticket that is out for a batch on its way to the log.
abbrev pub held : Stage → Option ℕ
held (leader_holding_ticket g ticket lsn) = some ticket
held _ = none

pub record IsOrdered (w : World) : Type 0 where
  pub exclusive : IsExclusive w
  pub free : w.syncs.wal_busy ≡ false → w.syncs.next_ticket ≡ length w.wal
  pub unheld :
      (i : ℕ)
      → in_wal_stage (w.stage i) ≡ true
      → held (w.stage i) ≡ none
      → w.syncs.next_ticket ≡ length w.wal
  pub holds :
      (i t : ℕ)
      → held (w.stage i) ≡ some t
      → (t ≡ length w.wal) × (w.syncs.next_ticket ≡ length w.wal + 1)
  pub reached : w.syncs.ticket_to_mem ≤ length w.wal
  pub prefix : w.mem ≡ take w.syncs.ticket_to_mem w.wal
  pub logged :
      (i t : ℕ)
      → mem_ticket (w.stage i) ≡ some t
      → (w.syncs.ticket_to_mem ≤ t)
        × (t < length w.wal)
        × (get_elem? w.wal t ≡ some (mem_batch (w.stage i)))
  pub unique :
      (i j t : ℕ) → mem_ticket (w.stage i) ≡ some t → mem_ticket (w.stage j) ≡ some t → i ≡ j
  pub turn :
      (i t : ℕ)
      → in_mem_stage (w.stage i) ≡ true
      → mem_ticket (w.stage i) ≡ some t
      → t ≡ w.syncs.ticket_to_mem

module _ {ℓ} {A : Type ℓ} where
  get_elem?-append :
      (xs ys : List A) (t : ℕ) (a : A) → get_elem? xs t ≡ some a → get_elem? (xs ++ ys) t ≡ some a
  get_elem?-append [] ys t a h = cc
  get_elem?-append (x ∷ xs) ys zero a h = h
  get_elem?-append (x ∷ xs) ys (suc t) a h = get_elem?-append xs ys t a h

  get_elem?-last : (xs : List A) (a : A) → get_elem? (xs ++ (a ∷ [])) (length xs) ≡ some a
  get_elem?-last [] a = refl
  get_elem?-last (x ∷ xs) a = get_elem?-last xs a

  take-suc :
      (t : ℕ) (xs : List A) (a : A)
      → get_elem? xs t ≡ some a
      → take t xs ++ (a ∷ []) ≡ take (t + 1) xs
  take-suc t [] a h = cc
  take-suc zero (x ∷ xs) a h = ground arith
  take-suc (suc t) (x ∷ xs) a h = ground (arith, take-suc t xs a h)

module _ (c : Choice) (quiet : c.wal_error ≡ none) (i : ℕ) (w w' : World) (v : IsOrdered w) where
  act-free :
      (s : Stage)
      → w.stage i ≡ s
      → act c i s w ≡ some w'
      → w'.syncs.wal_busy ≡ false
      → w'.syncs.next_ticket ≡ length w'.wal
  unfolding act
  act-free (waiting_to_be_queued key value) e h k = ground (arith, v.free)
  act-free (leader_holding_ticket g t l) e h k =
      ground (arith, quiet, v.holds i t, length-append w.wal (assign_lsns l g.reqs ∷ []))
  act-free s e h k = ground (arith, v.free, v.exclusive.busy i)

  act-unheld :
      (s : Stage)
      → w.stage i ≡ s
      → act c i s w ≡ some w'
      → (j : ℕ) → in_wal_stage (w'.stage j) ≡ true
      → held (w'.stage j) ≡ none
      → w'.syncs.next_ticket ≡ length w'.wal
  unfolding act
  act-unheld (waiting_to_be_queued key value) e h j k n = ground (arith, v.unheld j)
  act-unheld (leader_holding_ticket g t l) e h j k n =
      ground (arith, quiet, v.holds i t, v.exclusive.alone i j)
  act-unheld s e h j k n = ground (arith, v.free, v.unheld j, v.unheld i, v.exclusive.alone i j)

  act-holds :
      (s : Stage)
      → w.stage i ≡ s
      → act c i s w ≡ some w'
      → (j t : ℕ) → held (w'.stage j) ≡ some t
      → (t ≡ length w'.wal) × (w'.syncs.next_ticket ≡ length w'.wal + 1)
  unfolding act
  act-holds (waiting_to_be_queued key value) e h j t k = ground (arith, v.holds j t)
  act-holds (leader_holding_ticket g u l) e h j t k =
      ground (arith, quiet, v.holds j t, v.exclusive.alone i j)
  act-holds (leader_writing_wal g) e h j t k =
      ground (arith, v.unheld i, v.holds j t, v.exclusive.alone i j)
  act-holds s e h j t k = ground (arith, v.holds j t)

  act-reached :
      (s : Stage) → w.stage i ≡ s → act c i s w ≡ some w' → w'.syncs.ticket_to_mem ≤ length w'.wal
  unfolding act
  act-reached (waiting_to_be_queued key value) e h = ground (arith, v.reached)
  act-reached (leader_holding_ticket g t l) e h =
      ground (arith, quiet, v.reached, length-append w.wal (assign_lsns l g.reqs ∷ []))
  act-reached (leader_writing_memtable g t) e h = ground (arith, v.logged i t, v.turn i t)
  act-reached s e h = ground (arith, v.reached)

  act-prefix :
      (s : Stage)
      → w.stage i ≡ s
      → act c i s w ≡ some w'
      → w'.mem ≡ take w'.syncs.ticket_to_mem w'.wal
  unfolding act
  act-prefix (waiting_to_be_queued key value) e h = ground (arith, v.prefix)
  act-prefix (leader_holding_ticket g t l) e h = ground (
    arith,
    quiet,
    v.prefix,
    v.reached,
    take-append w.syncs.ticket_to_mem w.wal (assign_lsns l g.reqs ∷ []),
  )
  act-prefix (leader_writing_memtable g t) e h =
      ground (arith, v.prefix, v.logged i t, v.turn i t, take-suc t w.wal (g.reqs))
  act-prefix s e h = ground (arith, v.prefix)

  act-logged :
      (s : Stage)
      → w.stage i ≡ s
      → act c i s w ≡ some w'
      → (j t : ℕ) → mem_ticket (w'.stage j) ≡ some t
      → (w'.syncs.ticket_to_mem ≤ t)
        × (t < length w'.wal)
        × (get_elem? w'.wal t ≡ some (mem_batch (w'.stage j)))
  unfolding act
  act-logged (waiting_to_be_queued key value) e h j t k = ground (arith, v.logged j t)
  act-logged (leader_holding_ticket g u l) e h j t k =
      let batch = assign_lsns l g.reqs in
      ground (
        arith,
        quiet,
        v.reached,
        v.logged j t,
        v.holds i u,
        length-append w.wal (batch ∷ []),
        get_elem?-last w.wal batch,
        get_elem?-append w.wal (batch ∷ []) t (mem_batch (w.stage j)),
      )
  act-logged (leader_waiting_to_write_memtable g u) e h j t k =
      ground (arith, v.logged j t, v.logged i u)
  act-logged (leader_writing_memtable g u) e h j t k =
      ground (arith, v.logged j t, v.turn i u, v.unique i j u)
  act-logged s e h j t k = ground (arith, v.logged j t)

  act_unique :
      (s : Stage)
      → w.stage i ≡ s
      → act c i s w ≡ some w'
      → (j k t : ℕ) → mem_ticket (w'.stage j) ≡ some t
      → mem_ticket (w'.stage k) ≡ some t
      → j ≡ k
  unfolding act
  act_unique (waiting_to_be_queued key value) e h j k t p q = ground (arith, v.unique j k t)
  act_unique (leader_holding_ticket g u l) e h j k t p q =
      ground (arith, quiet, v.unique j k t, v.holds i u, v.logged j t, v.logged k t)
  act_unique (leader_waiting_to_write_memtable g u) e h j k t p q =
      ground (arith, v.unique j k t, v.unique i k t, v.unique j i t)
  act_unique s e h j k t p q = ground (arith, v.unique j k t)

  act-turn :
      (s : Stage)
      → w.stage i ≡ s
      → act c i s w ≡ some w'
      → (j t : ℕ) → in_mem_stage (w'.stage j) ≡ true
      → mem_ticket (w'.stage j) ≡ some t
      → t ≡ w'.syncs.ticket_to_mem
  unfolding act
  act-turn (waiting_to_be_queued key value) e h j t p q = ground (arith, v.turn j t)
  act-turn (leader_holding_ticket g u l) e h j t p q = ground (arith, quiet, v.turn j t)
  act-turn (leader_writing_memtable g u) e h j t p q =
      ground (arith, v.turn j t, v.turn i u, v.unique i j u)
  act-turn s e h j t p q = ground (arith, v.turn j t)

  pub act-IsOrdered : act c i (w.stage i) w ≡ some w' → IsOrdered w'
  act-IsOrdered h = record {
    exclusive = Step-IsExclusive (step c i h) v.exclusive;
    free = act-free (w.stage i) refl h;
    unheld = act-unheld (w.stage i) refl h;
    holds = act-holds (w.stage i) refl h;
    reached = act-reached (w.stage i) refl h;
    prefix = act-prefix (w.stage i) refl h;
    logged = act-logged (w.stage i) refl h;
    unique = act_unique (w.stage i) refl h;
    turn = act-turn (w.stage i) refl h;
  }

pub WalReach-IsOrdered : {s w : World} → IsOrdered s → WalReach s w → IsOrdered w
WalReach-IsOrdered v here = v
WalReach-IsOrdered v (later {w = w} {w' = w'} c i r quiet h) =
    act-IsOrdered c quiet i w w' (WalReach-IsOrdered v r) h

pub opened-IsOrdered : (lsn : ℕ) (entry : ℕ → Entry) → IsOrdered (opened lsn entry)
unfolding new_syncs
opened-IsOrdered lsn entry = record {
  exclusive = record { busy = λ i h. cc; alone = λ i j h k. cc };
  free = λ h. refl;
  unheld = λ i h k. refl;
  holds = λ i t h. cc;
  reached = omega arith;
  prefix = refl;
  logged = λ i t h. cc;
  unique = λ i j t h k. cc;
  turn = λ i t h k. cc;
}

take-length {ℓ} :
    {A : Type ℓ} (t : ℕ) (xs ys : List A)
    → t ≤ length xs
    → ys ≡ take t xs
    → ys ≡ take (length ys) xs
take-length t xs ys h e = rw (let n : length ys ≡ t = ap length e ∙ length-take t xs h in n) e

-- The batches that reached memtables are a prefix of those that reached logs.
pub mem-prefix-wal :
    (lsn : ℕ) (entry : ℕ → Entry) (w : World)
    → WalReach (opened lsn entry) w
    → w.mem ≡ take (length w.mem) w.wal
mem-prefix-wal lsn entry w r =
    let v = WalReach-IsOrdered (opened-IsOrdered lsn entry) r in
    take-length w.syncs.ticket_to_mem w.wal w.mem v.reached v.prefix

served :
    (s : Stage) (n : ℕ)
    → in_mem_stage s ≡ true
    → ((t : ℕ) → mem_ticket s ≡ some t → t ≡ n)
    → mem_ticket s ≡ some n
served (leader_writing_memtable g ticket) n p h = ap (λ (t : ℕ). some t) (h ticket refl)
served (waiting_to_be_queued key value) n p h = cc
served s n p h = cc

-- In every run from a database that was just opened, in which the log can be written: no two
-- leaders are in the stage that writes the memtable.
memtable_exclusive :
    (lsn : ℕ) (entry : ℕ → Entry) (w : World) (i j : ℕ)
    → WalReach (opened lsn entry) w
    → in_mem_stage (w.stage i) ≡ true
    → in_mem_stage (w.stage j) ≡ true
    → i ≡ j
memtable_exclusive lsn entry w i j r p q =
    one_turn w (WalReach-IsOrdered (opened-IsOrdered lsn entry) r) i j p q
  where
    my_turn :
        (w : World)
        → IsOrdered w
        → (i : ℕ) → in_mem_stage (w.stage i) ≡ true
        → mem_ticket (w.stage i) ≡ some w.syncs.ticket_to_mem
    my_turn w v i p = served (w.stage i) w.syncs.ticket_to_mem p (λ t. v.turn i t p)

    one_turn :
        (w : World)
        → IsOrdered w
        → (i j : ℕ) → in_mem_stage (w.stage i) ≡ true
        → in_mem_stage (w.stage j) ≡ true
        → i ≡ j
    one_turn w v i j p q = v.unique i j w.syncs.ticket_to_mem (my_turn w v i p) (my_turn w v j q)
