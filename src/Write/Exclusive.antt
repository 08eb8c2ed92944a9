-- ===== src/Write/Exclusive.antt =====
-- Only one writer at a time is in the stage that writes the log, whatever fails.
use easy_lsm.Base.{ℕ, ◌≡◌, refl, arith, Bool, true, false, some}
use easy_lsm.Entry.{Entry}
use easy_lsm.Write.{
  opened, World, Stage, Choice, Step, step, Reach, here, later, act, waiting_to_be_queued,
  leader_writing_wal, leader_holding_ticket,
}

abbrev pub in_wal_stage : Stage → Bool
in_wal_stage (leader_writing_wal g) = true
in_wal_stage (leader_holding_ticket g ticket lsn) = true
in_wal_stage _ = false

pub record IsExclusive (w : World) : Type 0 where
  pub busy : (i : ℕ) → in_wal_stage (w.stage i) ≡ true → w.syncs.wal_busy ≡ true
  pub alone : (i j : ℕ) → in_wal_stage (w.stage i) ≡ true → in_wal_stage (w.stage j) ≡ true → i ≡ j

act-busy :
    (c : Choice) (i : ℕ) (s : Stage) (w w' : World)
    → w.stage i ≡ s
    → act c i s w ≡ some w'
    → IsExclusive w
    → (j : ℕ) → in_wal_stage (w'.stage j) ≡ true
    → w'.syncs.wal_busy ≡ true
unfolding act
act-busy c i (waiting_to_be_queued key value) w w' e h v j k = ground (arith, v.busy j)
act-busy c i s w w' e h v j k = ground (arith, v.busy j, v.busy i, v.alone i j)

act-alone :
    (c : Choice) (i : ℕ) (s : Stage) (w w' : World)
    → w.stage i ≡ s
    → act c i s w ≡ some w'
    → IsExclusive w
    → (j k : ℕ) → in_wal_stage (w'.stage j) ≡ true
    → in_wal_stage (w'.stage k) ≡ true
    → j ≡ k
unfolding act
act-alone c i (waiting_to_be_queued key value) w w' e h v j k p q = ground (arith, v.alone j k)
act-alone c i s w w' e h v j k p q =
    ground (arith, v.alone j k, v.alone i k, v.alone j i, v.busy j, v.busy k, v.busy i)

pub Step-IsExclusive : {w w' : World} → Step w w' → IsExclusive w → IsExclusive w'
Step-IsExclusive {w} {w'} (step c i h) v = record {
  busy = act-busy c i (w.stage i) w w' refl h v;
  alone = act-alone c i (w.stage i) w w' refl h v;
}

pub Reach-IsExclusive : {s w : World} → IsExclusive s → Reach s w → IsExclusive w
Reach-IsExclusive v here = v
Reach-IsExclusive v (later r st) = Step-IsExclusive st (Reach-IsExclusive v r)

opened-IsExclusive : (lsn : ℕ) (entry : ℕ → Entry) → IsExclusive (opened lsn entry)
opened-IsExclusive lsn entry = record {
  busy = λ i h. absurd (cc h);
  alone = λ i j h k. absurd (cc h);
}

-- In every run from a database that was just opened, whatever fails: two writers that are in the
-- stage that writes the log are one, and the log is then marked busy.
pub wal_exclusive :
    (lsn : ℕ) (entry : ℕ → Entry) (w : World) (i j : ℕ)
    → Reach (opened lsn entry) w
    → in_wal_stage (w.stage i) ≡ true
    → in_wal_stage (w.stage j) ≡ true
    → (w.syncs.wal_busy ≡ true) × (i ≡ j)
wal_exclusive lsn entry w i j r h k =
    let v = Reach-IsExclusive (opened-IsExclusive lsn entry) r in (v.busy i h, v.alone i j h k)
