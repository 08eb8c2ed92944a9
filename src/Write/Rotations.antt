-- ===== src/Write/Rotations.antt =====
-- Rotations while writers are under way: what the logs and the memtables have taken by then.
use easy_lsm.Base.{
  ℕ, ◌≤◌, ◌≡◌, ap, subst, sym, arith, [], ◌∷◌, ◌++◌, length, take, length-take, All, All-append,
  Option-cases, some, inl, inr, ◌⊎◌,
}
use easy_lsm.Error.{Result-cases}
use easy_lsm.Entry.{Entry}
use easy_lsm.Write.{
  opened, World, Stage, Choice, act, waiting_to_be_queued, leader_holding_ticket,
  leader_writing_memtable, rotate,
}
use easy_lsm.Write.Order.{
  WalReach, here, later, mem-prefix-wal, IsOrdered, WalReach-IsOrdered, opened-IsOrdered,
}

-- Of the batches that a rotation freezes, each is in the logs that it closes.
abbrev pub Covered : ℕ × ℕ → Type 0
Covered (logged, put) = put ≤ logged

abbrev Rotates : World → World → Type 0
Rotates w w' =
    (w'.rotations ≡ w.rotations)
    ⊎ (w'.rotations ≡ w.rotations ++ ((length w'.wal, length w'.mem) ∷ []))

act-Rotates : (c : Choice) (i : ℕ) (s : Stage) (w w' : World) → act c i s w ≡ some w' → Rotates w w'
unfolding act rotate
act-Rotates c i (leader_writing_memtable g t) w w' h = elim (Option-cases c.rotation) [
  | inl e ↦ inl (ground (arith, e))
  | inr (r, e) ↦ elim (Result-cases r) [
    | inl (u, q) ↦ inr (ground (arith, e, q))
    | inr (x, q) ↦ inl (ground (arith, e, q))
  ]
]
act-Rotates c i (waiting_to_be_queued key value) w w' h = inl (ground arith)
act-Rotates c i (leader_holding_ticket g t l) w w' h = inl (ground arith)
act-Rotates c i s w w' h = inl (ground arith)

act-Covered :
    (w w' : World)
    → Rotates w w'
    → length w'.mem ≤ length w'.wal
    → All Covered w.rotations
    → All Covered w'.rotations
act-Covered w w' (inl e) le h = subst (All Covered) (sym e) h
act-Covered w w' (inr e) le h =
    subst (All Covered) (sym e) (All-append Covered w.rotations _ h (le, tt))

behind : (w : World) → IsOrdered w → length w.mem ≤ length w.wal
behind w v =
    let e : length w.mem ≡ length (take w.syncs.ticket_to_mem w.wal) = ap length v.prefix in
    omega (arith, v.reached, e, length-take w.syncs.ticket_to_mem w.wal v.reached)

WalReach-Covered :
    {s w : World} → IsOrdered s → All Covered s.rotations → WalReach s w → All Covered w.rotations
WalReach-Covered v h here = h
WalReach-Covered v h (later {w = w} {w' = w'} c i r quiet e) =
    act-Covered w w' (act-Rotates c i (w.stage i) w w' e)
      (behind w' (WalReach-IsOrdered v (later c i r quiet e))) (WalReach-Covered v h r)

-- In every run from a database that was just opened, in which the log can be written, and in which
-- memtables are rotated or fail to be: over all the logs and memtables since the opening, the batches
-- that were put into memtables are a prefix of those that were logged, in the same order and with
-- the same requests; and each rotation has frozen no batch that is not in the logs it closed.
pub put_as_logged :
    (lsn : ℕ) (entry : ℕ → Entry) (w : World)
    → WalReach (opened lsn entry) w
    → (w.mem ≡ take (length w.mem) w.wal) × All Covered w.rotations
put_as_logged lsn entry w r =
    (mem-prefix-wal lsn entry w r, WalReach-Covered (opened-IsOrdered lsn entry) tt r)
