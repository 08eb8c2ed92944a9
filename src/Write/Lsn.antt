-- ===== src/Write/Lsn.antt =====
-- The numbers of the writes: in the order of the log they rise, whatever fails.
use easy_lsm.Base.{
  ℕ, suc, ◌+◌, ◌≤◌, ◌≡◌, refl, sym, arith, List, [], ◌∷◌, ◌++◌, length, append_assoc, append-nil,
  subst, Option, none, some,
}
use easy_lsm.Error.{DbError}
use easy_lsm.Entry.{Entry}
use easy_lsm.Key
use easy_lsm.Write.{
  opened, new_syncs, assign_lsns, World, Stage, Choice, step, Reach, here, later, act, GroupGuard,
  WriteRequest, waiting_to_be_queued, leader_writing_wal, leader_holding_ticket,
}
use easy_lsm.Write.Exclusive.{IsExclusive, Step-IsExclusive}

-- The LSNs of the requests rise, from `lo` on and below `hi`.
abbrev pub IsRising : ℕ → List WriteRequest → ℕ → Type 0
IsRising lo [] hi = lo ≤ hi
IsRising lo (q ∷ qs) hi = (lo ≤ q.key.lsn) × IsRising (q.key.lsn + 1) qs hi

abbrev pub requests : List (List WriteRequest) → List WriteRequest
requests [] = []
requests (b ∷ bs) = b ++ requests bs

requests-append :
    (xs ys : List (List WriteRequest)) → requests (xs ++ ys) ≡ requests xs ++ requests ys
requests-append [] ys = refl
requests-append (x ∷ xs) ys =
    rw (requests-append xs ys) (sym (append_assoc x (requests xs) (requests ys)))

IsRising-append :
    (lo mid hi : ℕ) (xs ys : List WriteRequest)
    → IsRising lo xs mid
    → IsRising mid ys hi
    → IsRising lo (xs ++ ys) hi
IsRising-append lo mid hi [] ys h k = IsRising-lower lo mid hi ys h k
  where
    IsRising-lower :
        (lo mid hi : ℕ) (ys : List WriteRequest) → lo ≤ mid → IsRising mid ys hi → IsRising lo ys hi
    IsRising-lower lo mid hi [] h k = omega arith
    IsRising-lower lo mid hi (y ∷ ys) h (p, k) = (omega arith, k)
IsRising-append lo mid hi (x ∷ xs) ys (p, h) k =
    (p, IsRising-append (x.key.lsn + 1) mid hi xs ys h k)

IsRising-higher :
    (lo mid hi : ℕ) (xs : List WriteRequest) → mid ≤ hi → IsRising lo xs mid → IsRising lo xs hi
IsRising-higher lo mid hi [] h k = omega arith
IsRising-higher lo mid hi (x ∷ xs) h (p, k) = (p, IsRising-higher (x.key.lsn + 1) mid hi xs h k)

assign_lsns-IsRising :
    (l : ℕ) (qs : List WriteRequest) → IsRising l (assign_lsns l qs) (l + length qs)
unfolding assign_lsns Key.update_lsn
assign_lsns-IsRising l [] = omega arith
assign_lsns-IsRising l (q ∷ qs) = (
  omega arith,
  IsRising-higher (l + 1) (l + 1 + length qs) (l + suc (length qs)) (assign_lsns (l + 1) qs)
      (omega arith) (assign_lsns-IsRising (l + 1) qs),
)

-- `top` is the end of the numbers in the log; those from `top` on may be out with a leader.
record IsNumbered (lo top : ℕ) (w : World) : Type 0 where
  exclusive : IsExclusive w
  rising : IsRising lo (requests w.wal) top
  below : top ≤ w.syncs.next_lsn
  out :
      (i t l : ℕ) (g : GroupGuard)
      → w.stage i ≡ leader_holding_ticket g t l
      → (top ≤ l) × (l + length g.reqs ≤ w.syncs.next_lsn)

abbrev top_after : Choice → Stage → ℕ → ℕ
top_after c (leader_holding_ticket g t l) top = elim c.wal_error [
  | none ↦ l + length g.reqs
  | some e ↦ top
]
top_after c _ top = top

abbrev wal_after : Choice → Stage → List (List WriteRequest) → List (List WriteRequest)
wal_after c (leader_holding_ticket g t l) wal = elim c.wal_error [
  | none ↦ wal ++ (assign_lsns l g.reqs ∷ [])
  | some e ↦ wal
]
wal_after c _ wal = wal

module _ (lo top : ℕ) (c : Choice) (i : ℕ) (w w' : World) (v : IsNumbered lo top w) where
  act-wal : (s : Stage) → act c i s w ≡ some w' → w'.wal ≡ wal_after c s w.wal
  unfolding act
  act-wal (waiting_to_be_queued key value) h = ground arith
  act-wal s h = ground arith

  IsRising-written :
      (t l : ℕ) (g : GroupGuard)
      → w.stage i ≡ leader_holding_ticket g t l
      → IsRising lo (requests (w.wal ++ (assign_lsns l g.reqs ∷ []))) (l + length g.reqs)
  IsRising-written t l g e =
      rw (requests-append w.wal (assign_lsns l g.reqs ∷ []), append-nil (assign_lsns l g.reqs))
        (IsRising-append lo l (l + length g.reqs) (requests w.wal) (assign_lsns l g.reqs)
          (IsRising-higher lo top l (requests w.wal) (v.out i t l g e).0 v.rising)
          (assign_lsns-IsRising l g.reqs))

  IsRising-after :
      (s : Stage) (error : Option DbError)
      → w.stage i ≡ s
      → c.wal_error ≡ error
      → IsRising lo (requests (wal_after c s w.wal)) (top_after c s top)
  IsRising-after (leader_holding_ticket g t l) none e q =
      rw (q, wal_after) (IsRising-written t l g e)
  IsRising-after (leader_holding_ticket g t l) (some x) e q = rw (q, wal_after) v.rising
  IsRising-after s error e q = v.rising

  act-below :
      (s : Stage) → w.stage i ≡ s → act c i s w ≡ some w' → top_after c s top ≤ w'.syncs.next_lsn
  unfolding act
  act-below (waiting_to_be_queued key value) e h = ground (arith, v.below)
  act-below (leader_holding_ticket g t l) e h = ground (arith, v.below, v.out i t l g)
  act-below s e h = ground (arith, v.below)

  act-out :
      (s : Stage)
      → w.stage i ≡ s
      → act c i s w ≡ some w'
      → (j t l : ℕ) (g : GroupGuard) → w'.stage j ≡ leader_holding_ticket g t l
      → (top_after c s top ≤ l) × (l + length g.reqs ≤ w'.syncs.next_lsn)
  unfolding act
  act-out (waiting_to_be_queued key value) e h j t l g k = ground (arith, v.out j t l g)
  act-out (leader_holding_ticket g' t' l') e h j t l g k =
      ground (arith, v.out j t l g, v.exclusive.alone i j)
  act-out (leader_writing_wal g') e h j t l g k =
      ground (arith, v.below, v.out j t l g, v.exclusive.alone i j)
  act-out s e h j t l g k = ground (arith, v.out j t l g)

  act-IsNumbered : act c i (w.stage i) w ≡ some w' → IsNumbered lo (top_after c (w.stage i) top) w'
  act-IsNumbered h = record {
    exclusive = Step-IsExclusive (step c i h) v.exclusive;
    rising =
        subst (λ wal. IsRising lo (requests wal) (top_after c (w.stage i) top))
          (sym (act-wal (w.stage i) h)) (IsRising-after (w.stage i) c.wal_error refl refl);
    below = act-below (w.stage i) refl h;
    out = act-out (w.stage i) refl h;
  }

Reach-IsNumbered :
    {s w : World} (lo : ℕ) → IsNumbered lo lo s → Reach s w → (top : ℕ) × IsNumbered lo top w
Reach-IsNumbered lo v here = (lo, v)
Reach-IsNumbered {w = x} lo v (later {w} r (step c i h)) =
    let (top, u) = Reach-IsNumbered lo v r in
    (top_after c (w.stage i) top, act-IsNumbered lo top c i w x u h)

opened-IsNumbered : (lsn : ℕ) (entry : ℕ → Entry) → IsNumbered lsn lsn (opened lsn entry)
unfolding new_syncs
opened-IsNumbered lsn entry = record {
  exclusive = record { busy = λ i h. cc; alone = λ i j h k. cc };
  rising = omega arith;
  below = omega arith;
  out = λ i t l g h. absurd (cc h);
}

-- In every run from a database that was just opened, also where writes to the log or rotations
-- fail: the LSNs of the requests in the log rise strictly in the order of the log, start at the
-- first LSN or above it, and all lie below the next LSN.
pub wal-IsRising :
    (lsn : ℕ) (entry : ℕ → Entry) (w : World)
    → Reach (opened lsn entry) w
    → IsRising lsn (requests w.wal) w.syncs.next_lsn
wal-IsRising lsn entry w r =
    let (top, v) = Reach-IsNumbered lsn (opened-IsNumbered lsn entry) r in
    IsRising-higher lsn top w.syncs.next_lsn (requests w.wal) v.below v.rising
