-- ===== src/Db/Logs.antt =====
-- lib.rs: what the replay of several logs gives, and what a search of its memtables answers.
use easy_lsm.Base.{
  ℕ, ◌^◌, ◌<◌, List, [], ◌∷◌, ◌++◌, Option, none, some, ◌≡◌, refl, ap, All, Option-cases, inl, inr,
}
use easy_lsm.Error.{ok}
use easy_lsm.Codec.{Bytes}
use easy_lsm.Value.{Value}
use easy_lsm.Entry.{Entry, Fits, newest}
use easy_lsm.SkipMap.{SkipMap}
use easy_lsm.Memtable
use easy_lsm.Memtable.{Memtable, put_batch, visible}
use easy_lsm.Directory
use easy_lsm.Directory.{Directory, wal}
use easy_lsm.Wal.Torn.{session, in_order, read_log-session}
use easy_lsm.Db.{replay_immutable_wal, replay_frozen, last, all_but_last, search_frozen, read_wal}
use easy_lsm.Db.Recover.{replay-put_batch, get_replayed, All-in_order}

-- The number of a log, and the batches that were written to it.
abbrev pub Log : Type 0
Log = ℕ × List (List Entry)

abbrev pub numbers : List Log → List ℕ
numbers [] = []
numbers ((id, batches) ∷ logs) = id ∷ numbers logs

pub last-append : (ids : List ℕ) (id : ℕ) → last (ids ++ (id ∷ [])) ≡ some id
unfolding last
last-append [] id = refl
last-append (x ∷ []) id = refl
last-append (x ∷ y ∷ ids) id = last-append (y ∷ ids) id

pub all_but_last-append : (ids : List ℕ) (id : ℕ) → all_but_last (ids ++ (id ∷ [])) ≡ ids
unfolding all_but_last
all_but_last-append [] id = refl
all_but_last-append (x ∷ []) id = refl
all_but_last-append (x ∷ y ∷ ids) id =
    ap (λ (rest : List ℕ). x ∷ rest) (all_but_last-append (y ∷ ids) id)

module _ (skip_map : SkipMap) (Table : Type 0) (crc32 : Bytes → ℕ) where
  -- Each log is a file of the directory that writes of whole batches made.
  abbrev pub Logged : Directory → List Log → Type 0
  Logged d [] = Unit
  Logged d ((id, batches) ∷ logs) =
      (Directory.read (wal id) d ≡ some (session crc32 batches))
      × All (All Fits) batches
      × Logged d logs

  -- What a log shows of a key, and what the logs show of it: the newest that shows a value.
  abbrev pub shown : List (List Entry) → Bytes → Option Value
  shown batches k = visible (newest k none (in_order crc32 batches))

  abbrev pub answer : List Log → Bytes → Option Value
  answer [] k = none
  answer ((id, batches) ∷ logs) k = elim (answer logs k) [
    | some val ↦ some val
    | none ↦ shown batches k
  ]

  pub answer-append_some :
      (logs : List Log) (id : ℕ) (batches : List (List Entry)) (k : Bytes) (val : Value)
      → shown batches k ≡ some val
      → answer (logs ++ ((id, batches) ∷ [])) k ≡ some val
  answer-append_some [] id batches k val e = e
  answer-append_some ((x, b) ∷ logs) id batches k val e =
      rw (answer-append_some logs id batches k val e) refl

  pub answer-append_none :
      (logs : List Log) (id : ℕ) (batches : List (List Entry)) (k : Bytes)
      → shown batches k ≡ none
      → answer (logs ++ ((id, batches) ∷ [])) k ≡ answer logs k
  answer-append_none [] id batches k e = e
  answer-append_none ((x, b) ∷ logs) id batches k e =
      rw (answer-append_none logs id batches k e) refl

  abbrev pub replayed : List (List Entry) → Memtable skip_map
  replayed batches = put_batch skip_map (Memtable.new skip_map) (in_order crc32 batches)

  abbrev pub frozen : List Log → List (Memtable skip_map)
  frozen [] = []
  frozen ((id, batches) ∷ logs) = Memtable.freeze skip_map (replayed batches) ∷ frozen logs

  module _ (crc32_u32 : (bs : Bytes) → crc32 bs < 2 ^ 32) where
    replay_immutable_wal-session :
        (id : ℕ) (d : Directory) (batches : List (List Entry))
        → All (All Fits) batches
        → Directory.read (wal id) d ≡ some (session crc32 batches)
        → replay_immutable_wal skip_map Table crc32 id d
          ≡ ok (Memtable.freeze skip_map (replayed batches))
    unfolding replay_immutable_wal read_wal
    replay_immutable_wal-session id d batches h e =
        let all : read_wal skip_map Table crc32 id d ≡ ok (in_order crc32 batches) =
          rw (e, read_wal) (rw (read_log-session crc32 crc32_u32 batches h)) in
        rw (all, replay_immutable_wal)
          (rw (
            replay-put_batch skip_map Table crc32 (in_order crc32 batches) (Memtable.new skip_map)))

    pub replay_frozen-session :
        (d : Directory) (logs : List Log)
        → Logged d logs
        → replay_frozen skip_map Table crc32 (numbers logs) d ≡ ok (frozen logs)
    unfolding replay_frozen
    replay_frozen-session d [] h = refl
    replay_frozen-session d ((id, batches) ∷ logs) (e, fits, h) =
        rw (replay_immutable_wal-session id d batches fits e, replay_frozen)
          (rw (replay_frozen-session d logs h))

    get_frozen :
        (batches : List (List Entry)) (k : Bytes)
        → All (All Fits) batches
        → Memtable.get skip_map (Memtable.freeze skip_map (replayed batches)) k ≡ shown batches k
    unfolding Memtable.freeze Memtable.get
    get_frozen batches k fits =
        get_replayed skip_map Table crc32 k (in_order crc32 batches)
          (All-in_order skip_map Table crc32 batches fits)

    pub search_frozen-session :
        (d : Directory) (logs : List Log) (k : Bytes)
        → Logged d logs
        → search_frozen skip_map Table (frozen logs) k ≡ answer logs k
    unfolding search_frozen
    search_frozen-session d [] k h = refl
    search_frozen-session d ((id, batches) ∷ logs) k (e, fits, h) =
        rw (search_frozen-session d logs k h) (elim (Option-cases (answer logs k)) [
          | inr (val, q) ↦ rw q refl
          | inl q ↦ rw q (get_frozen batches k fits)
        ])
