-- ===== src/Memtable/Lookup.antt =====
-- A memtable shows the newest of its writes to a key, and counts their bytes.
use easy_lsm.Base.{
  ◌^◌, ◌<◌, ◌≡◌, refl, ◌∙◌, ap, arith, List, [], ◌∷◌, All, ◌&&◌, Option, none, if◌then◌else◌, inl,
  inr, Bool-cases,
}
use easy_lsm.Codec.{Bytes}
use easy_lsm.Key
use easy_lsm.Key.{Key, cmp, cmp_bytes, eq_bytes, key_le}
use easy_lsm.Key.Order.{cmp_bytes-flip}
use easy_lsm.Value.{Value}
use easy_lsm.Entry.{Entry, IsSorted, first_of, newer, newest, insert_sorted}
use easy_lsm.Entry.Newest.{eq_bytes_lem, insert_sorted-IsSorted, first_of-insert_sorted}
use easy_lsm.SkipMap.{SkipMap, within}
use easy_lsm.Memtable.{u64_max, visible, first, Memtable, new, recover, put_batch, get, entries}

abbrev pub Lsn64 : List Entry → Type 0
Lsn64 es = All (λ (e : Entry). e.0.lsn < 2 ^ 64) es

-- The bounds of `get` hold exactly the versions of its key.
in_bounds :
    (k : Bytes) (key : Key)
    → key.lsn < 2 ^ 64
    → (key_le (Key.new k u64_max) key && key_le key (Key.new k 0)) ≡ eq_bytes key.bytes k
unfolding key_le cmp Key.new
in_bounds k key h = ground (arith, eq_bytes_lem key.bytes k, cmp_bytes-flip key.bytes k)

first-within :
    (k : Bytes) (es : List Entry)
    → Lsn64 es
    → first (within (Key.new k u64_max) (Key.new k 0) es) ≡ first_of k es
unfolding first
first-within k [] h = refl
first-within k (e ∷ es) (p, h) = elim (Bool-cases (eq_bytes e.0.bytes k)) [
  | inl same ↦ rw (in_bounds k e.0 p, same)
  | inr other ↦ rw (in_bounds k e.0 p, other) (first-within k es h)
]

insert_sorted-Lsn64 :
    (e : Entry) (es : List Entry) → e.0.lsn < 2 ^ 64 → Lsn64 es → Lsn64 (insert_sorted e es)
insert_sorted-Lsn64 e [] p h = (p, tt)
insert_sorted-Lsn64 e (f ∷ fs) p (q, h) = ground (arith, insert_sorted-Lsn64 e fs p h)

module _ (skip_map : SkipMap) where
  -- What every operation keeps of a memtable.
  pub record IsValid (m : Memtable skip_map) : Type 0 where
    pub sorted : IsSorted (entries skip_map m)
    pub lsns : Lsn64 (entries skip_map m)

  pub new-IsValid : IsValid (new skip_map)
  unfolding new entries
  new-IsValid = record { sorted = rw (skip_map.iter-empty) tt; lsns = rw (skip_map.iter-empty) tt }

  pub first_of-new : (k : Bytes) → first_of k (entries skip_map (new skip_map)) ≡ none
  unfolding new entries
  first_of-new k = rw (skip_map.iter-empty)

  pub recover-IsValid :
      (m : Memtable skip_map) (key : Key) (value : Value)
      → key.lsn < 2 ^ 64
      → IsValid m
      → IsValid (recover skip_map m key value)
  unfolding recover entries
  recover-IsValid m key value p v = record {
    sorted =
        rw (skip_map.iter-insert key value m.store)
          (insert_sorted-IsSorted (key, value) (skip_map.iter m.store) v.sorted);
    lsns =
        rw (skip_map.iter-insert key value m.store)
          (insert_sorted-Lsn64 (key, value) (skip_map.iter m.store) p v.lsns);
  }

  -- Putting a batch keeps a memtable valid: its entries strictly ascending in the order of keys,
  -- with LSNs of 64 bits, where those of the batch have 64 bits.
  pub put_batch-IsValid :
      (m : Memtable skip_map) (reqs : List Entry)
      → Lsn64 reqs
      → IsValid m
      → IsValid (put_batch skip_map m reqs)
  unfolding put_batch
  put_batch-IsValid m [] h v = v
  put_batch-IsValid m ((key, value) ∷ reqs) (p, h) v =
      put_batch-IsValid (recover skip_map m key value) reqs h (recover-IsValid m key value p v)

  pub get-first_of :
      (m : Memtable skip_map) (k : Bytes)
      → IsValid m
      → get skip_map m k ≡ visible (first_of k (entries skip_map m))
  unfolding get entries
  get-first_of m k v =
      rw (skip_map.range-within (Key.new k u64_max) (Key.new k 0) m.store)
        (ap visible (first-within k (skip_map.iter m.store) v.lsns))

  first_of-recover :
      (m : Memtable skip_map) (key : Key) (value : Value) (k : Bytes)
      → IsValid m
      → first_of k (entries skip_map (recover skip_map m key value)) ≡ (
          if eq_bytes key.bytes k
          then newer (key, value) (first_of k (entries skip_map m))
          else first_of k (entries skip_map m))
  unfolding recover entries
  first_of-recover m key value k v =
      rw (skip_map.iter-insert key value m.store)
        (first_of-insert_sorted (key, value) k (skip_map.iter m.store) v.sorted)

  first_of-put_batch :
      (m : Memtable skip_map) (reqs : List Entry) (k : Bytes)
      → Lsn64 reqs
      → IsValid m
      → first_of k (entries skip_map (put_batch skip_map m reqs))
        ≡ newest k (first_of k (entries skip_map m)) reqs
  unfolding put_batch
  first_of-put_batch m [] k h v = refl
  first_of-put_batch m ((key, value) ∷ reqs) k (p, h) v =
      first_of-put_batch (recover skip_map m key value) reqs k h (recover-IsValid m key value p v)
      ∙ ap (λ (o : Option Entry). newest k o reqs) (first_of-recover m key value k v)

  -- Reading a key from a valid memtable into which a batch was put shows the version of the highest
  -- LSN among the batch's writes to that key and what the memtable held before (of equal LSNs, the
  -- later write), and shows nothing where that version is a tombstone or there is none.
  pub get-put_batch :
      (m : Memtable skip_map) (reqs : List Entry) (k : Bytes)
      → Lsn64 reqs
      → IsValid m
      → get skip_map (put_batch skip_map m reqs) k
        ≡ visible (newest k (first_of k (entries skip_map m)) reqs)
  get-put_batch m reqs k h v =
      get-first_of (put_batch skip_map m reqs) k (put_batch-IsValid m reqs h v)
      ∙ ap visible (first_of-put_batch m reqs k h v)
