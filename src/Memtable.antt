-- ===== src/Memtable.antt =====
-- data_stores/memtable.rs: a memtable is an ordered map of versions with a count of bytes. The
-- marker types `Mutable` and `Immutable` only say which methods may be called.
mod Tests
pub mod Lookup
pub mod Size
use easy_lsm.Base.{ℕ, zero, suc, ◌+◌, ◌-◌, ◌^◌, List, [], ◌∷◌, length, Option, none, some}
use easy_lsm.Codec.{Bytes}
use easy_lsm.Key
use easy_lsm.Key.{Key}
use easy_lsm.Value
use easy_lsm.Value.{Value, bytes, str, int, tombstone}
use easy_lsm.Entry.{Entry}
use easy_lsm.SkipMap.{SkipMap}

abbrev pub u64_max : ℕ
u64_max = 2 ^ 64 - 1

unfoldable pub value_len : Value → ℕ
value_len (bytes b) = length b
value_len (str s) = length s
value_len (int i) = 8
value_len tombstone = 0

-- What a reader is shown of an entry that was found: nothing of a tombstone.
unfoldable pub visible : Option Entry → Option Value
visible none = none
visible (some (key, tombstone)) = none
visible (some (key, value)) = some value

-- `range.into_iter().next()`
unfoldable pub first : List Entry → Option Entry
first [] = none
first (e ∷ es) = some e

module _ (skip_map : SkipMap) where
  open skip_map use {Map, empty, insert, iter, range}

  pub record Memtable : Type 0 where
    pub store : Map
    pub size_bytes : ℕ

  unfoldable pub new : Memtable
  new = record { store = empty; size_bytes = 0 }

  unfoldable pub recover : Memtable → Key → Value → Memtable
  unfolding value_len
  recover m key value =
      let entry_size =
        Key.serialized_header_size
        + length key.bytes
        + Value.serialized_header_size
        + value_len value in
      record { store = insert key value m.store; size_bytes = m.size_bytes + entry_size }

  -- `put_batch`, on the keys and values of the requests.
  unfoldable pub put_batch : Memtable → List Entry → Memtable
  unfolding recover
  put_batch m [] = m
  put_batch m ((key, value) ∷ reqs) = put_batch (recover m key value) reqs

  unfoldable pub size : Memtable → ℕ
  size m = m.size_bytes

  -- `freeze` and `freeze_from_ref`: the same store under another marker.
  unfoldable pub freeze : Memtable → Memtable
  freeze m = record { store = m.store; size_bytes = m.size_bytes }

  unfoldable pub get : Memtable → Bytes → Option Value
  unfolding first visible
  get m key_bytes =
      let start = Key.new key_bytes u64_max in
      let end = Key.new key_bytes 0 in visible (first (range start end m.store))

  unfoldable pub entries : Memtable → List Entry
  entries m = iter m.store
