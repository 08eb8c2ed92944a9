-- ===== src/Memtable/Tests.antt =====
-- memtable.rs on a sorted list.
use easy_lsm.Base.{ℕ, ◌+◌, length, ◌≡◌, arith, List, [], ◌∷◌, some}
use easy_lsm.Key
use easy_lsm.Key.{Key}
use easy_lsm.Value.{Value, bytes, tombstone}
use easy_lsm.Entry.{Entry}
use easy_lsm.SkipMap.{sorted_list}
use easy_lsm.Sstable.Block.{encode_block}
use easy_lsm.Memtable.Size.{size-put_batch}
use easy_lsm.Memtable.{size, new, put_batch, get, visible, entries}
use easy_lsm.Memtable.Lookup.{get-put_batch, new-IsValid}

abbrev version : ℕ → ℕ → Value → Entry
version lsn k value = (record { lsn = lsn; bytes = k ∷ [] }, value)

-- The later LSN is written first.
abbrev reqs : List Entry
reqs = version 9 1 (bytes (3 ∷ [])) ∷ version 4 1 (bytes (2 ∷ [])) ∷ version 5 2 tombstone ∷ []

get-put_batch_example :
    get sorted_list (put_batch sorted_list (new sorted_list) reqs) (1 ∷ []) ≡ some (bytes (3 ∷ []))
unfolding visible Key.eq_bytes entries new
get-put_batch_example =
    get-put_batch sorted_list (new sorted_list) reqs (1 ∷ [])
      (omega arith, (omega arith, (omega arith, tt))) (new-IsValid sorted_list)

size-put_batch_example :
    size sorted_list (put_batch sorted_list (new sorted_list) reqs)
    ≡ size sorted_list (new sorted_list) + length (encode_block reqs)
size-put_batch_example = size-put_batch sorted_list (new sorted_list) reqs
