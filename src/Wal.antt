-- ===== src/Wal.antt =====
-- data_stores/wal.rs: the write-ahead log. A log file is its bytes. `crc32` is the checksum of the
-- crate crc32fast over all the bytes fed to a hasher. `File` calls that fail for reasons outside
-- the file's contents are left out.
pub mod Tests
pub mod Next
pub mod Log
pub mod Torn
use easy_lsm.Base.{
  ℕ, zero, suc, ◌+◌, ◌-◌, ◌^◌, ◌<◌, List, [], ◌∷◌, ◌++◌, length, take, Bool, true, false, ◌==◌,
  if◌then◌else◌, Option, none, some, ◌≡◌, All,
}
use easy_lsm.Error.{
  Result, DbError, ok, err, io, IoError, unexpected_eof, not_found, data_corrupted, ◌>>=◌,
}
use easy_lsm.Codec.{Bytes, Reader, u32}
use easy_lsm.Key
use easy_lsm.Key.{Key}
use easy_lsm.Value
pub use easy_lsm.Entry.{Entry, Fits}

abbrev pub wal_magic : ℕ
wal_magic = 0xcafe_babe

-- The two halves of an entry that the checksum covers.
unfoldable pub encode_pair : Entry → Bytes
encode_pair (key, value) = Key.loggable.encode key ++ Value.loggable.encode value

-- What was taken from the reader since `before`: `CrcReader` feeds it to its hasher.
unfoldable pub consumed : Bytes → Bytes → Bytes
consumed before after = take (length before - length after) before

-- The end of file inside an entry ends the log; any other error is passed on.
unfoldable pub or_end {ℓ κ} :
    {A : Type ℓ} {B : Type κ} → Result A → (A → Option (Result B)) → Option (Result B)
or_end (ok a) f = f a
or_end (err (io unexpected_eof)) f = none
or_end (err e) f = some (err e)

-- A log that is opened for writing: new files get the magic number, others are checked for it.
unfoldable pub open_writable : Bytes → Result Bytes
open_writable file = if length file == 0 then ok (u32.encode wal_magic) else (do
  (magic, rest) ← u32.decode file
  if magic == wal_magic then ok file else err (data_corrupted "Invalid WAL Magic in mutable WAL"))

-- `Wal<ReadOnly>::open`: the path must exist.
unfoldable pub open_read_only : Option Bytes → Result Bytes
open_read_only none = err (io not_found)
open_read_only (some file) = ok file

-- The reader stands behind the magic number.
unfoldable pub try_iter : Bytes → Result Bytes
try_iter file = do
  (magic, rest) ← u32.decode file
  if magic == wal_magic then ok rest else err (data_corrupted "Invalid WAL Magic")

-- The file is open for appending, and is synced before the receipt is given out.
unfoldable pub write : Bytes → Bytes → Bytes
write file bytes = file ++ bytes

-- The entries read so far, before what the rest of the loop answers.
abbrev pub prepend : List Entry → Option (Result (List Entry)) → Option (Result (List Entry))
prepend es none = none
prepend es (some (err e)) = some (err e)
prepend es (some (ok more)) = some (ok (es ++ more))

module _ (crc32 : Bytes → ℕ) where
  -- CRC, key, value.
  unfoldable pub encode_entry : Entry → Bytes
  encode_entry e = u32.encode (crc32 (encode_pair e)) ++ encode_pair e

  unfoldable pub encode_batch : List Entry → Bytes
  encode_batch [] = []
  encode_batch (e ∷ es) = encode_entry e ++ encode_batch es

  unfoldable pub check_crc : ℕ → Bytes → Entry → Bytes → Option (Result (Entry × Bytes))
  unfolding consumed
  check_crc stored before entry after =
      if crc32 (consumed before after) == stored
      then some (ok (entry, after))
      else some (err (data_corrupted "CRC mismatch"))

  -- `WalIterator::next`, with the reader that it leaves.
  unfoldable pub next : Bytes → Option (Result (Entry × Bytes))
  unfolding or_end check_crc
  next reader = or_end (u32.decode reader) λ (stored, start).
      or_end (Key.loggable.decode start) λ (key, middle).
        or_end (Value.loggable.decode middle)
          λ (value, after). check_crc stored start (key, value) after

  -- The `for` loop over the iterator, whose body leaves at the first error. `none`: out of fuel.
  unfoldable pub entries : ℕ → Bytes → Option (Result (List Entry))
  entries zero reader = none
  entries (suc fuel) reader = elim (next reader) [
    | none ↦ some (ok [])
    | some (err e) ↦ some (err e)
    | some (ok (entry, rest)) ↦ prepend (entry ∷ []) (entries fuel rest)
  ]

  -- All of a log, from its magic number on. Each round takes a byte at least.
  unfoldable pub read_log : Bytes → Option (Result (List Entry))
  unfolding entries
  read_log file = elim (try_iter file) [
    | ok reader ↦ entries (suc (length reader)) reader
    | err e ↦ some (err e)
  ]
