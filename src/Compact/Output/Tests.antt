-- ===== src/Compact/Output/Tests.antt =====
-- compact.rs: two runs that are written to a new table each, into a directory with an older table.
use easy_lsm.Base.{ℕ, ◌+◌, ◌≡◌, ◌<◌, refl, arith, List, [], ◌∷◌, some, concat}
use mathlib.Core.List.{Permᴰ}
use easy_lsm.Error.{Result, ok, err, manifest_corrupted}
use easy_lsm.Key
use easy_lsm.Value.{tombstone}
use easy_lsm.Entry.{Entry}
use easy_lsm.Directory
use easy_lsm.Directory.{Directory, sst}
use easy_lsm.Sstable.Whole.Tests.{checksum, hashes, filter_loggable, empty_filter}
use easy_lsm.Compact.Merge.Runs.{ok_runs}
use easy_lsm.Compact.Merge.Invariant.{IsAscending}
use easy_lsm.Compact.Output.{Outputs, write_outputs}
use easy_lsm.Compact.Output.Files.{IsFinishedOf}
use easy_lsm.Compact.Output.Merges.{write_outputs_merges}
use easy_lsm.Compact.Output.Keeps.{write_outputs_keeps}

abbrev entry_of : ℕ → Entry
entry_of k = (record { lsn = 1; bytes = k ∷ [] }, tombstone)

abbrev runs : List (List Entry)
runs = (entry_of 10 ∷ entry_of 30 ∷ []) ∷ (entry_of 20 ∷ []) ∷ []

-- The counter as this thread has left it, and raised by others.
abbrev still : ℕ → ℕ → ℕ
still k n = n

abbrev jumps : ℕ → ℕ → ℕ
jumps k n = n + k

abbrev directory : Directory
directory = (sst 4, 1 ∷ []) ∷ []

write_outputs_merges_example :
    (out : List Entry) × (o : Outputs) × (write_outputs checksum hashes filter_loggable empty_filter
        still 0
        (ok_runs runs)
        5
        directory
      ≡ some (ok tt, o))
    × IsAscending out
    × Permᴰ out (concat runs)
    × IsFinishedOf checksum hashes filter_loggable empty_filter 5 out o
unfolding Key.key_le Key.cmp Key.cmp_bytes
write_outputs_merges_example =
    write_outputs_merges checksum hashes filter_loggable empty_filter still (λ k n. refl) 0 runs 5
      directory (((refl, tt), (tt, tt)), ((tt, tt), tt))

-- An input that fails after its first entry.
write_outputs_keeps_example :
    (r : Result (Unit {0})) × (o : Outputs) × (write_outputs checksum hashes filter_loggable
        empty_filter jumps 0
        ((ok (entry_of 10) ∷ err manifest_corrupted ∷ []) ∷ [])
        5
        directory
      ≡ some (r, o))
    × (4 < o.next_sstable_id)
    × (Directory.read (sst 4) o.directory ≡ Directory.read (sst 4) directory)
write_outputs_keeps_example =
    write_outputs_keeps checksum hashes filter_loggable empty_filter jumps (λ k n. omega arith) 0
      ((ok (entry_of 10) ∷ err manifest_corrupted ∷ []) ∷ []) 5 4 directory (omega arith)
