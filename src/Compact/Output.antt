-- ===== src/Compact/Output.antt =====
-- compact.rs, the writing of `execute_compaction`: merged entries go to new tables, one after the
-- other, each with a number that is reserved in the manifest when it is begun.
pub mod Stored
pub mod Files
pub mod Merges
pub mod Keeps
mod Tests
use easy_lsm.Base.{
  ℕ, zero, suc, ◌+◌, ◌≤◌, ◌≡◌, List, [], ◌∷◌, ◌++◌, length, concat, leb, Bool, true, false,
  if◌then◌else◌, Option, none, some,
}
use easy_lsm.Error.{Result, ok, err, io, IoError, other}
use easy_lsm.Codec.{Bytes, Loggable}
use easy_lsm.Key.{Key}
use easy_lsm.Value.{Value}
use easy_lsm.Entry.{Entry}
use easy_lsm.BloomFilter.{BloomFilter}
use easy_lsm.Directory
use easy_lsm.Directory.{Directory, sst}
use easy_lsm.Manifest.{FileMetadata}
use easy_lsm.Sstable.{SstableWriter}
use easy_lsm.Sstable.Writer
use easy_lsm.Compact.Merge
use easy_lsm.Compact.Merge.{MergeIterator, SstableIterator}

-- `next_sstable_id` is that of the shared manifest, as the last reservation left it.
pub record Outputs : Type 0 where
  pub next_sstable_id : ℕ
  pub new_files : List FileMetadata
  pub directory : Directory
  pub current_writer : Option (SstableWriter × ℕ)

-- What other threads make of the shared counter `next_sstable_id` before it is read for a table: a
-- function of how many tables are finished, and of the counter. Only this thread reserves numbers,
-- but the commit of an update can put the counter back.
abbrev pub AreQuiet : (ℕ → ℕ → ℕ) → Type 0
AreQuiet rivals = (k n : ℕ) → rivals k n ≡ n

abbrev pub NeverLower : (ℕ → ℕ → ℕ) → Type 0
NeverLower rivals = (k n : ℕ) → n ≤ rivals k n

module _ (crc32 : Bytes → ℕ) (sip_hash : ℕ × ℕ → Bytes → ℕ) (bloom_loggable : Loggable BloomFilter)
    (new_filter : BloomFilter) (rivals : ℕ → ℕ → ℕ) (target_file_size : ℕ) where
  unfoldable pub should_rotate : Outputs → Bool
  should_rotate o = elim o.current_writer [
    | none ↦ true
    | some (iter_writer, id) ↦ leb target_file_size (Writer.current_size iter_writer)
  ]

  unfoldable pub finish_file : Outputs → Outputs
  finish_file o = elim o.current_writer [
    | none ↦ o
    | some (iter_writer, id) ↦
        let (meta, file) = Writer.finalize crc32 bloom_loggable iter_writer in
        record o {
          new_files = o.new_files ++ (record meta { file_id = id } ∷ []);
          directory = Directory.put (sst id) file o.directory;
          current_writer = none;
        }
  ]

  unfoldable pub begin_file : Outputs → Outputs
  begin_file o =
      let next_id = rivals (length o.new_files) o.next_sstable_id in
      record o {
        next_sstable_id = next_id + 1;
        directory = Directory.put (sst next_id) [] o.directory;
        current_writer = some (Writer.new new_filter, next_id);
      }

  unfoldable pub write_entry : Entry → Outputs → Outputs
  write_entry (key, val) o = elim o.current_writer [
    | none ↦ o
    | some (iter_writer, id) ↦ record o {
      current_writer = some (Writer.write crc32 sip_hash key val iter_writer, id);
    }
  ]

  unfoldable pub output_entry : Entry → Outputs → Outputs
  unfolding should_rotate finish_file begin_file write_entry
  output_entry e o = write_entry e (if should_rotate o then begin_file (finish_file o) else o)

  -- `while let Some(res) = merge_iter.next()`, and the last file. `none`: out of fuel.
  unfoldable pub output_loop : ℕ → MergeIterator → Outputs → Option (Result (Unit {0}) × Outputs)
  unfolding output_entry
  output_loop zero m o = none
  output_loop (suc fuel) m o = elim (Merge.next m) [
    | none ↦ some (ok tt, finish_file o)
    | some (err e, m') ↦ some (err e, o)
    | some (ok kv, m') ↦ output_loop fuel m' (output_entry kv o)
  ]

  -- From the merge of the inputs to the last file, with a round for each entry and one for the end.
  unfoldable pub write_outputs :
      List SstableIterator → ℕ → Directory → Option (Result (Unit {0}) × Outputs)
  unfolding output_loop
  write_outputs inputs next_sstable_id d =
      let start : Outputs = record {
        next_sstable_id = next_sstable_id;
        new_files = [];
        directory = d;
        current_writer = none;
      } in
      elim (Merge.new inputs) [
        | err e ↦ some (err (io (other "Failed to create merge iterator")), start)
        | ok merge_iter ↦ output_loop (suc (length (concat inputs))) merge_iter start
      ]
