-- ===== src/Compact/Output/Keeps.antt =====
-- Writing an output comes to an end, and leaves the tables alone that were there before.
use easy_lsm.Base.{
  ℕ, zero, suc, ◌<◌, arith, List, [], length, concat, ◌≡◌, refl, ◌∙◌, Option, none, some,
  Option-cases, Bool-cases, inl, inr,
}
use easy_lsm.Error.{Result, ok, err, io, other, Result-cases}
use easy_lsm.Codec.{Bytes, Loggable}
use easy_lsm.Entry.{Entry}
use easy_lsm.BloomFilter.{BloomFilter}
use easy_lsm.Directory
use easy_lsm.Directory.{Directory, sst, read-put_newer}
use easy_lsm.Sstable.{SstableWriter}
use easy_lsm.Sstable.Writer
use easy_lsm.Compact.Merge
use easy_lsm.Compact.Merge.{MergeIterator, SstableIterator}
use easy_lsm.Compact.Merge.Rounds.{left, new-left, next-Shrinks}
use easy_lsm.Compact.Output.{
  Outputs, NeverLower, should_rotate, finish_file, begin_file, write_entry, output_entry,
  output_loop, write_outputs,
}

-- The file that is being written is newer than `id`.
abbrev WritesAfter : ℕ → Option (SstableWriter × ℕ) → Type 0
WritesAfter id none = Unit {0}
WritesAfter id (some (w, n)) = id < n

-- The table `id` is as in `d`, and no table up to it is written to.
record IsKept (id : ℕ) (d : Directory) (o : Outputs) : Type 0 where
  pub below : id < o.next_sstable_id
  pub writes : WritesAfter id o.current_writer
  pub kept : Directory.read (sst id) o.directory ≡ Directory.read (sst id) d

module _ (crc32 : Bytes → ℕ) (sip_hash : ℕ × ℕ → Bytes → ℕ) (bloom_loggable : Loggable BloomFilter)
    (new_filter : BloomFilter) (rivals : ℕ → ℕ → ℕ) (up : NeverLower rivals)
    (target_file_size : ℕ) where
  finish_file-IsKept :
      (id : ℕ) (d : Directory) (o : Outputs)
      → IsKept id d o
      → IsKept id d (finish_file crc32 sip_hash bloom_loggable new_filter rivals target_file_size o)
  unfolding finish_file
  finish_file-IsKept id d o v = elim (Option-cases o.current_writer) [
    | inl q ↦ rw (q, finish_file) v
    | inr ((w, n), q) ↦
        let newer : id < n = rw q at v.writes in
        let file = (Writer.finalize crc32 bloom_loggable w).1 in
        rw (q, finish_file)
          (record {
            below = v.below;
            writes = tt;
            kept = read-put_newer id n file o.directory newer ∙ v.kept;
          })
  ]

  begin_file-IsKept :
      (id : ℕ) (d : Directory) (o : Outputs)
      → IsKept id d o
      → IsKept id d (begin_file crc32 sip_hash bloom_loggable new_filter rivals target_file_size o)
  unfolding begin_file
  begin_file-IsKept id d o v =
      let next_id = rivals (length o.new_files) o.next_sstable_id in
      let newer : id < next_id =
        omega (arith, v.below, up (length o.new_files) o.next_sstable_id) in
      record {
        below = omega (arith, newer);
        writes = newer;
        kept = read-put_newer id next_id [] o.directory newer ∙ v.kept;
      }

  write_entry-IsKept :
      (id : ℕ) (d : Directory) (e : Entry) (o : Outputs)
      → IsKept id d o
      → IsKept id d
          (write_entry crc32 sip_hash bloom_loggable new_filter rivals target_file_size e o)
  unfolding write_entry
  write_entry-IsKept id d e o v = elim (Option-cases o.current_writer) [
    | inl q ↦ rw (q, write_entry) v
    | inr ((w, n), q) ↦
        rw (q, write_entry) (record { below = v.below; writes = rw q at v.writes; kept = v.kept })
  ]

  output_entry-IsKept :
      (id : ℕ) (d : Directory) (e : Entry) (o : Outputs)
      → IsKept id d o
      → IsKept id d
          (output_entry crc32 sip_hash bloom_loggable new_filter rivals target_file_size e o)
  unfolding output_entry
  output_entry-IsKept id d e o v =
      elim (Bool-cases
        (should_rotate crc32 sip_hash bloom_loggable new_filter rivals target_file_size o)) [
          | inl full ↦
              rw full (
                write_entry-IsKept id d e _
                  (begin_file-IsKept id d _ (finish_file-IsKept id d o v)))
          | inr room ↦ rw room (write_entry-IsKept id d e o v)
        ]

  -- How the loop ends.
  abbrev Ends : ℕ → Directory → Option (Result (Unit {0}) × Outputs) → Type 0
  Ends id d ends =
      (r : Result (Unit {0})) × (o : Outputs) × (ends ≡ some (r, o))
      × (id < o.next_sstable_id)
      × (Directory.read (sst id) o.directory ≡ Directory.read (sst id) d)

  output_loop-Ends :
      (fuel : ℕ) (id : ℕ) (d : Directory) (m : MergeIterator) (o : Outputs)
      → left m < fuel
      → IsKept id d o
      → Ends id d
          (output_loop crc32 sip_hash bloom_loggable new_filter rivals target_file_size fuel m o)
  unfolding output_loop
  output_loop-Ends zero id d m o h v = absurd (omega arith)
  output_loop-Ends (suc fuel) id d m o h v = elim (Option-cases (Merge.next m)) [
    | inl q ↦
        let v' = finish_file-IsKept id d o v in
        rw (q, output_loop) (ok tt, _, refl, v'.below, v'.kept)
    | inr ((err e, m'), q) ↦ rw (q, output_loop) (err e, o, refl, v.below, v.kept)
    | inr ((ok kv, m'), q) ↦
        let less : left m' < left m = rw q at (next-Shrinks m) in
        rw (q, output_loop)
          (output_loop-Ends fuel id d m' _ (omega arith) (output_entry-IsKept id d kv o v))
  ]

  -- Whatever the inputs of a compaction are, readable or not, its writing comes to an end, with
  -- success or with an error, in the rounds that it is given; and where other threads never put the
  -- shared counter of table numbers back meanwhile, every table with a number below the first one
  -- that it reserves has its file as it was.
  pub write_outputs_keeps :
      (inputs : List SstableIterator) (start id : ℕ) (d : Directory)
      → id < start
      → (r : Result (Unit {0})) × (o : Outputs) × (write_outputs crc32 sip_hash bloom_loggable
            new_filter rivals target_file_size inputs start d
          ≡ some (r, o))
        × (id < o.next_sstable_id)
        × (Directory.read (sst id) o.directory ≡ Directory.read (sst id) d)
  unfolding write_outputs
  write_outputs_keeps inputs start id d h =
      let first : Outputs = record {
        next_sstable_id = start;
        new_files = [];
        directory = d;
        current_writer = none;
      } in
      elim (Result-cases (Merge.new inputs)) [
        | inr (e, q) ↦
            rw (q, write_outputs)
              (err (io (other "Failed to create merge iterator")), first, refl, h, refl)
        | inl (m, q) ↦
            rw (q, write_outputs)
              (output_loop-Ends (suc (length (concat inputs))) id d m first
                (omega (arith, new-left inputs m q))
                (record { below = h; writes = tt; kept = refl }))
      ]
