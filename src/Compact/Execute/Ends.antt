-- ===== src/Compact/Execute/Ends.antt =====
-- The compaction thread's rounds come to an end, whatever the files hold.
use easy_lsm.Base.{
  ℕ, zero, suc, ◌<◌, arith, List, [], length, concat, none, ◌≡◌, ◌≢◌, refl, Option-cases, inl, inr,
}
use easy_lsm.Error.{ok, err, Result-cases}
use easy_lsm.Codec.{Bytes, Loggable}
use easy_lsm.BloomFilter.{BloomFilter}
use easy_lsm.SkipMap.{SkipMap}
use easy_lsm.Directory.{Directory}
use easy_lsm.Manifest.{FileMetadata}
use easy_lsm.Compact.Merge
use easy_lsm.Compact.Merge.{MergeIterator, SstableIterator}
use easy_lsm.Compact.Merge.Rounds.{left, new-left, next-Shrinks}
use easy_lsm.Compact.Output.{Outputs, output_loop, write_outputs}
use easy_lsm.Compact.Select.{Work, flush_work, l0_work, ln_work, wait, work, select_l0, select_ln}
use easy_lsm.Compact.Execute.{
  Store, Others, open_inputs, execute_compaction, compact_l0, compact_ln, run_round,
  run_target_file_size,
}

module _ (crc32 : Bytes → ℕ) (sip_hash : ℕ × ℕ → Bytes → ℕ) (bloom_loggable : Loggable BloomFilter)
    (new_filter : BloomFilter) where
  module _ (rivals : ℕ → ℕ → ℕ) (target_file_size : ℕ) where
    output_loop-ne-none :
        (fuel : ℕ) (m : MergeIterator) (o : Outputs)
        → left m < fuel
        → output_loop crc32 sip_hash bloom_loggable new_filter rivals target_file_size fuel m o
          ≢ none
    unfolding output_loop
    output_loop-ne-none zero m o h = absurd (omega arith)
    output_loop-ne-none (suc fuel) m o h = elim (Option-cases (Merge.next m)) [
      | inl q ↦ rw (q, output_loop) (λ z. cc)
      | inr ((err e, m'), q) ↦ rw (q, output_loop) (λ z. cc)
      | inr ((ok kv, m'), q) ↦
          let less : left m' < left m = rw q at (next-Shrinks m) in
          rw (q, output_loop) (output_loop-ne-none fuel m' _ (omega arith))
    ]

    write_outputs-ne-none :
        (inputs : List SstableIterator) (start : ℕ) (d : Directory)
        → write_outputs crc32 sip_hash bloom_loggable new_filter rivals target_file_size inputs
            start d
          ≢ none
    unfolding write_outputs
    write_outputs-ne-none inputs start d = elim (Result-cases (Merge.new inputs)) [
      | inr (e, q) ↦ rw (q, write_outputs) (λ z. cc)
      | inl (m, q) ↦
          rw (q, write_outputs)
            (output_loop-ne-none (suc (length (concat inputs))) m
              (record {
                next_sstable_id = start;
                new_files = [];
                directory = d;
                current_writer = none;
              })
              (omega (arith, new-left inputs m q)))
    ]

  module _ (skip_map : SkipMap) (threads : Others skip_map) where
    module _ (target_file_size : ℕ) where
      execute_compaction-ne-none :
          (source : ℕ) (all_files gone_source gone_target : List FileMetadata) (s : Store skip_map)
          → execute_compaction skip_map crc32 sip_hash bloom_loggable new_filter threads
              target_file_size source all_files gone_source gone_target s
            ≢ none
      unfolding execute_compaction
      execute_compaction-ne-none source all_files gone_source gone_target s =
          elim (Result-cases (open_inputs crc32 bloom_loggable all_files s.directory)) [
            | inr (e, q) ↦ rw (q, execute_compaction) (λ z. cc)
            | inl (inputs, q) ↦
                elim (Option-cases (
                  write_outputs crc32 sip_hash bloom_loggable new_filter threads.rivals
                    target_file_size inputs s.manifest.next_sstable_id s.directory)) [
                      | inl none_left ↦ absurd (
                          write_outputs-ne-none threads.rivals target_file_size inputs
                            s.manifest.next_sstable_id s.directory none_left)
                      | inr (written, p) ↦
                          rw (q, execute_compaction) (rw (p, execute_compaction) (λ z. cc))
                    ]
          ]

      compact_l0-ne-none :
          (s : Store skip_map)
          → compact_l0 skip_map crc32 sip_hash bloom_loggable new_filter threads target_file_size s
            ≢ none
      unfolding compact_l0
      compact_l0-ne-none s = elim (Option-cases (select_l0 s.manifest)) [
        | inl q ↦ rw (q, compact_l0) (λ z. cc)
        | inr (files, q) ↦ rw (q, compact_l0) (execute_compaction-ne-none 0 _ _ _ s)
      ]

      compact_ln-ne-none :
          (level_idx : ℕ) (s : Store skip_map)
          → compact_ln skip_map crc32 sip_hash bloom_loggable new_filter threads target_file_size
              level_idx s
            ≢ none
      unfolding compact_ln
      compact_ln-ne-none level_idx s = elim (Option-cases (select_ln level_idx s.manifest)) [
        | inl q ↦ rw (q, compact_ln) (λ z. cc)
        | inr (files, q) ↦ rw (q, compact_ln) (execute_compaction-ne-none level_idx _ _ _ s)
      ]

    run_round_by :
        (s : Store skip_map) (x : Work)
        → work s.manifest ≡ x
        → run_round skip_map crc32 sip_hash bloom_loggable new_filter threads s ≢ none
    unfolding run_round
    run_round_by s flush_work e = rw (e, run_round) (λ z. cc)
    run_round_by s l0_work e = rw (e, run_round) (compact_l0-ne-none run_target_file_size s)
    run_round_by s (ln_work level) e =
        rw (e, run_round) (compact_ln-ne-none run_target_file_size level s)
    run_round_by s wait e = rw (e, run_round) (λ z. cc)

    -- Every round of the compaction thread comes to an end, with success or with an error, whatever
    -- the manifest says, whatever the files hold, damaged ones too, and whatever other threads do.
    pub run_round-ne-none :
        (s : Store skip_map)
        → run_round skip_map crc32 sip_hash bloom_loggable new_filter threads s ≢ none
    run_round-ne-none s = run_round_by s (work s.manifest) refl
