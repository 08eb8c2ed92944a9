-- ===== src/Compact/Execute/Tests.antt =====
-- compact.rs: one table of level 0 is moved to level 1, next to a table that stays.
use easy_lsm.Base.{
  ℕ, ◌≡◌, ◌^◌, ◌≢◌, refl, List, [], ◌∷◌, true, false, Bool, Option, none, some, concat,
}
use easy_lsm.Error.{Result, ok}
use easy_lsm.Key
use easy_lsm.Value
use easy_lsm.Codec
use easy_lsm.Codec.{uint, to_le_bytes, vec}
use easy_lsm.BloomFilter
use easy_lsm.Sstable
use easy_lsm.Sstable.Ends
use easy_lsm.Sstable.Items
use easy_lsm.Sstable.Table
use easy_lsm.Sstable.Writer
use easy_lsm.Compact.Output
use easy_lsm.Compact.Merge
use easy_lsm.Compact.Execute
use easy_lsm.Manifest
use easy_lsm.Entry.{Entry}
use easy_lsm.SkipMap.{sorted_list}
use easy_lsm.Memtable
use easy_lsm.Directory
use easy_lsm.Directory.{Directory, sst}
use easy_lsm.Manifest.{Manifest, FileMetadata}
use easy_lsm.Sstable.{Sstable}
use easy_lsm.Sstable.Whole.{written}
use easy_lsm.Sstable.Whole.Tests.{checksum, hashes, filter_loggable, empty_filter, all, storable}
use easy_lsm.Db.{DbVersion, open_files, search_level}
use easy_lsm.Sstable.Block.{value_of}
use easy_lsm.Sstable.Ends.{open_file, search_table}
use mathlib.Core.List.Permᴰ
use easy_lsm.Compact.Output.Stored.{metas_of}
use easy_lsm.Compact.Execute.NewestOf.{IsNewestOf}
use easy_lsm.Compact.Execute.Lookup.{search_compacted}
use easy_lsm.Compact.Select.{
  Selection, select_l0, select_ln, files_at, min_key, max_key, overlapping,
}
use easy_lsm.Compact.Execute.{Store, Others, compact_l0, compact_ln, run_round}
use easy_lsm.Compact.Execute.Inputs.{HoldTables}
use easy_lsm.Compact.Execute.Whole.{Succeeds, compact_l0_merges, compact_ln_merges}
use easy_lsm.Compact.Execute.Ends.{run_round-ne-none}

abbrev file : ℕ → List ℕ → List ℕ → FileMetadata
file id lo hi = record {
  file_id = id;
  file_size = 100;
  min_key = record { lsn = 1; bytes = lo };
  max_key = record { lsn = 1; bytes = hi };
}

abbrev moved : FileMetadata
moved = file 4 (97 ∷ []) (98 ∷ 98 ∷ [])

abbrev manifest : Manifest
manifest = record {
  wals = 5 ∷ [];
  levels =
      record { files = moved ∷ [] } ∷ record { files = file 2 (120 ∷ []) (122 ∷ []) ∷ [] } ∷ [];
  next_wal_id = 6;
  next_sstable_id = 5;
  version = 1;
}

abbrev selection : Selection
selection = record { source = moved ∷ []; target = [] }

abbrev store : Store sorted_list
store = record {
  manifest = manifest;
  directory =
      (sst 4, (written checksum hashes filter_loggable empty_filter all).1) ∷ (sst 2, 1 ∷ []) ∷ [];
  version = record {
    next_lsn = 4;
    mutable_memtable = Memtable.new sorted_list;
    frozen_memtables = [];
    mutable_wal = 5;
    sstables = [];
  };
}

abbrev quiet : Others sorted_list
quiet = record {
  meanwhile = λ (m : Manifest). m;
  rivals = λ k n. n;
  others = record { manifest = λ k m. m; files = λ k d. d };
  writers = λ (v : DbVersion sorted_list Sstable). v;
}

holds :
    HoldTables checksum hashes filter_loggable empty_filter (moved ∷ []) (all ∷ []) store.directory
unfolding Directory.read
holds = (tt, storable, refl, tt)

compact_l0_merges_example :
    (r : Result (Unit {0})) × (s' : Store sorted_list) × (compact_l0 sorted_list checksum hashes
        filter_loggable empty_filter quiet 4096 store
      ≡ some (r, s'))
    × Succeeds sorted_list checksum hashes filter_loggable empty_filter quiet 0
        (all ∷ [])
        (moved ∷ [])
        []
        store
        r
        s'
unfolding select_l0 files_at min_key max_key overlapping Key.key_le Key.key_lt Key.cmp Key.cmp_bytes
compact_l0_merges_example =
    compact_l0_merges sorted_list checksum hashes filter_loggable empty_filter quiet (λ k n. refl)
      (λ k id d. refl) 4096 (all ∷ []) selection store refl holds

compact_ln_merges_example :
    (r : Result (Unit {0})) × (s' : Store sorted_list) × (compact_ln sorted_list checksum hashes
        filter_loggable empty_filter quiet 4096 0 store
      ≡ some (r, s'))
    × Succeeds sorted_list checksum hashes filter_loggable empty_filter quiet 0
        (all ∷ [])
        (moved ∷ [])
        []
        store
        r
        s'
unfolding select_ln files_at overlapping Key.key_le Key.cmp Key.cmp_bytes
compact_ln_merges_example =
    compact_ln_merges sorted_list checksum hashes filter_loggable empty_filter quiet (λ k n. refl)
      (λ k id d. refl) 4096 0 (all ∷ []) selection store refl holds

-- A manifest whose level 0 is due, and whose table is not there.
abbrev broken : Store sorted_list
broken = record store {
  manifest = record manifest {
    levels = record { files = record moved { file_size = 2 ^ 28 } ∷ [] } ∷ [];
  };
  directory = [];
}

run_round-ne-none_example :
    run_round sorted_list checksum hashes filter_loggable empty_filter quiet broken ≢ none
run_round-ne-none_example =
    run_round-ne-none checksum hashes filter_loggable empty_filter sorted_list quiet broken

search_compacted_example :
    (ts : List Sstable) × (open_files sorted_list Sstable checksum
        (open_file checksum filter_loggable)
        (metas_of checksum hashes filter_loggable empty_filter 4 (all ∷ []))
        store.directory
      ≡ ok ts)
    × ((k : List ℕ)
        → (o : Option Entry) × (search_level sorted_list Sstable (search_table checksum hashes) ts k
            ≡ ok (value_of o))
          × IsNewestOf k o (concat (all ∷ [])))
unfolding Directory.read Key.key_le Key.cmp Key.cmp_bytes
search_compacted_example =
    search_compacted sorted_list checksum hashes filter_loggable empty_filter 4 (all ∷ [])
      (all ∷ []) store.directory (tt, tt) (storable, tt) ((refl, tt), (tt, tt)) (Permᴰ.refl _)
      (refl, tt)

-- The compaction of level 0 succeeds.
abbrev is_ok : Option (Result (Unit {0}) × Store sorted_list) → Bool
is_ok (some (ok u, s')) = true
is_ok _ = false

compact_l0_test :
    is_ok (compact_l0 sorted_list checksum hashes filter_loggable empty_filter quiet 4096 store)
    ≡ true
unfolding compact_l0 Execute.execute_compaction Execute.open_inputs Execute.install_outputs
    Execute.install_files select_l0 files_at min_key max_key overlapping Key.key_le Key.key_lt
    Key.cmp Key.cmp_bytes Key.eq_bytes Directory.read Directory.put Directory.remove open_file
    Ends.iterate Table.open_table Table.open_blocks Table.open_index Table.read_exact_at
    Table.read_block_with_crc_at Items.table_items Items.block_items Output.write_outputs
    Output.output_loop Output.output_entry Output.should_rotate Output.finish_file Output.begin_file
    Output.write_entry Merge.next Merge.new Merge.pop Merge.populate open_files
    Manifest.apply_atomic_update Manifest.attempts Writer.new Writer.finalize Writer.write
    Writer.flush_block Writer.flush Writer.wrap Writer.push_index Sstable.add Sstable.new_block
    Sstable.is_full Sstable.is_empty Sstable.encode_index Sstable.encode_range Key.loggable
    Value.loggable BloomFilter.insert uint to_le_bytes vec Sstable.decode_index Codec.read_exact
    Codec.from_le_bytes Writer.current_size
compact_l0_test = refl
