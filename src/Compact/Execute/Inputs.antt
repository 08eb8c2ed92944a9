-- ===== src/Compact/Execute/Inputs.antt =====
-- Opening the inputs of a compaction: files that hold tables give all their entries.
use easy_lsm.Base.{ℕ, List, [], ◌∷◌, ◌≡◌, refl, sym, ap, ◌∙◌, All, Option, some, none}
use easy_lsm.Base.{Ordering}
use easy_lsm.Error.{Result, ok}
use easy_lsm.Codec.{Bytes, Loggable}
use easy_lsm.Key
use easy_lsm.Key.{Key, key_le}
use easy_lsm.Entry.{Entry, IsSorted}
use easy_lsm.BloomFilter.{BloomFilter}
use easy_lsm.Directory
use easy_lsm.Directory.{Directory, sst}
use easy_lsm.Manifest.{FileMetadata}
use easy_lsm.Sstable.{Sstable}
use easy_lsm.Sstable.Layout.{IsBlock}
use easy_lsm.Sstable.Whole.{written, IsStorable, table_entries-written}
use easy_lsm.Sstable.Items.{Items, ok_run, table_items-ok}
use easy_lsm.Sstable.Ends.{iterate, iterate_lem, open_file, open_file_lem}
use easy_lsm.Compact.Merge.Runs.{ok_runs}
use easy_lsm.Compact.Merge.Invariant.{IsAscending, AtLeast}
use easy_lsm.Compact.Execute.{open_inputs}

sorted-IsAscending : (es : List Entry) → IsSorted es → IsAscending es
unfolding key_le
sorted-IsAscending [] h = tt
sorted-IsAscending (e ∷ es) (b, h) = (below es b, sorted-IsAscending es h)
  where
    below :
        (fs : List Entry) → All (λ (f : Entry). Key.cmp e.0 f.0 ≡ Ordering.lt) fs → AtLeast e.0 fs
    below [] h = tt
    below (f ∷ fs) (p, h) = (rw (p, key_le), below fs h)

module _ (crc32 : Bytes → ℕ) (sip_hash : ℕ × ℕ → Bytes → ℕ) (bloom_loggable : Loggable BloomFilter)
    (new_filter : BloomFilter) where
  -- Each of the files is on disk, as the writer of tables makes it of the entries beside it.
  abbrev pub HoldTables : List FileMetadata → List (List Entry) → Directory → Type 0
  HoldTables [] [] d = Unit {0}
  HoldTables (f ∷ fs) (es ∷ ess) d =
      IsBlock es
      × IsStorable crc32 sip_hash bloom_loggable new_filter es
      × (Directory.read (sst f.file_id) d
          ≡ some (written crc32 sip_hash bloom_loggable new_filter es).1)
      × HoldTables fs ess d
  HoldTables _ _ d = ⊥

  opened :
      (id : ℕ) (e : Entry) (es : List Entry)
      → IsStorable crc32 sip_hash bloom_loggable new_filter (e ∷ es)
      → (t : Sstable) × (open_file crc32 bloom_loggable id
            (written crc32 sip_hash bloom_loggable new_filter (e ∷ es)).1
          ≡ ok t)
        × (iterate crc32 t ≡ ok_run (e ∷ es))
  opened id e es v =
      let (t, opens, entries) =
        table_entries-written crc32 sip_hash bloom_loggable new_filter id e es v in
      let file = (written crc32 sip_hash bloom_loggable new_filter (e ∷ es)).1 in
      (
        t,
        ap
            (λ (o : Option (Result Sstable)). elim o [
              | some r ↦ r
              | none ↦ open_file crc32 bloom_loggable id file
            ])
            (sym (open_file_lem crc32 bloom_loggable id file) ∙ opens),
        ap (λ (o : Option Items). elim o [ some r ↦ r | none ↦ [] ])
            (sym (iterate_lem crc32 t) ∙ table_items-ok crc32 t t.index (e ∷ es) entries),
      )

  pub open_inputs_lem :
      (fs : List FileMetadata) (ess : List (List Entry)) (d : Directory)
      → HoldTables fs ess d
      → open_inputs crc32 bloom_loggable fs d ≡ ok (ok_runs ess)
  unfolding open_inputs
  open_inputs_lem [] [] d h = refl
  open_inputs_lem [] (es ∷ ess) d h = absurd h
  open_inputs_lem (f ∷ fs) [] d h = absurd h
  open_inputs_lem (f ∷ fs) ([] ∷ ess) d (b, v, file, h) = absurd b
  open_inputs_lem (f ∷ fs) ((e ∷ es) ∷ ess) d (b, v, file, h) =
      let (t, opens, run) = opened f.file_id e es v in
      rw (file, open_inputs)
        (rw (opens, open_inputs) (rw (open_inputs_lem fs ess d h, open_inputs) (rw run)))

  pub HoldTables-IsAscending :
      (fs : List FileMetadata) (ess : List (List Entry)) (d : Directory)
      → HoldTables fs ess d
      → All IsAscending ess
  HoldTables-IsAscending [] [] d h = tt
  HoldTables-IsAscending [] (es ∷ ess) d h = absurd h
  HoldTables-IsAscending (f ∷ fs) [] d h = absurd h
  HoldTables-IsAscending (f ∷ fs) (es ∷ ess) d (b, v, file, h) =
      (sorted-IsAscending es v.sorted, HoldTables-IsAscending fs ess d h)
