-- ===== src/Compact/Execute/Whole.antt =====
-- A compaction as a whole: what is in the manifest and on disk when it succeeds.
use easy_lsm.Base.{
  ℕ, ◌+◌, ◌<◌, arith, List, [], ◌++◌, length, concat, ◌≡◌, sym, ap, ◌∙◌, subst, All, true, Option,
  some, none, inl, inr, ◌⊎◌, refl,
}
use mathlib.Core.List.{Permᴰ}
use easy_lsm.Error.{Result, DbError, ok, err, Result-cases}
use easy_lsm.Codec.{Bytes, Loggable}
use easy_lsm.Entry.{Entry}
use easy_lsm.BloomFilter.{BloomFilter}
use easy_lsm.SkipMap.{SkipMap}
use easy_lsm.Directory
use easy_lsm.Directory.{Directory, sst}
use easy_lsm.Manifest.{Manifest, KeepTables, FileMetadata, apply_atomic_update}
use easy_lsm.Manifest.Commits.{changing, IsSnapshot, IsChanged, apply_atomic_update-Commits}
use easy_lsm.Sstable.{Sstable}
use easy_lsm.Sstable.Layout.{IsBlock}
use easy_lsm.Sstable.Ends.{open_file}
use easy_lsm.Db.{DbVersion, open_files}
use easy_lsm.Compact.Select.{Selection, select_l0, select_ln, files_at}
use easy_lsm.Compact.Merge.Invariant.{IsAscending}
use easy_lsm.Compact.Merge.Runs.{ok_runs}
use easy_lsm.Compact.Output.{Outputs, AreQuiet, write_outputs}
use easy_lsm.Compact.Output.Files.{IsFinishedOf}
use easy_lsm.Compact.Output.Merges.{write_outputs_merges}
use easy_lsm.Compact.Output.Keeps.{write_outputs_keeps}
use easy_lsm.Compact.Output.Stored.{metas_of, Stored, in_metas, Stored_moved}
use easy_lsm.Compact.Commit.{retain, sort_files, compact_commit}
use easy_lsm.Compact.Collect.{is_in, prepare_gc_snapshot, garbage_collect}
use easy_lsm.Compact.Collect.Safety.{garbage_collect-keeps, live_sst}
use easy_lsm.Compact.Execute.{
  Store, Others, install_files, install_outputs, written_store, execute_compaction, compact_l0,
  compact_ln,
}
use easy_lsm.Compact.Execute.Inputs.{HoldTables, open_inputs_lem, HoldTables-IsAscending}
use easy_lsm.Compact.Execute.Installed.{files_at-target, files_at-source, installed_is_live}

module _ (skip_map : SkipMap) (crc32 : Bytes → ℕ) (sip_hash : ℕ × ℕ → Bytes → ℕ)
    (bloom_loggable : Loggable BloomFilter) (new_filter : BloomFilter) where
  -- The entries of the inputs, each as often as there and ascending by key, stand in consecutive
  -- tables, none of them empty; these are on disk, and in the level below the source with the files
  -- that the update found there, but for the merged ones, which are gone from both levels. Older
  -- tables that the manifest still names are as they were.
  pub record IsCompactionOf (threads : Others skip_map) (source : ℕ) (ess : List (List Entry))
      (gone_source gone_target : List FileMetadata) (s s' : Store skip_map) : Type 0 where
    pub chunks : List (List Entry)
    pub nonempty : All IsBlock chunks
    pub ascending : IsAscending (concat chunks)
    pub same_entries : Permᴰ (concat chunks) (concat ess)
    pub found : Manifest
    pub snapshot : IsSnapshot threads.others found 3 (
        threads.meanwhile
          (record (s.manifest) { next_sstable_id = s.manifest.next_sstable_id + length chunks }))
    pub source_files :
        files_at source s'.manifest.levels ≡ retain gone_source (files_at source found.levels)
    pub target_files :
        files_at (source + 1) s'.manifest.levels
        ≡ sort_files (
            retain gone_target (files_at (source + 1) found.levels)
            ++ metas_of crc32 sip_hash bloom_loggable new_filter s.manifest.next_sstable_id chunks)
    pub stored :
        Stored crc32 sip_hash bloom_loggable new_filter s.manifest.next_sstable_id chunks
          s'.directory
    pub kept :
        (id : ℕ)
        → id < s.manifest.next_sstable_id
        → is_in id (prepare_gc_snapshot s'.manifest).ssts ≡ true
        → Directory.read (sst id) s'.directory ≡ Directory.read (sst id) s.directory

  -- An error, or a compaction.
  abbrev pub Succeeds :
      Others skip_map
      → ℕ
      → List (List Entry)
      → List FileMetadata
      → List FileMetadata
      → Store skip_map
      → Result (Unit {0})
      → Store skip_map
      → Type 0
  Succeeds threads source ess gone_source gone_target s r s' =
      ((e : DbError) × (r ≡ err e))
      ⊎ ((r ≡ ok tt) × IsCompactionOf threads source ess gone_source gone_target s s')

  succeeds :
      (threads : Others skip_map) (source : ℕ) (ess : List (List Entry))
      (gone_source gone_target : List FileMetadata) (s : Store skip_map) (r : Result (Unit {0}))
      (s' : Store skip_map)
      → (r ≡ ok tt → IsCompactionOf threads source ess gone_source gone_target s s')
      → Succeeds threads source ess gone_source gone_target s r s'
  succeeds threads source ess gone_source gone_target s (err e) s' h = inl (e, refl)
  succeeds threads source ess gone_source gone_target s (ok u) s' h = inr (refl, h refl)

  module _ (threads : Others skip_map) (quiet : AreQuiet threads.rivals)
      (keeps : KeepTables threads.others) (target_file_size : ℕ) where
    abbrev Compacts :
        ℕ
        → List (List Entry)
        → List FileMetadata
        → List FileMetadata
        → Store skip_map
        → Result (Unit {0}) × Store skip_map
        → Type 0
    Compacts source ess gone_source gone_target s (r, s') =
        r ≡ ok tt → IsCompactionOf threads source ess gone_source gone_target s s'

    -- What the writing has come to.
    record IsOutput (ess : List (List Entry)) (s : Store skip_map) (o : Outputs) : Type 0 where
      pub out : List Entry
      pub up : IsAscending out
      pub perm : Permᴰ out (concat ess)
      pub finished :
          IsFinishedOf crc32 sip_hash bloom_loggable new_filter s.manifest.next_sstable_id out o
      pub older :
          (id : ℕ)
          → id < s.manifest.next_sstable_id
          → Directory.read (sst id) o.directory ≡ Directory.read (sst id) s.directory

    committed-IsCompactionOf :
        (source : ℕ) (ess : List (List Entry)) (gone_source gone_target : List FileMetadata)
        (s : Store skip_map) (o : Outputs) (m : Manifest) (d : Directory)
        (version : DbVersion skip_map Sstable)
        → IsOutput ess s o
        → IsChanged
            (λ (m : Manifest). ok (compact_commit source o.new_files gone_source gone_target m))
            threads.others
            3
            (threads.meanwhile (record (s.manifest) { next_sstable_id = o.next_sstable_id }))
            o.directory
            m
            d
        → IsCompactionOf threads source ess gone_source gone_target s (record {
          manifest = m;
          directory = garbage_collect crc32 (prepare_gc_snapshot m) d;
          version = version;
        })
    committed-IsCompactionOf source ess gone_source gone_target s o m d version v f =
        let start = s.manifest.next_sstable_id in
        let levels : m.levels
            ≡ (compact_commit source o.new_files gone_source gone_target f.found).levels =
          ap (λ (x : Manifest). x.levels) f.counted
          ∙ ap (λ (r : Result Manifest). elim r [ ok x ↦ x.levels | err e ↦ [] ]) (sym f.commit) in
        let fin = v.finished in
        let stay = retain gone_target (files_at (source + 1) f.found.levels) in
        let target =
          ap (files_at (source + 1)) levels
          ∙ files_at-target source o.new_files gone_source gone_target f.found in
        let live : (n : ℕ)
            → is_in n (prepare_gc_snapshot m).ssts ≡ true
            → Directory.read (sst n) (garbage_collect crc32 (prepare_gc_snapshot m) d)
              ≡ Directory.read (sst n) o.directory =
          λ n h.
            garbage_collect-keeps crc32 (prepare_gc_snapshot m) d (sst n) (live_sst n h)
            ∙ f.kept n in
        record {
          chunks = fin.chunks;
          nonempty = fin.nonempty;
          ascending = subst IsAscending (sym fin.whole) v.up;
          same_entries = subst (λ (l : List Entry). Permᴰ l (concat ess)) (sym fin.whole) v.perm;
          found = f.found;
          snapshot =
              subst
                (λ (n : ℕ).
                  IsSnapshot threads.others f.found 3
                    (threads.meanwhile (record (s.manifest) { next_sstable_id = n })))
                fin.next f.snapshot;
          source_files =
              ap (files_at source) levels
              ∙ files_at-source source o.new_files gone_source gone_target f.found;
          target_files = target ∙ ap (λ (l : List FileMetadata). sort_files (stay ++ l)) fin.metas;
          stored =
              Stored_moved crc32 sip_hash bloom_loggable new_filter start fin.chunks o.directory _
                (λ n low high. live n (
                  installed_is_live n (source + 1) stay o.new_files m target (
                    rw fin.metas (
                      in_metas crc32 sip_hash bloom_loggable new_filter start n fin.chunks low
                        high))))
                fin.stored;
          kept = λ id below h. live id h ∙ v.older id below;
        }

    install_files-Compacts :
        (source : ℕ) (ess : List (List Entry)) (objs : List Sstable)
        (gone_source gone_target : List FileMetadata) (s : Store skip_map) (o : Outputs)
        → IsOutput ess s o
        → Compacts source ess gone_source gone_target s (
            install_files skip_map crc32 sip_hash bloom_loggable new_filter threads target_file_size
              source o.new_files objs gone_source gone_target
              (written_store skip_map crc32 sip_hash bloom_loggable new_filter threads
                target_file_size s o))
    unfolding install_files
    install_files-Compacts source ess objs gone_source gone_target s o v =
        let change : Manifest → Result Manifest =
          λ m. ok (compact_commit source o.new_files gone_source gone_target m) in
        let shared =
          (written_store skip_map crc32 sip_hash bloom_loggable new_filter threads target_file_size
            s o).manifest in
        let outcome =
          apply_atomic_update crc32 (changing change) threads.others shared o.directory in
        elim (Result-cases outcome.0) [
          | inr (e, q) ↦ rw (q, install_files) (λ h. absurd (cc h))
          | inl (committed, q) ↦
              rw (q, install_files)
                (λ h.
                  let (same, f) =
                    apply_atomic_update-Commits crc32 change threads.others keeps shared o.directory
                      committed q in
                  committed-IsCompactionOf source ess gone_source gone_target s o outcome.1
                    outcome.2 _ v
                    (subst
                      (λ (x : Manifest).
                        IsChanged change threads.others 3 shared o.directory x outcome.2)
                      (sym same) f))
        ]

    install_outputs-Compacts :
        (source : ℕ) (ess : List (List Entry)) (gone_source gone_target : List FileMetadata)
        (s : Store skip_map) (o : Outputs)
        → IsOutput ess s o
        → Compacts source ess gone_source gone_target s (
            install_outputs skip_map crc32 sip_hash bloom_loggable new_filter threads
              target_file_size source gone_source gone_target
              (ok tt, o)
              s)
    unfolding install_outputs
    install_outputs-Compacts source ess gone_source gone_target s o v =
        elim (Result-cases (
          open_files skip_map Sstable crc32 (open_file crc32 bloom_loggable) o.new_files
            o.directory)) [
              | inr (e, q) ↦ rw (q, install_outputs) (λ h. absurd (cc h))
              | inl (objs, q) ↦
                  rw (q, install_outputs)
                    (install_files-Compacts source ess objs gone_source gone_target s o v)
            ]

    older_tables :
        (ess : List (List Entry)) (s : Store skip_map) (r : Result (Unit {0})) (o : Outputs)
        → write_outputs crc32 sip_hash bloom_loggable new_filter threads.rivals target_file_size
            (ok_runs ess)
            s.manifest.next_sstable_id
            s.directory
          ≡ some (r, o)
        → (id : ℕ) → id < s.manifest.next_sstable_id
        → Directory.read (sst id) o.directory ≡ Directory.read (sst id) s.directory
    older_tables ess s r o q id below =
        let (r', o', q', next, kept) =
          write_outputs_keeps crc32 sip_hash bloom_loggable new_filter threads.rivals
            (λ k n. omega (arith, quiet k n)) target_file_size (ok_runs ess)
            s.manifest.next_sstable_id id s.directory below in
        let same : o.directory ≡ o'.directory =
          ap
            (λ (x : Option (Result (Unit {0}) × Outputs)). elim x [
              | some (r, o) ↦ o.directory
              | none ↦ s.directory
            ])
            (sym q ∙ q') in
        ap (Directory.read (sst id)) same ∙ kept

    -- A compaction of files that hold tables comes to an end, and when it succeeds it has lost no
    -- entry, where other threads leave the counter and the tables alone.
    pub execute_compaction-Compacts :
        (source : ℕ) (ess : List (List Entry))
        (all_files gone_source gone_target : List FileMetadata) (s : Store skip_map)
        → HoldTables crc32 sip_hash bloom_loggable new_filter all_files ess s.directory
        → (r : Result (Unit {0})) × (s' : Store skip_map) × (execute_compaction skip_map crc32
              sip_hash bloom_loggable new_filter threads target_file_size source all_files
              gone_source gone_target s
            ≡ some (r, s'))
          × Succeeds threads source ess gone_source gone_target s r s'
    unfolding execute_compaction
    execute_compaction-Compacts source ess all_files gone_source gone_target s h =
        let start = s.manifest.next_sstable_id in
        let (out, o, q, up, perm, fin) =
          write_outputs_merges crc32 sip_hash bloom_loggable new_filter threads.rivals quiet
            target_file_size ess start s.directory
            (HoldTables-IsAscending crc32 sip_hash bloom_loggable new_filter all_files ess
              s.directory h) in
        let v : IsOutput ess s o = record {
          out = out;
          up = up;
          perm = perm;
          finished = fin;
          older = older_tables ess s (ok tt) o q;
        } in
        (
          _,
          _,
          rw
              (
                open_inputs_lem crc32 sip_hash bloom_loggable new_filter all_files ess s.directory
                    h,
                execute_compaction,
              )
              (rw (q, execute_compaction)),
          succeeds threads source ess gone_source gone_target s _ _
              (install_outputs-Compacts source ess gone_source gone_target s o v),
        )

    -- A compaction of level 0 as a whole, where the files that it selects hold tables as the writer
    -- makes them, and where other threads leave the tables alone meanwhile, and the counter of table
    -- numbers during the writing, whatever else they do to the manifest, its files and the version.
    -- It comes to an end, and when it succeeds it has lost no entry and invented none: the entries of
    -- all the selected files, each as often as there (also older versions and tombstones) and
    -- ascending by key, are in new tables, none of them empty, which are on disk also after the
    -- garbage collection, under the numbers that were reserved. The committed manifest is made of one
    -- that the update found: the shared one after the writing, or as other threads had left it when
    -- an attempt was over. In the committed one, level 0 is that of the found one without the
    -- selected files; level 1 is that of the found one without the selected files and with the new
    -- tables, in the order of their smallest keys; and every older table that the manifest still names
    -- has its file as it was.
    pub compact_l0_merges :
        (ess : List (List Entry)) (files : Selection) (s : Store skip_map)
        → select_l0 s.manifest ≡ some files
        → HoldTables crc32 sip_hash bloom_loggable new_filter
            (files.source ++ files.target)
            ess
            s.directory
        → (r : Result (Unit {0})) × (s' : Store skip_map) × (compact_l0 skip_map crc32 sip_hash
              bloom_loggable new_filter threads target_file_size s
            ≡ some (r, s'))
          × Succeeds threads 0 ess files.source files.target s r s'
    unfolding compact_l0
    compact_l0_merges ess files s e h =
        rw (e, compact_l0)
          (execute_compaction-Compacts 0 ess (files.source ++ files.target) files.source
            files.target s h)

    -- A compaction of a level below level 0 as a whole, on the conditions of that of level 0: the
    -- selected files, of the level and of the next one, hold tables, and other threads leave the
    -- tables alone, and the counter of table numbers during the writing. It comes to an end, and when
    -- it succeeds, the entries of all the selected files, each as often as there (also older versions
    -- and tombstones) and ascending by key, are in new tables of the next level, which are on disk
    -- also after the garbage collection. The two levels are those of the manifest that the update
    -- found, without the selected files and with the new tables in the next one.
    pub compact_ln_merges :
        (level_idx : ℕ) (ess : List (List Entry)) (files : Selection) (s : Store skip_map)
        → select_ln level_idx s.manifest ≡ some files
        → HoldTables crc32 sip_hash bloom_loggable new_filter
            (files.source ++ files.target)
            ess
            s.directory
        → (r : Result (Unit {0})) × (s' : Store skip_map) × (compact_ln skip_map crc32 sip_hash
              bloom_loggable new_filter threads target_file_size level_idx s
            ≡ some (r, s'))
          × Succeeds threads level_idx ess files.source files.target s r s'
    unfolding compact_ln
    compact_ln_merges level_idx ess files s e h =
        rw (e, compact_ln)
          (execute_compaction-Compacts level_idx ess (files.source ++ files.target) files.source
            files.target s h)
