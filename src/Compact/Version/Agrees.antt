-- ===== src/Compact/Version/Agrees.antt =====
-- The tables that readers have open are the files of the manifest, level by level, before and after.
use easy_lsm.Base.{
  ℕ, zero, suc, ◌+◌, List, [], ◌∷◌, ◌++◌, ◌≡◌, sym, ap, ◌∙◌, subst, Bool-cases, inl, inr,
}
use easy_lsm.Key.{Key, key_le}
use easy_lsm.SkipMap.{SkipMap}
use easy_lsm.Manifest.{FileMetadata, Level, Manifest}
use easy_lsm.Sstable.{Sstable}
use easy_lsm.Compact.Commit.{
  is_listed, retain, insert_file, sort_files, change_at, compact_commit, push_files, flush_commit,
}
use easy_lsm.Db.{DbVersion}
use easy_lsm.Error.{ok}
use easy_lsm.Compact.Flush.{push_tables, flush_version}
use easy_lsm.Compact.Flush.Listed.{flush_commit_ok}
use easy_lsm.Compact.Version.{
  retain_tables, insert_table, sort_tables, change_tables_at, compact_version,
}

-- An open table and its file in the manifest.
pub record IsOpen (t : Sstable) (f : FileMetadata) : Type 0 where
  pub number : t.id ≡ f.file_id
  pub smallest : t.min_key ≡ f.min_key

abbrev pub AreOpen : List Sstable → List FileMetadata → Type 0
AreOpen [] [] = Unit {0}
AreOpen (t ∷ ts) (f ∷ fs) = IsOpen t f × AreOpen ts fs
AreOpen _ _ = ⊥

abbrev pub Agree : List (List Sstable) → List Level → Type 0
Agree [] [] = Unit {0}
Agree (ts ∷ tss) (l ∷ ls) = AreOpen ts l.files × Agree tss ls
Agree _ _ = ⊥

append-AreOpen :
    (ts us : List Sstable) (fs gs : List FileMetadata)
    → AreOpen ts fs
    → AreOpen us gs
    → AreOpen (ts ++ us) (fs ++ gs)
append-AreOpen [] us [] gs h k = k
append-AreOpen [] us (f ∷ fs) gs h k = absurd h
append-AreOpen (t ∷ ts) us [] gs h k = absurd h
append-AreOpen (t ∷ ts) us (f ∷ fs) gs (p, h) k = (p, append-AreOpen ts us fs gs h k)

retain-AreOpen :
    (gone : List FileMetadata) (ts : List Sstable) (fs : List FileMetadata)
    → AreOpen ts fs
    → AreOpen (retain_tables gone ts) (retain gone fs)
unfolding retain retain_tables
retain-AreOpen gone [] [] h = tt
retain-AreOpen gone [] (f ∷ fs) h = absurd h
retain-AreOpen gone (t ∷ ts) [] h = absurd h
retain-AreOpen gone (t ∷ ts) (f ∷ fs) (p, h) =
    let same : is_listed t.id gone ≡ is_listed f.file_id gone =
      ap (λ (n : ℕ). is_listed n gone) p.number in
    elim (Bool-cases (is_listed f.file_id gone)) [
      | inl gone_too ↦ rw (same, gone_too) (retain-AreOpen gone ts fs h)
      | inr stays ↦ rw (same, stays) (p, retain-AreOpen gone ts fs h)
    ]

insert-AreOpen :
    (t : Sstable) (f : FileMetadata) (ts : List Sstable) (fs : List FileMetadata)
    → IsOpen t f
    → AreOpen ts fs
    → AreOpen (insert_table t ts) (insert_file f fs)
unfolding insert_table insert_file
insert-AreOpen t f [] [] p h = (p, tt)
insert-AreOpen t f [] (g ∷ gs) p h = absurd h
insert-AreOpen t f (u ∷ us) [] p h = absurd h
insert-AreOpen t f (u ∷ us) (g ∷ gs) p (q, h) =
    let same : key_le t.min_key u.min_key ≡ key_le f.min_key g.min_key =
      ap (λ (k : Key). key_le k u.min_key) p.smallest ∙ ap (key_le f.min_key) q.smallest in
    elim (Bool-cases (key_le f.min_key g.min_key)) [
      | inl le ↦ rw (same, le) (p, (q, h))
      | inr gt ↦ rw (same, gt) (q, insert-AreOpen t f us gs p h)
    ]

sort-AreOpen :
    (ts : List Sstable) (fs : List FileMetadata)
    → AreOpen ts fs
    → AreOpen (sort_tables ts) (sort_files fs)
unfolding sort_tables sort_files
sort-AreOpen [] [] h = tt
sort-AreOpen [] (f ∷ fs) h = absurd h
sort-AreOpen (t ∷ ts) [] h = absurd h
sort-AreOpen (t ∷ ts) (f ∷ fs) (p, h) =
    insert-AreOpen t f (sort_tables ts) (sort_files fs) p (sort-AreOpen ts fs h)

change-Agree :
    (n : ℕ) (f : List Sstable → List Sstable) (g : List FileMetadata → List FileMetadata)
    (tss : List (List Sstable)) (ls : List Level)
    → ((ts : List Sstable) (fs : List FileMetadata) → AreOpen ts fs → AreOpen (f ts) (g fs))
    → Agree tss ls
    → Agree (change_tables_at n f tss) (change_at n g ls)
unfolding change_tables_at change_at
change-Agree zero f g [] [] h a = (h [] [] tt, tt)
change-Agree zero f g (ts ∷ tss) (l ∷ ls) h (p, a) = (h ts l.files p, a)
change-Agree (suc n) f g [] [] h a = (tt, change-Agree n f g [] [] h tt)
change-Agree (suc n) f g (ts ∷ tss) (l ∷ ls) h (p, a) = (p, change-Agree n f g tss ls h a)
change-Agree n f g [] (l ∷ ls) h a = absurd a
change-Agree n f g (ts ∷ tss) [] h a = absurd a

-- Where the tables that readers have open are the files of the manifest, level by level and in the
-- same order, they are so again after a compaction whose new tables are those of its new files: the
-- manifest by its commit, the readers by their new version.
pub compact_version-Agree :
    (skip_map : SkipMap) (source : ℕ) (new_sst_objs : List Sstable)
    (new_files gone_source gone_target : List FileMetadata) (v : DbVersion skip_map Sstable)
    (m : Manifest)
    → AreOpen new_sst_objs new_files
    → Agree v.sstables m.levels
    → Agree
        (compact_version skip_map source new_sst_objs gone_source gone_target v).sstables
        (compact_commit source new_files gone_source gone_target m).levels
unfolding compact_version compact_commit
compact_version-Agree skip_map source new_sst_objs new_files gone_source gone_target v m new a =
    change-Agree (source + 1)
      (λ tables. sort_tables (retain_tables gone_target tables ++ new_sst_objs))
      (λ files. sort_files (retain gone_target files ++ new_files)) _ _
      (λ ts fs h.
        sort-AreOpen _ _ (append-AreOpen _ _ _ _ (retain-AreOpen gone_target ts fs h) new))
      (change-Agree source (retain_tables gone_source) (retain gone_source) v.sstables m.levels
        (retain-AreOpen gone_source) a)

push-Agree :
    (skip_map : SkipMap) (new_sst_objs : List Sstable) (new_sstables : List FileMetadata)
    (tss : List (List Sstable)) (ls : List Level)
    → AreOpen new_sst_objs new_sstables
    → Agree tss ls
    → Agree (push_tables skip_map Sstable new_sst_objs tss) (push_files new_sstables ls)
unfolding push_tables
push-Agree skip_map new_sst_objs new_sstables [] [] new a = (new, tt)
push-Agree skip_map new_sst_objs new_sstables [] (l ∷ ls) new a = absurd a
push-Agree skip_map new_sst_objs new_sstables (ts ∷ tss) [] new a = absurd a
push-Agree skip_map new_sst_objs new_sstables (ts ∷ tss) (l ∷ ls) new (p, a) =
    (append-AreOpen ts new_sst_objs l.files new_sstables p new, a)

-- Where the tables that readers have open are the files of the manifest, they are so again after a
-- flush that found the manifest `m` and committed the files of its tables, at least one, to it.
pub flush_version-Agree :
    (skip_map : SkipMap) (num_flushed : ℕ) (new_sst_objs : List Sstable) (f : FileMetadata)
    (fs : List FileMetadata) (wals : List ℕ) (v : DbVersion skip_map Sstable)
    (m committed : Manifest)
    → AreOpen new_sst_objs (f ∷ fs)
    → Agree v.sstables m.levels
    → flush_commit (f ∷ fs) wals m ≡ ok committed
    → Agree (flush_version skip_map Sstable num_flushed new_sst_objs v).sstables committed.levels
unfolding flush_version
flush_version-Agree skip_map num_flushed new_sst_objs f fs wals v m committed new a h =
    subst (λ (ls : List Level). Agree (push_tables skip_map Sstable new_sst_objs v.sstables) ls)
      (sym (ap (λ (x : Manifest). x.levels) (flush_commit_ok f fs wals m committed h).0))
      (push-Agree skip_map new_sst_objs (f ∷ fs) v.sstables m.levels new a)
