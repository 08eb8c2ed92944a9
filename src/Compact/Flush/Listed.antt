-- ===== src/Compact/Flush/Listed.antt =====
-- What the commit of a flush does to the lists of the manifest.
use easy_lsm.Base.{
  ℕ, arith, List, [], ◌∷◌, ◌++◌, length, take, drop, ◌≡◌, refl, sym, ap, true, Bool-cases, inl, inr,
}
use easy_lsm.Error.{Result, ok, err}
use easy_lsm.Manifest.{Manifest, FileMetadata, Level, ids, file_ids}
use easy_lsm.Compact.Select.{files_at}
use easy_lsm.Compact.Commit.{flush_commit, push_files, same_ids}
use easy_lsm.Compact.Collect.{is_in, prepare_gc_snapshot}
use easy_lsm.Compact.Collect.Safety.{is_in_left, is_in_right}

pub ids-append : (fs gs : List FileMetadata) → ids (fs ++ gs) ≡ ids fs ++ ids gs
unfolding ids
ids-append [] gs = refl
ids-append (f ∷ fs) gs = ap (λ (l : List ℕ). f.file_id ∷ l) (ids-append fs gs)

file_ids-push_files :
    (n : ℕ) (new_sstables : List FileMetadata) (ls : List Level)
    → is_in n (ids new_sstables) ≡ true
    → is_in n (file_ids (push_files new_sstables ls)) ≡ true
unfolding file_ids
file_ids-push_files n new_sstables [] h = is_in_left n (ids new_sstables) [] h
file_ids-push_files n new_sstables (l ∷ ls) h =
    is_in_left n (ids (l.files ++ new_sstables)) (file_ids ls)
      (rw (ids-append l.files new_sstables) (is_in_right n (ids l.files) (ids new_sstables) h))

-- The collection of garbage takes the pushed files for live.
pub is_live :
    (n : ℕ) (new_sstables : List FileMetadata) (ls : List Level) (m : Manifest)
    → m.levels ≡ push_files new_sstables ls
    → is_in n (ids new_sstables) ≡ true
    → is_in n (prepare_gc_snapshot m).ssts ≡ true
unfolding prepare_gc_snapshot
is_live n new_sstables ls m e h = rw e (file_ids-push_files n new_sstables ls h)

same_ids-eq : (xs ys : List ℕ) → same_ids xs ys ≡ true → xs ≡ ys
same_ids-eq [] [] h = refl
same_ids-eq [] (y ∷ ys) h = absurd (cc h)
same_ids-eq (x ∷ xs) [] h = absurd (cc h)
same_ids-eq (x ∷ xs) (y ∷ ys) h = ground (arith, same_ids-eq xs ys)

pub files_at-push_files :
    (new_sstables : List FileMetadata) (ls : List Level)
    → files_at 0 (push_files new_sstables ls) ≡ files_at 0 ls ++ new_sstables
unfolding files_at
files_at-push_files new_sstables [] = refl
files_at-push_files new_sstables (l ∷ ls) = refl

pub flush_commit_ok :
    (g : FileMetadata) (gs : List FileMetadata) (wals : List ℕ) (s changed : Manifest)
    → flush_commit (g ∷ gs) wals s ≡ ok changed
    → (changed
        ≡ record s { levels = push_files (g ∷ gs) s.levels; wals = drop (length wals) s.wals })
      × (take (length wals) s.wals ≡ wals)
unfolding flush_commit
flush_commit_ok g gs wals s changed h =
    elim (Bool-cases (same_ids (take (length wals) s.wals) wals)) [
      | inr no_match ↦ absurd (cc (rw no_match at h))
      | inl match_ ↦ (
        ap (λ (r : Result Manifest). elim r [ ok x ↦ x | err e ↦ changed ]) (sym (rw match_ at h)),
        same_ids-eq (take (length wals) s.wals) wals match_,
      )
    ]
