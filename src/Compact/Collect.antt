-- ===== src/Compact/Collect.antt =====
-- compact.rs, `prepare_gc_snapshot` and `garbage_collect`: the files that no manifest needs go.
-- Failures of `remove_file` are only printed there, and are left out.
mod Tests
pub mod Safety
pub mod Newest
pub mod Durable
use easy_lsm.Base.{
  ℕ, List, [], ◌∷◌, ◌++◌, take, drop, Bool, true, false, leb, ◌==◌, ==_iff, ◌||◌, if◌then◌else◌,
  none, some, ◌≡◌, refl, ◌∙◌, Bool-cases, Option-cases, inl, inr, arith,
}
use easy_lsm.Error.{ok, err, Result-cases}
use easy_lsm.Codec.{Bytes}
use easy_lsm.Directory
use easy_lsm.Directory.{Directory, FileName, mf, mf_tmp, wal, sst, other, same, read-remove}
use easy_lsm.Manifest.{Manifest, file_ids, loggable}

abbrev pub is_in : ℕ → List ℕ → Bool
is_in n [] = false
is_in n (x ∷ xs) = x == n || is_in n xs

-- The numbers of the logs and of the tables that are referred to; the source has two hash sets.
pub record Live : Type 0 where
  pub wals : List ℕ
  pub ssts : List ℕ

-- `prepare_gc_snapshot`
unfoldable pub prepare_gc_snapshot : Manifest → Live
prepare_gc_snapshot m = record { wals = m.wals; ssts = file_ids m.levels }

-- The versions of the manifest files, in the order of the directory.
unfoldable pub versions : Directory → List ℕ
versions [] = []
versions ((mf v, file) ∷ d) = v ∷ versions d
versions ((n, file) ∷ d) = versions d

-- `sort_by`, descending.
unfoldable pub insert_version : ℕ → List ℕ → List ℕ
insert_version v [] = v ∷ []
insert_version v (u ∷ us) =
    let rest = insert_version v us in if leb u v then v ∷ u ∷ us else u ∷ rest

unfoldable pub descending : List ℕ → List ℕ
unfolding insert_version
descending [] = []
descending (v ∷ vs) = insert_version v (descending vs)

abbrev pub keep_count : ℕ
keep_count = 2

module _ (crc32 : Bytes → ℕ) where
  -- What the kept manifests on disk refer to, with what is known already; a file that cannot be
  -- read or decoded adds nothing.
  unfoldable pub referenced : List ℕ → Directory → Live → Live
  referenced [] d live = live
  referenced (v ∷ vs) d live =
      let rest = referenced vs d live in
      elim (Directory.read (mf v) d) [
        | none ↦ rest
        | some file ↦ elim ((loggable crc32).decode file) [
          | err e ↦ rest
          | ok (m, r) ↦ record { wals = m.wals ++ rest.wals; ssts = file_ids m.levels ++ rest.ssts }
        ]
      ]

  -- The names to delete among the logs and the tables.
  unfoldable pub obsolete : Live → Directory → List FileName
  obsolete live [] = []
  obsolete live ((wal id, file) ∷ d) =
      let rest = obsolete live d in if is_in id live.wals then rest else wal id ∷ rest
  obsolete live ((sst id, file) ∷ d) =
      let rest = obsolete live d in if is_in id live.ssts then rest else sst id ∷ rest
  obsolete live ((n, file) ∷ d) = obsolete live d

  unfoldable pub remove_all : List FileName → Directory → Directory
  remove_all [] d = d
  remove_all (n ∷ ns) d = remove_all ns (Directory.remove n d)

  abbrev pub manifest_names : List ℕ → List FileName
  manifest_names [] = []
  manifest_names (v ∷ vs) = mf v ∷ manifest_names vs

  unfoldable pub garbage_collect : Live → Directory → Directory
  unfolding versions descending referenced obsolete remove_all
  garbage_collect snapshot d =
      let manifest_files = descending (versions d) in
      let live = referenced (take keep_count manifest_files) d snapshot in
      remove_all (obsolete live d) (remove_all (manifest_names (drop keep_count manifest_files)) d)
