-- ===== src/Compact/Collect/Safety.antt =====
-- Garbage collection keeps what the manifests refer to.
use easy_lsm.Base.{
  ℕ, List, [], ◌∷◌, ◌++◌, take, drop, Bool, true, false, ◌==◌, ==_iff, ◌||◌, if◌then◌else◌, some,
  ◌≡◌, refl, ◌∙◌, Bool-cases, Option-cases, inl, inr, arith,
}
use easy_lsm.Error.{ok, Result-cases}
use easy_lsm.Codec.{Bytes}
use easy_lsm.Directory
use easy_lsm.Directory.{Directory, FileName, mf, mf_tmp, wal, sst, other, same, read-remove}
use easy_lsm.Manifest.{Manifest, file_ids, loggable}
use easy_lsm.Compact.Collect.{
  Live, is_in, prepare_gc_snapshot, versions, descending, keep_count, referenced, obsolete,
  remove_all, manifest_names, garbage_collect,
}

pub is_in-append : (n : ℕ) (xs ys : List ℕ) → is_in n (xs ++ ys) ≡ (is_in n xs || is_in n ys)
is_in-append n [] ys = refl
is_in-append n (x ∷ xs) ys = ground (arith, is_in-append n xs ys)

pub is_in_right : (n : ℕ) (xs ys : List ℕ) → is_in n ys ≡ true → is_in n (xs ++ ys) ≡ true
is_in_right n xs ys h = ground (arith, is_in-append n xs ys)

pub is_in_left : (n : ℕ) (xs ys : List ℕ) → is_in n xs ≡ true → is_in n (xs ++ ys) ≡ true
is_in_left n xs ys h = ground (arith, is_in-append n xs ys)

module _ (crc32 : Bytes → ℕ) where
  -- A name that is not among those deleted.
  abbrev pub is_kept : FileName → List FileName → Bool
  is_kept n [] = true
  is_kept n (x ∷ xs) = if same x n then false else is_kept n xs

  pub read-remove_all :
      (n : FileName) (xs : List FileName) (d : Directory)
      → is_kept n xs ≡ true
      → Directory.read n (remove_all crc32 xs d) ≡ Directory.read n d
  unfolding remove_all
  read-remove_all n [] d h = refl
  read-remove_all n (x ∷ xs) d h = elim (Bool-cases (same x n)) [
    | inl e ↦ absurd (cc (rw e at h))
    | inr e ↦ read-remove_all n xs (Directory.remove x d) (rw e at h) ∙ read-remove n x d e
  ]

  sst_kept :
      (id : ℕ) (live : Live) (d : Directory)
      → is_in id live.ssts ≡ true
      → is_kept (sst id) (obsolete crc32 live d) ≡ true
  unfolding obsolete same
  sst_kept id live [] h = refl
  sst_kept id live ((mf v, file) ∷ d) h = sst_kept id live d h
  sst_kept id live ((mf_tmp v, file) ∷ d) h = sst_kept id live d h
  sst_kept id live ((other v, file) ∷ d) h = sst_kept id live d h
  sst_kept id live ((wal v, file) ∷ d) h = ground (arith, sst_kept id live d h)
  sst_kept id live ((sst v, file) ∷ d) h = ground (arith, sst_kept id live d h)

  wal_kept :
      (id : ℕ) (live : Live) (d : Directory)
      → is_in id live.wals ≡ true
      → is_kept (wal id) (obsolete crc32 live d) ≡ true
  unfolding obsolete same
  wal_kept id live [] h = refl
  wal_kept id live ((mf v, file) ∷ d) h = wal_kept id live d h
  wal_kept id live ((mf_tmp v, file) ∷ d) h = wal_kept id live d h
  wal_kept id live ((other v, file) ∷ d) h = wal_kept id live d h
  wal_kept id live ((sst v, file) ∷ d) h = ground (arith, wal_kept id live d h)
  wal_kept id live ((wal v, file) ∷ d) h = ground (arith, wal_kept id live d h)

  manifests_apart :
      (id : ℕ) (vs : List ℕ)
      → (is_kept (wal id) (manifest_names crc32 vs) ≡ true)
        × (is_kept (sst id) (manifest_names crc32 vs) ≡ true)
  unfolding same
  manifests_apart id [] = (refl, refl)
  manifests_apart id (v ∷ vs) = manifests_apart id vs

  abbrev Includes : Live → Live → Type 0
  Includes a b =
      (id : ℕ)
      → (is_in id a.wals ≡ true → is_in id b.wals ≡ true)
        × (is_in id a.ssts ≡ true → is_in id b.ssts ≡ true)

  referenced_step :
      (v : ℕ) (vs : List ℕ) (d : Directory) (live : Live)
      → Includes (referenced crc32 vs d live) (referenced crc32 (v ∷ vs) d live)
  unfolding referenced
  referenced_step v vs d live id = elim (Option-cases (Directory.read (mf v) d)) [
    | inl e ↦ rw (e, referenced) ((λ h. h), (λ h. h))
    | inr (file, e) ↦ elim (Result-cases ((loggable crc32).decode file)) [
      | inr (x, p) ↦ rw (e, referenced) (rw p ((λ h. h), (λ h. h)))
      | inl ((m, r), p) ↦
          rw (e, referenced) (rw p (is_in_right id m.wals _, is_in_right id (file_ids m.levels) _))
    ]
  ]

  referenced-Includes :
      (vs : List ℕ) (d : Directory) (live : Live) → Includes live (referenced crc32 vs d live)
  referenced-Includes [] d live id = unfold referenced in ((λ h. h), (λ h. h))
  referenced-Includes (v ∷ vs) d live id =
      let (a, b) = referenced-Includes vs d live id in
      let (a', b') = referenced_step v vs d live id in ((λ h. a' (a h)), (λ h. b' (b h)))

  referenced_here :
      (v : ℕ) (vs : List ℕ) (d : Directory) (live : Live) (file r : Bytes) (m : Manifest)
      → is_in v vs ≡ true
      → Directory.read (mf v) d ≡ some file
      → (loggable crc32).decode file ≡ ok (m, r)
      → Includes (prepare_gc_snapshot m) (referenced crc32 vs d live)
  unfolding referenced prepare_gc_snapshot
  referenced_here v [] d live file r m h e p id = absurd (cc h)
  referenced_here v (u ∷ vs) d live file r m h e p id = elim (Bool-cases (u == v)) [
    | inl eq ↦
        rw ((==_iff u v).0 eq)
          (rw (e, referenced) (rw p (is_in_left id m.wals _, is_in_left id (file_ids m.levels) _)))
    | inr ne ↦
        let (a, b) = referenced_here v vs d live file r m (rw ne at h) e p id in
        let (a', b') = referenced_step u vs d live id in ((λ k. a' (a k)), (λ k. b' (b k)))
  ]

  -- The logs and tables that the snapshot of the manifest in memory, or one of the two manifests of
  -- the highest versions on disk, refers to.
  pub data IsNeeded (snapshot : Live) (d : Directory) : FileName → Type 0 where
    live_wal : (id : ℕ) → is_in id snapshot.wals ≡ true → IsNeeded snapshot d (wal id)
    live_sst : (id : ℕ) → is_in id snapshot.ssts ≡ true → IsNeeded snapshot d (sst id)
    kept_wal :
        (id v : ℕ) (file r : Bytes) (m : Manifest)
        → is_in v (take keep_count (descending (versions d))) ≡ true
        → Directory.read (mf v) d ≡ some file
        → (loggable crc32).decode file ≡ ok (m, r)
        → is_in id m.wals ≡ true
        → IsNeeded snapshot d (wal id)
    kept_sst :
        (id v : ℕ) (file r : Bytes) (m : Manifest)
        → is_in v (take keep_count (descending (versions d))) ≡ true
        → Directory.read (mf v) d ≡ some file
        → (loggable crc32).decode file ≡ ok (m, r)
        → is_in id (file_ids m.levels) ≡ true
        → IsNeeded snapshot d (sst id)

  wal_stays :
      (id : ℕ) (snapshot : Live) (d : Directory)
      → is_in id (referenced crc32 (take keep_count (descending (versions d))) d snapshot).wals
        ≡ true
      → Directory.read (wal id) (garbage_collect crc32 snapshot d) ≡ Directory.read (wal id) d
  unfolding garbage_collect
  wal_stays id snapshot d h =
      read-remove_all (wal id)
        (obsolete crc32 (referenced crc32 (take keep_count (descending (versions d))) d snapshot) d)
        _
        (wal_kept id (referenced crc32 (take keep_count (descending (versions d))) d snapshot) d h)
      ∙ read-remove_all (wal id) (manifest_names crc32 (drop keep_count (descending (versions d))))
          d (manifests_apart id (drop keep_count (descending (versions d)))).0

  sst_stays :
      (id : ℕ) (snapshot : Live) (d : Directory)
      → is_in id (referenced crc32 (take keep_count (descending (versions d))) d snapshot).ssts
        ≡ true
      → Directory.read (sst id) (garbage_collect crc32 snapshot d) ≡ Directory.read (sst id) d
  unfolding garbage_collect
  sst_stays id snapshot d h =
      read-remove_all (sst id)
        (obsolete crc32 (referenced crc32 (take keep_count (descending (versions d))) d snapshot) d)
        _
        (sst_kept id (referenced crc32 (take keep_count (descending (versions d))) d snapshot) d h)
      ∙ read-remove_all (sst id) (manifest_names crc32 (drop keep_count (descending (versions d))))
          d (manifests_apart id (drop keep_count (descending (versions d)))).1

  -- Collection is safe: a log or table that the manifest in memory, or one of the two manifests of
  -- the highest versions on disk, refers to is as it was before.
  pub garbage_collect-keeps :
      (snapshot : Live) (d : Directory) (n : FileName)
      → IsNeeded snapshot d n
      → Directory.read n (garbage_collect crc32 snapshot d) ≡ Directory.read n d
  unfolding prepare_gc_snapshot
  garbage_collect-keeps snapshot d _ (live_wal id h) =
      wal_stays id snapshot d ((referenced-Includes _ d snapshot id).0 h)
  garbage_collect-keeps snapshot d _ (live_sst id h) =
      sst_stays id snapshot d ((referenced-Includes _ d snapshot id).1 h)
  garbage_collect-keeps snapshot d _ (kept_wal id v file r m newest e p h) =
      wal_stays id snapshot d ((referenced_here v _ d snapshot file r m newest e p id).0 h)
  garbage_collect-keeps snapshot d _ (kept_sst id v file r m newest e p h) =
      sst_stays id snapshot d ((referenced_here v _ d snapshot file r m newest e p id).1 h)
