-- ===== src/Db/Rotate.antt =====
-- lib.rs, `rotate_memtable`: the number of the new log is not counted on.
use easy_lsm.Base.{ℕ, [], ◌∷◌, ◌++◌, ◌≡◌, sym, ◌∙◌, ap, append_assoc, inl, inr}
use easy_lsm.Error.{Result, ok, err, Result-cases}
use easy_lsm.Codec.{Bytes}
use easy_lsm.SkipMap.{SkipMap}
use easy_lsm.Directory.{Directory}
use easy_lsm.Manifest
use easy_lsm.Manifest.{Manifest}
use easy_lsm.Db.{rotate_commit}

module _ (skip_map : SkipMap) (Table : Type 0) (crc32 : Bytes → ℕ) where
  pushed :
      (m m' : Manifest) (d d' : Directory)
      → rotate_commit skip_map Table crc32 m d ≡ ok (m', d')
      → m' ≡ record m { wals = m.wals ++ (m.next_wal_id ∷ []) }
  unfolding rotate_commit
  pushed m m' d d' h = elim (Result-cases (Manifest.open_wal crc32 m.next_wal_id d)) [
    | inr (e, p) ↦ absurd (cc (rw (p, rotate_commit) at h))
    | inl (d'', p) ↦
        ap (λ (r : Result (Manifest × Directory)). elim r [ ok (x, y) ↦ x | err z ↦ m' ])
          (sym (rw (p, rotate_commit) at h))
  ]

  -- Two rotations in a row, whose commits only count the version on, list the same log twice.
  pub rotate_twice :
      (m m1 m2 : Manifest) (version : ℕ) (d d1 d2 : Directory)
      → rotate_commit skip_map Table crc32 m d ≡ ok (m1, d1)
      → rotate_commit skip_map Table crc32 (record m1 { version = version }) d1 ≡ ok (m2, d2)
      → m2.wals ≡ m.wals ++ (m.next_wal_id ∷ m.next_wal_id ∷ [])
  rotate_twice m m1 m2 version d d1 d2 h k =
      let a = pushed m m1 d d1 h in
      let b = pushed (record m1 { version = version }) m2 d1 d2 k in
      ap (λ (x : Manifest). x.wals) b
      ∙ rw a (append_assoc m.wals (m.next_wal_id ∷ []) (m.next_wal_id ∷ []))
