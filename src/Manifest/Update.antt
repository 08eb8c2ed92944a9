-- ===== src/Manifest/Update.antt =====
-- The optimistic update: what it commits, and what other threads can do to it.
use easy_lsm.Base.{
  ℕ, zero, suc, ◌+◌, ◌^◌, ◌<◌, [], ◌≡◌, refl, ap, ◌∙◌, subst, ◌==◌, ==_iff, Bool-cases, inl, inr,
  some, append-nil,
}
use easy_lsm.Error.{ok, err, Result, Result-cases}
use easy_lsm.Codec.{Bytes}
use easy_lsm.Directory
use easy_lsm.Directory.{Directory, mf, mf_tmp}
use easy_lsm.Manifest.{
  Manifest, Meanwhile, KeepStaged, loggable, attempts, apply_atomic_update, Fits, encode_body,
  try_open, max_of, file_ids,
}
use easy_lsm.Manifest.RoundTrip.{manifest-ReadsBack, stored}

module _ (crc32 : Bytes → ℕ) where
  abbrev Outcome : Type 0
  Outcome = Result Manifest × Manifest × Directory

  -- A committed manifest is the shared one, and stands in the file of its version.
  abbrev IsCommitted : Manifest → Outcome → Type 0
  IsCommitted m (r, shared, d) =
      r ≡ ok m → (shared ≡ m) × (Directory.read (mf m.version) d ≡ some ((loggable crc32).encode m))

  committed :
      (c : Manifest) (d : Directory)
      → (m : Manifest)
      → IsCommitted m (ok c, c, Directory.put (mf c.version) ((loggable crc32).encode c) d)
  committed c d m h =
      let e : c ≡ m = ap (λ (r : Result Manifest). elim r [ ok x ↦ x | err z ↦ c ]) h in
      (
        e,
        subst
            (λ (x : Manifest).
              Directory.read (mf x.version)
                (Directory.put (mf c.version) ((loggable crc32).encode c) d)
              ≡ some ((loggable crc32).encode x))
            e (Directory.read-put (mf c.version) ((loggable crc32).encode c) d),
      )

  attempts-IsCommitted :
      (n : ℕ) (mutator : Manifest → Directory → Result (Manifest × Directory)) (others : Meanwhile)
      (shared : Manifest) (d : Directory) (m : Manifest)
      → KeepStaged others
      → IsCommitted m (attempts crc32 n mutator others shared d)
  unfolding attempts
  attempts-IsCommitted zero mutator others shared d m alone = λ h. absurd (cc h)
  attempts-IsCommitted (suc k) mutator others shared d m alone =
      elim (Result-cases (mutator shared d)) [
        | inr (e, q) ↦ rw (q, attempts) (λ h. absurd (cc h))
        | inl ((mutated, d1), q) ↦
            let v = mutated.version + 1 in
            let file = (loggable crc32).encode (record mutated { version = v }) in
            let d2 = Directory.put (mf_tmp v) file d1 in
            rw (q, attempts)
              (elim (Bool-cases ((others.manifest k shared).version == shared.version)) [
                | inl same ↦
                    let unchanged =
                      (==_iff (others.manifest k shared).version shared.version).0 same in
                    let staged =
                      alone k v shared d2 unchanged ∙ Directory.read-put (mf_tmp v) file d1 in
                    rw same (rw staged (committed _ _ m))
                | inr conflict ↦
                    rw conflict
                      (attempts-IsCommitted k mutator others (others.manifest k shared) _ m alone)
              ])
      ]

  -- The manifest as a restart finds it: the counters come from the files that it lists.
  abbrev pub reopened : Manifest → Manifest
  reopened m = record m {
    next_wal_id = max_of m.wals + 1;
    next_sstable_id = max_of (file_ids m.levels) + 1;
  }

  pub try_open_lem :
      (m : Manifest) (d : Directory)
      → Fits m
      → crc32 (encode_body m) < 2 ^ 32
      → Directory.read (mf m.version) d ≡ some ((loggable crc32).encode m)
      → try_open crc32 m.version d ≡ ok (reopened m)
  unfolding try_open
  try_open_lem m d fits crc file =
      let whole : (loggable crc32).decode ((loggable crc32).encode m) ≡ ok (stored m, []) =
        rw (append-nil ((loggable crc32).encode m)) at (manifest-ReadsBack crc32 m fits crc []) in
      rw (file, try_open) (rw whole)

  -- An update that answers with a manifest has made it the shared one, and opening the file of its
  -- version gives it back, but for the two counters, where its lists and numbers fit their fields.
  -- Other threads may change the shared manifest and the files meanwhile, and commit updates of their
  -- own, which makes the update try again; but they do not write the temporary file of a manifest
  -- without committing a version before the attempt is over.
  pub update_commits :
      (mutator : Manifest → Directory → Result (Manifest × Directory)) (others : Meanwhile)
      (shared : Manifest) (d : Directory) (m : Manifest)
      → KeepStaged others
      → Fits m
      → crc32 (encode_body m) < 2 ^ 32
      → (apply_atomic_update crc32 mutator others shared d).0 ≡ ok m
      → ((apply_atomic_update crc32 mutator others shared d).1 ≡ m)
        × (try_open crc32 m.version (apply_atomic_update crc32 mutator others shared d).2
            ≡ ok (reopened m))
  unfolding apply_atomic_update
  update_commits mutator others shared d m alone fits crc h =
      let (kept, file) = attempts-IsCommitted 3 mutator others shared d m alone h in
      (kept, try_open_lem m _ fits crc file)

  -- Two updates from one version share a temporary file: where another thread, which found the same
  -- version, writes a manifest of its own there after this update did, and has not committed yet,
  -- this update succeeds and makes its candidate the shared manifest, but opening the file of the
  -- version gives the other's manifest, but for the two counters, where its lists and numbers fit
  -- their fields.
  pub update_installs_other :
      (mutator : Manifest → Directory → Result (Manifest × Directory)) (others : Meanwhile)
      (shared mutated theirs : Manifest) (d d1 : Directory)
      → mutator shared d ≡ ok (mutated, d1)
      → (others.manifest 2 shared).version ≡ shared.version
      → theirs.version ≡ mutated.version + 1
      → ((d2 : Directory)
          → Directory.read (mf_tmp theirs.version) (others.files 2 d2)
            ≡ some ((loggable crc32).encode theirs))
      → Fits theirs
      → crc32 (encode_body theirs) < 2 ^ 32
      → (let outcome = apply_atomic_update crc32 mutator others shared d in
          (outcome.0 ≡ ok (record mutated { version = mutated.version + 1 }))
          × (outcome.1 ≡ record mutated { version = mutated.version + 1 })
          × (try_open crc32 (mutated.version + 1) outcome.2 ≡ ok (reopened theirs)))
  unfolding apply_atomic_update attempts
  update_installs_other mutator others shared mutated theirs d d1 h same v staged fits crc =
      let next = mutated.version + 1 in
      let other = (loggable crc32).encode theirs in
      let d2 =
        Directory.put (mf_tmp next) ((loggable crc32).encode (record mutated { version = next }))
          d1 in
      let d4 = Directory.remove (mf_tmp next) (others.files 2 d2) in
      let there =
        subst (λ (u : ℕ). Directory.read (mf_tmp u) (others.files 2 d2) ≡ some other) v
          (staged d2) in
      let stored =
        subst
          (λ (u : ℕ).
            Directory.read (mf theirs.version) (Directory.put (mf u) other d4) ≡ some other)
          v (Directory.read-put (mf theirs.version) other d4) in
      let opened =
        subst
          (λ (u : ℕ). try_open crc32 u (Directory.put (mf next) other d4) ≡ ok (reopened theirs)) v
          (try_open_lem theirs (Directory.put (mf next) other d4) fits crc stored) in
      rw (h, attempts)
        (rw ((==_iff (others.manifest 2 shared).version shared.version).1 same)
          (rw there (refl, refl, opened)))
