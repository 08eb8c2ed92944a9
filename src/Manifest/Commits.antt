-- ===== src/Manifest/Commits.antt =====
-- An optimistic update whose closure changes the manifest and leaves the directory alone: what it
-- commits, and that it leaves the tables alone.
use easy_lsm.Base.{
  ℕ, zero, suc, ◌+◌, ◌==◌, ◌≡◌, refl, sym, ap, ◌∙◌, Bool-cases, Option-cases, inl, inr,
}
use easy_lsm.Error.{Result, ok, err, Result-cases}
use easy_lsm.Codec.{Bytes}
use easy_lsm.Directory
use easy_lsm.Directory.{Directory, sst, mf, mf_tmp, read-remove}
use easy_lsm.Manifest.{Manifest, Meanwhile, KeepTables, attempts, apply_atomic_update, loggable}

read-put_mf :
    (id v : ℕ) (file : Bytes) (d : Directory)
    → Directory.read (sst id) (Directory.put (mf v) file d) ≡ Directory.read (sst id) d
unfolding Directory.read Directory.put Directory.same
read-put_mf id v file d = read-remove (sst id) (mf v) d refl

abbrev pub changing :
    (Manifest → Result Manifest) → Manifest → Directory → Result (Manifest × Directory)
changing change m d = elim (change m) [ err e ↦ err e | ok m' ↦ ok (m', d) ]

-- `found` is one of the snapshots that an update of `n` attempts takes, of the shared manifest as it
-- stands at first or as other threads have left it after an attempt.
pub data IsSnapshot (others : Meanwhile) (found : Manifest) : ℕ → Manifest → Type 0 where
  first : (n : ℕ) → IsSnapshot others found (suc n) found
  retried :
      (n : ℕ) (shared : Manifest)
      → IsSnapshot others found n (others.manifest n shared)
      → IsSnapshot others found (suc n) shared

-- A manifest that was committed, with the directory that is left.
pub record IsChanged (change : Manifest → Result Manifest) (others : Meanwhile) (n : ℕ)
    (shared : Manifest) (d : Directory) (m : Manifest) (d' : Directory) : Type 0 where
  pub found : Manifest
  pub changed : Manifest
  pub snapshot : IsSnapshot others found n shared
  pub commit : change found ≡ ok changed
  pub counted : m ≡ record changed { version = changed.version + 1 }
  pub kept : (id : ℕ) → Directory.read (sst id) d' ≡ Directory.read (sst id) d

module _ (crc32 : Bytes → ℕ) (change : Manifest → Result Manifest) (others : Meanwhile) where
  abbrev pub Commits : ℕ → Manifest → Directory → Result Manifest × Manifest × Directory → Type 0
  Commits n shared d (r, shared', d') =
      (m : Manifest) → r ≡ ok m → (shared' ≡ m) × IsChanged change others n shared d m d'

  module _ (keeps : KeepTables others) where
    read-staged :
        (k id v : ℕ) (file : Bytes) (d : Directory)
        → Directory.read
            (sst id)
            (Directory.remove (mf_tmp v) (others.files k (Directory.put (mf_tmp v) file d)))
          ≡ Directory.read (sst id) d
    unfolding Directory.read Directory.put Directory.same
    read-staged k id v file d =
        read-remove (sst id) (mf_tmp v) (others.files k (Directory.put (mf_tmp v) file d)) refl
        ∙ keeps k id (Directory.put (mf_tmp v) file d)
        ∙ read-remove (sst id) (mf_tmp v) d refl

    attempts-Commits :
        (n : ℕ) (shared : Manifest) (d : Directory)
        → Commits n shared d (attempts crc32 n (changing change) others shared d)
    unfolding attempts
    attempts-Commits zero shared d = λ m h. absurd (cc h)
    attempts-Commits (suc n) shared d = elim (Result-cases (change shared)) [
      | inr (e, q) ↦ rw (q, attempts) (λ m h. absurd (cc h))
      | inl (changed, q) ↦
          let candidate : Manifest = record changed { version = changed.version + 1 } in
          let v = candidate.version in
          let file = (loggable crc32).encode candidate in
          let d3 = others.files n (Directory.put (mf_tmp v) file d) in
          rw (q, attempts)
            (elim (Bool-cases ((others.manifest n shared).version == shared.version)) [
              | inl same ↦ rw same (elim (Option-cases (Directory.read (mf_tmp v) d3)) [
                | inl gone ↦ rw gone (λ m h. absurd (cc h))
                | inr (staged, there) ↦ rw there (λ m h.
                    let e : candidate ≡ m =
                      ap (λ (r : Result Manifest). elim r [ ok x ↦ x | err z ↦ candidate ]) h in
                    (
                      e,
                      record {
                        found = shared;
                        changed = changed;
                        snapshot = first n;
                        commit = q;
                        counted = sym e;
                        kept = λ id. read-put_mf id v staged _ ∙ read-staged n id v file d;
                      },
                    ))
              ])
              | inr conflict ↦ rw conflict (λ m h.
                  let (e, f) =
                    attempts-Commits n (others.manifest n shared) (Directory.remove (mf_tmp v) d3) m
                      h in
                  (
                    e,
                    record {
                      found = f.found;
                      changed = f.changed;
                      snapshot = retried n shared f.snapshot;
                      commit = f.commit;
                      counted = f.counted;
                      kept = λ id. f.kept id ∙ read-staged n id v file d;
                    },
                  ))
            ])
    ]

    pub apply_atomic_update-Commits :
        (shared : Manifest) (d : Directory)
        → Commits 3 shared d (apply_atomic_update crc32 (changing change) others shared d)
    unfolding apply_atomic_update
    apply_atomic_update-Commits shared d = attempts-Commits 3 shared d
