-- ===== src/Compact/Collect/Newest.antt =====
-- The newest manifest file of a directory: the one that a restart looks for, and that stays.
use easy_lsm.Base.{
  ℕ, ◌+◌, ◌^◌, ◌<◌, arith, List, [], ◌∷◌, take, drop, true, false, leb, ltb, ◌==◌, ==_iff, ◌≡◌,
  refl, sym, ap, ◌∙◌, some, Option-cases, Bool-cases, inl, inr, All,
}
use easy_lsm.Error.{ok}
use easy_lsm.Codec.{Bytes}
use easy_lsm.Directory
use easy_lsm.Directory.{
  Directory, FileName, mf, mf_tmp, wal, sst, other, same, same_eq, read-remove,
}
use easy_lsm.Manifest.{Manifest, loggable, latest, recover_or_init, Fits, encode_body}
use easy_lsm.Manifest.Update.{reopened, try_open_lem}
use easy_lsm.Compact.Collect.{
  Live, versions, insert_version, descending, keep_count, referenced, obsolete, remove_all,
  manifest_names, garbage_collect,
}
use easy_lsm.Compact.Collect.Safety.{is_kept, read-remove_all}

-- Every manifest file of the directory is older than `v`.
abbrev pub Older : ℕ → List ℕ → Type 0
Older v us = All (λ (u : ℕ). u < v) us

pub Older-remove :
    (v : ℕ) (n : FileName) (d : Directory)
    → Older v (versions d)
    → Older v (versions (Directory.remove n d))
unfolding versions Directory.remove
Older-remove v n [] h = tt
Older-remove v n ((mf u, file) ∷ d) (p, h) = elim (Bool-cases (same (mf u) n)) [
  | inl e ↦ rw e (Older-remove v n d h)
  | inr e ↦ rw e (p, Older-remove v n d h)
]
Older-remove v n ((mf_tmp u, file) ∷ d) h = elim (Bool-cases (same (mf_tmp u) n)) [
  | inl e ↦ rw e (Older-remove v n d h)
  | inr e ↦ rw e (Older-remove v n d h)
]
Older-remove v n ((wal u, file) ∷ d) h = elim (Bool-cases (same (wal u) n)) [
  | inl e ↦ rw e (Older-remove v n d h)
  | inr e ↦ rw e (Older-remove v n d h)
]
Older-remove v n ((sst u, file) ∷ d) h = elim (Bool-cases (same (sst u) n)) [
  | inl e ↦ rw e (Older-remove v n d h)
  | inr e ↦ rw e (Older-remove v n d h)
]
Older-remove v n ((other u, file) ∷ d) h = elim (Bool-cases (same (other u) n)) [
  | inl e ↦ rw e (Older-remove v n d h)
  | inr e ↦ rw e (Older-remove v n d h)
]

Older-insert_version : (v u : ℕ) (us : List ℕ) → u < v → Older v us → Older v (insert_version u us)
unfolding insert_version
Older-insert_version v u [] p h = (p, tt)
Older-insert_version v u (x ∷ us) p (q, h) = elim (Bool-cases (leb x u)) [
  | inl le ↦ rw le (p, (q, h))
  | inr gt ↦ rw gt (q, Older-insert_version v u us p h)
]

Older-descending : (v : ℕ) (us : List ℕ) → Older v us → Older v (descending us)
unfolding descending
Older-descending v [] h = tt
Older-descending v (u ∷ us) (p, h) =
    Older-insert_version v u (descending us) p (Older-descending v us h)

-- The newest version comes first.
newest_first : (v : ℕ) (us : List ℕ) → Older v us → insert_version v us ≡ v ∷ us
unfolding insert_version
newest_first v [] h = refl
newest_first v (u ∷ us) (p, h) = rw (let le : leb u v ≡ true = ground arith in le)

Older-weaken : (v : ℕ) (us : List ℕ) → Older v us → Older (v + 1) us
Older-weaken v [] h = tt
Older-weaken v (u ∷ us) (p, h) = (omega arith, Older-weaken v us h)

latest_bound : (v u : ℕ) (d : Directory) → Older v (versions d) → latest d ≡ some u → u < v
unfolding latest versions
latest_bound v u [] h e = absurd (cc e)
latest_bound v u ((mf w, file) ∷ d) (p, h) e = elim (Option-cases (latest d)) [
  | inl q ↦ let x : some w ≡ some u = rw q at e in grind arith
  | inr (t, q) ↦
      let below = latest_bound v t d h q in
      elim (Bool-cases (ltb t w)) [
        | inl lt ↦ let x : some w ≡ some u = rw lt at (rw q at e) in grind arith
        | inr ge ↦ let x : some t ≡ some u = rw ge at (rw q at e) in grind arith
      ]
]
latest_bound v u ((mf_tmp w, file) ∷ d) h e = latest_bound v u d h e
latest_bound v u ((wal w, file) ∷ d) h e = latest_bound v u d h e
latest_bound v u ((sst w, file) ∷ d) h e = latest_bound v u d h e
latest_bound v u ((other w, file) ∷ d) h e = latest_bound v u d h e

-- A manifest file that no other is newer than is the latest.
latest_newest :
    (v : ℕ) (file : Bytes) (d : Directory)
    → Older (v + 1) (versions d)
    → Directory.read (mf v) d ≡ some file
    → latest d ≡ some v
unfolding latest versions Directory.read same
latest_newest v file [] h e = absurd (cc e)
latest_newest v file ((mf w, bytes) ∷ d) (p, h) e = elim (Option-cases (latest d)) [
  | inl q ↦ elim (Bool-cases (w == v)) [
    | inl eq ↦ rw q (ap some ((==_iff w v).0 eq))
    | inr ne ↦ absurd (cc (latest_newest v file d h (rw ne at e), q))
  ]
  | inr (t, q) ↦
      let below = latest_bound (v + 1) t d h q in
      elim (Bool-cases (w == v)) [
        | inl eq ↦
            let is : w ≡ v = (==_iff w v).0 eq in
            rw q (elim (Bool-cases (ltb t w)) [
              | inl lt ↦ rw lt (ap some is)
              | inr ge ↦ rw ge (ap some (let r : t ≡ v = grind arith in r))
            ])
        | inr ne ↦
            let r : some t ≡ some v = sym q ∙ latest_newest v file d h (rw ne at e) in
            let ge : ltb t w ≡ false = grind arith in rw q (rw ge r)
      ]
]
latest_newest v file ((mf_tmp w, bytes) ∷ d) h e = latest_newest v file d h e
latest_newest v file ((wal w, bytes) ∷ d) h e = latest_newest v file d h e
latest_newest v file ((sst w, bytes) ∷ d) h e = latest_newest v file d h e
latest_newest v file ((other w, bytes) ∷ d) h e = latest_newest v file d h e

module _ (crc32 : Bytes → ℕ) where
  names_kept :
      (v : ℕ) (us : List ℕ) → Older v us → is_kept crc32 (mf v) (manifest_names crc32 us) ≡ true
  unfolding same
  names_kept v [] h = refl
  names_kept v (u ∷ us) (p, h) =
      let apart : (u == v) ≡ false = grind arith in rw apart (names_kept v us h)

  manifest_kept :
      (v : ℕ) (live : Live) (d : Directory) → is_kept crc32 (mf v) (obsolete crc32 live d) ≡ true
  unfolding obsolete same
  manifest_kept v live [] = refl
  manifest_kept v live ((mf u, file) ∷ d) = manifest_kept v live d
  manifest_kept v live ((mf_tmp u, file) ∷ d) = manifest_kept v live d
  manifest_kept v live ((other u, file) ∷ d) = manifest_kept v live d
  manifest_kept v live ((wal u, file) ∷ d) = ground (arith, manifest_kept v live d)
  manifest_kept v live ((sst u, file) ∷ d) = ground (arith, manifest_kept v live d)

  Older-drop : (v : ℕ) (us : List ℕ) → Older v us → Older v (drop 1 us)
  Older-drop v [] h = tt
  Older-drop v (u ∷ us) (p, h) = h

  Older-remove_all :
      (v : ℕ) (ns : List FileName) (d : Directory)
      → Older v (versions d)
      → Older v (versions (remove_all crc32 ns d))
  unfolding remove_all
  Older-remove_all v [] d h = h
  Older-remove_all v (n ∷ ns) d h =
      Older-remove_all v ns (Directory.remove n d) (Older-remove v n d h)

  Older-garbage_collect :
      (v : ℕ) (live : Live) (d : Directory)
      → Older v (versions d)
      → Older v (versions (garbage_collect crc32 live d))
  unfolding garbage_collect
  Older-garbage_collect v live d h =
      let manifest_files = descending (versions d) in
      Older-remove_all v
        (obsolete crc32 (referenced crc32 (take keep_count manifest_files) d live) d) _
        (Older-remove_all v (manifest_names crc32 (drop keep_count manifest_files)) d h)

  collect-read :
      (v : ℕ) (file : Bytes) (live : Live) (d : Directory)
      → Older v (versions d)
      → Directory.read (mf v) (garbage_collect crc32 live (Directory.put (mf v) file d)) ≡ some file
  unfolding garbage_collect versions descending
  collect-read v file live d h =
      let d' = Directory.put (mf v) file d in
      let others = descending (versions (Directory.remove (mf v) d)) in
      let older : Older v others = Older-descending v _ (Older-remove v (mf v) d h) in
      let first : descending (versions d') ≡ v ∷ others =
        unfold Directory.put in newest_first v others older in
      rw first (
        read-remove_all crc32 (mf v)
          (obsolete crc32 (referenced crc32 (take keep_count (v ∷ others)) d' live) d') _
          (manifest_kept v _ d')
        ∙ (read-remove_all crc32 (mf v) (manifest_names crc32 (drop 1 others)) d'
              (names_kept v (drop 1 others) (Older-drop v others older))
            ∙ Directory.read-put (mf v) file d))

  Older-put :
      (v : ℕ) (file : Bytes) (d : Directory)
      → Older v (versions d)
      → Older (v + 1) (versions (Directory.put (mf v) file d))
  unfolding Directory.put versions
  Older-put v file d h = (omega arith, Older-weaken v _ (Older-remove v (mf v) d h))

  -- The collection leaves the newest manifest file, and it is the one that a restart looks for.
  collect-latest :
      (v : ℕ) (file : Bytes) (live : Live) (d : Directory)
      → Older v (versions d)
      → latest (garbage_collect crc32 live (Directory.put (mf v) file d)) ≡ some v
  collect-latest v file live d h =
      latest_newest v file (garbage_collect crc32 live (Directory.put (mf v) file d))
        (Older-garbage_collect (v + 1) live (Directory.put (mf v) file d) (Older-put v file d h))
        (collect-read v file live d h)

  pub reopen_collected :
      (m : Manifest) (live : Live) (d : Directory)
      → Fits m
      → crc32 (encode_body m) < 2 ^ 32
      → Older m.version (versions d)
      → (let d' = Directory.put (mf m.version) ((loggable crc32).encode m) d in
          recover_or_init crc32 (garbage_collect crc32 live d')
          ≡ ok (reopened crc32 m, garbage_collect crc32 live d'))
  unfolding recover_or_init
  reopen_collected m live d fits crc older =
      let file = (loggable crc32).encode m in
      let e = collect-latest m.version file live d older in
      let opened =
        try_open_lem crc32 m (garbage_collect crc32 live (Directory.put (mf m.version) file d)) fits
          crc (collect-read m.version file live d older) in
      rw (e, recover_or_init) (rw (opened, recover_or_init))
