-- ===== src/Compact/Output/Stored.antt =====
-- Numbered files that hold chunks of entries, as the writer of tables makes them.
use easy_lsm.Base.{
  ℕ, suc, ◌+◌, ◌≤◌, List, [], ◌∷◌, ◌++◌, length, ◌≡◌, ap, ◌∙◌, arith, some, ◌<◌, ◌==◌, ==_iff, true,
  false, Bool-cases, inl, inr,
}
use easy_lsm.Codec.{Bytes, Loggable}
use easy_lsm.Entry.{Entry}
use easy_lsm.BloomFilter.{BloomFilter}
use easy_lsm.Directory
use easy_lsm.Directory.{Directory, sst, read-put, read-put_newer}
use easy_lsm.Manifest.{FileMetadata, ids}
use easy_lsm.Compact.Collect.{is_in}
use easy_lsm.Sstable.Whole.{written}

module _ (crc32 : Bytes → ℕ) (sip_hash : ℕ × ℕ → Bytes → ℕ) (bloom_loggable : Loggable BloomFilter)
    (new_filter : BloomFilter) where
  -- The metadata of the files that hold the chunks, numbered from `id` on.
  abbrev pub metas_of : ℕ → List (List Entry) → List FileMetadata
  metas_of id [] = []
  metas_of id (c ∷ cs) =
      record (written crc32 sip_hash bloom_loggable new_filter c).0 { file_id = id }
      ∷ metas_of (id + 1) cs

  -- Each chunk stands in the file of its number, as the writer makes it.
  abbrev pub Stored : ℕ → List (List Entry) → Directory → Type 0
  Stored id [] d = Unit {0}
  Stored id (c ∷ cs) d =
      (Directory.read (sst id) d ≡ some (written crc32 sip_hash bloom_loggable new_filter c).1)
      × Stored (id + 1) cs d

  pub metas_of-append :
      (id : ℕ) (cs : List (List Entry)) (c : List Entry)
      → metas_of id (cs ++ (c ∷ []))
        ≡ metas_of id cs
          ++ (record (written crc32 sip_hash bloom_loggable new_filter c).0 {
            file_id = id + length cs;
          }
              ∷ [])
  metas_of-append id [] c = rw (let z : id + 0 ≡ id = omega arith in z)
  metas_of-append id (b ∷ cs) c =
      rw (metas_of-append (id + 1) cs c)
        (rw (let z : id + 1 + length cs ≡ id + suc (length cs) = omega arith in z))

  pub Stored-put :
      (id n : ℕ) (cs : List (List Entry)) (file : Bytes) (d : Directory)
      → id + length cs ≤ n
      → Stored id cs d
      → Stored id cs (Directory.put (sst n) file d)
  Stored-put id n [] file d h s = tt
  Stored-put id n (c ∷ cs) file d h (p, s) = (
    read-put_newer id n file d (omega arith) ∙ p,
    Stored-put (id + 1) n cs file d (omega arith) s,
  )

  pub Stored-append :
      (id : ℕ) (cs : List (List Entry)) (c : List Entry) (d : Directory)
      → Stored id cs d
      → Directory.read (sst (id + length cs)) d
        ≡ some (written crc32 sip_hash bloom_loggable new_filter c).1
      → Stored id (cs ++ (c ∷ [])) d
  Stored-append id [] c d s h =
      (ap (λ (n : ℕ). Directory.read (sst n) d) (let z : id ≡ id + 0 = omega arith in z) ∙ h, tt)
  Stored-append id (b ∷ cs) c d (p, s) h = (
    p,
    Stored-append (id + 1) cs c d s (
        ap (λ (n : ℕ). Directory.read (sst n) d)
          (let z : id + 1 + length cs ≡ id + suc (length cs) = omega arith in z)
        ∙ h),
  )

  pub in_metas :
      (id n : ℕ) (cs : List (List Entry))
      → id ≤ n
      → n < id + length cs
      → is_in n (ids (metas_of id cs)) ≡ true
  unfolding ids
  in_metas id n [] h k = absurd (omega arith)
  in_metas id n (c ∷ cs) h k = elim (Bool-cases (id == n)) [
    | inl e ↦ rw e
    | inr e ↦ rw e (in_metas (id + 1) n cs (omega (arith, apart id n e)) (omega arith))
  ]
    where
      apart : (a b : ℕ) → (a == b) ≡ false → (a ≡ b) → ⊥
      apart a b e q = cc (e, (==_iff a b).1 q)

  pub Stored_moved :
      (id : ℕ) (cs : List (List Entry)) (d d' : Directory)
      → ((n : ℕ)
          → id ≤ n
          → n < id + length cs
          → Directory.read (sst n) d' ≡ Directory.read (sst n) d)
      → Stored id cs d
      → Stored id cs d'
  Stored_moved id [] d d' h s = tt
  Stored_moved id (c ∷ cs) d d' h (p, s) = (
    h id (omega arith) (omega arith) ∙ p,
    Stored_moved (id + 1) cs d d' (λ n low high. h n (omega arith) (omega arith)) s,
  )
