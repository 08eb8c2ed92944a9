-- ===== src/Compact/Execute/Lookup.antt =====
-- What readers find in the tables that a compaction leaves.
use easy_lsm.Base.{
  ℕ, ◌+◌, List, [], ◌∷◌, ◌++◌, concat, ◌≡◌, refl, sym, ap, ◌∙◌, All, Option, some, none,
  Option-cases, inl, inr,
}
use mathlib.Core.List.{Permᴰ}
use easy_lsm.Error.{Result, ok}
use easy_lsm.Codec.{Bytes, Loggable}
use easy_lsm.Value.{Value}
use easy_lsm.Entry.{Entry, first_of}
use easy_lsm.BloomFilter.{BloomFilter}
use easy_lsm.SkipMap.{SkipMap}
use easy_lsm.Directory.{Directory}
use easy_lsm.Sstable.{Sstable}
use easy_lsm.Sstable.Block.{value_of}
use easy_lsm.Sstable.Layout.{IsBlock}
use easy_lsm.Sstable.Whole.{written, IsStorable, table-written}
use easy_lsm.Sstable.Ends.{open_file, open_file_lem, search_table, search_table_lem}
use easy_lsm.Db.{open_files, search_level}
use easy_lsm.Compact.Merge.Invariant.{IsAscending}
use easy_lsm.Compact.Output.Stored.{metas_of, Stored}
use easy_lsm.Compact.Execute.NewestOf.{
  IsNewestOf, IsNewestOf-Permᴰ, first_of-append, first_of-IsNewestOf,
}

module _ (skip_map : SkipMap) (crc32 : Bytes → ℕ) (sip_hash : ℕ × ℕ → Bytes → ℕ)
    (bloom_loggable : Loggable BloomFilter) (new_filter : BloomFilter) where
  opened :
      (id : ℕ) (e : Entry) (es : List Entry)
      → IsStorable crc32 sip_hash bloom_loggable new_filter (e ∷ es)
      → (t : Sstable) × (open_file crc32 bloom_loggable id
            (written crc32 sip_hash bloom_loggable new_filter (e ∷ es)).1
          ≡ ok t)
        × ((k : Bytes) → search_table crc32 sip_hash t k ≡ ok (value_of (first_of k (e ∷ es))))
  opened id e es v =
      let (t, opens, finds) = table-written crc32 sip_hash bloom_loggable new_filter id e es v in
      let file = (written crc32 sip_hash bloom_loggable new_filter (e ∷ es)).1 in
      (
        t,
        ap
            (λ (o : Option (Result Sstable)). elim o [
              | some r ↦ r
              | none ↦ open_file crc32 bloom_loggable id file
            ])
            (sym (open_file_lem crc32 bloom_loggable id file) ∙ opens),
        λ k.
            ap
              (λ (o : Option (Result (Option Value))). elim o [
                | some r ↦ r
                | none ↦ search_table crc32 sip_hash t k
              ])
              (sym (search_table_lem crc32 sip_hash t k) ∙ finds k),
      )

  abbrev Finds : List Sstable → List Entry → Type 0
  Finds ts es =
      (k : Bytes)
      → search_level skip_map Sstable (search_table crc32 sip_hash) ts k
        ≡ ok (value_of (first_of k es))

  -- A table in front of others.
  search_level-cons :
      (t : Sstable) (ts : List Sstable) (c es : List Entry) (k : Bytes)
      → search_table crc32 sip_hash t k ≡ ok (value_of (first_of k c))
      → Finds ts es
      → search_level skip_map Sstable (search_table crc32 sip_hash) (t ∷ ts) k
        ≡ ok (value_of (first_of k (c ++ es)))
  unfolding search_level
  search_level-cons t ts c es k h later = elim (Option-cases (first_of k c)) [
    | inl q ↦
        let here : search_table crc32 sip_hash t k ≡ ok none =
          h ∙ ap (λ (o : Option Entry). ok (value_of o)) q in
        rw (here, search_level) (rw (first_of-append k c es, q) (later k))
    | inr (e, q) ↦
        let here : search_table crc32 sip_hash t k ≡ ok (some e.1) =
          h ∙ ap (λ (o : Option Entry). ok (value_of o)) q in
        rw (here, search_level) (rw (first_of-append k c es, q) refl)
  ]

  -- The tables of the chunks open, and a level of them answers as all the entries in a row.
  open_chunks :
      (id : ℕ) (chunks : List (List Entry)) (d : Directory)
      → All IsBlock chunks
      → All (IsStorable crc32 sip_hash bloom_loggable new_filter) chunks
      → Stored crc32 sip_hash bloom_loggable new_filter id chunks d
      → (ts : List Sstable) × (open_files skip_map Sstable crc32
            (open_file crc32 bloom_loggable)
            (metas_of crc32 sip_hash bloom_loggable new_filter id chunks)
            d
          ≡ ok ts)
        × Finds ts (concat chunks)
  unfolding open_files
  open_chunks id [] d blocks v s = ([], refl, λ k. unfold search_level in refl)
  open_chunks id ([] ∷ chunks) d (b, blocks) v s = absurd b
  open_chunks id ((e ∷ es) ∷ chunks) d (b, blocks) (v, vs) (file, s) =
      let (t, opens, finds) = opened id e es v in
      let (ts, rest, level) = open_chunks (id + 1) chunks d blocks vs s in
      (
        t ∷ ts,
        rw (file, open_files) (rw (opens, open_files) (rw (rest, open_files))),
        λ k. search_level-cons t ts (e ∷ es) (concat chunks) k (finds k) level,
      )

  -- Reading from the tables that a compaction leaves, where each of them is one that a table can
  -- keep: they open, and the search of a level of them gives for every key the value of a newest
  -- version among all the entries of the inputs, and nothing only where no input has the key.
  pub search_compacted :
      (start : ℕ) (chunks ess : List (List Entry)) (d : Directory)
      → All IsBlock chunks
      → All (IsStorable crc32 sip_hash bloom_loggable new_filter) chunks
      → IsAscending (concat chunks)
      → Permᴰ (concat chunks) (concat ess)
      → Stored crc32 sip_hash bloom_loggable new_filter start chunks d
      → (ts : List Sstable) × (open_files skip_map Sstable crc32
            (open_file crc32 bloom_loggable)
            (metas_of crc32 sip_hash bloom_loggable new_filter start chunks)
            d
          ≡ ok ts)
        × ((k : Bytes)
            → (o : Option Entry) × (search_level skip_map Sstable (search_table crc32 sip_hash) ts k
                ≡ ok (value_of o))
              × IsNewestOf k o (concat ess))
  search_compacted start chunks ess d blocks vs up perm s =
      let (ts, opens, finds) = open_chunks start chunks d blocks vs s in
      (
        ts,
        opens,
        λ k. (
          first_of k (concat chunks),
          finds k,
          IsNewestOf-Permᴰ k (first_of k (concat chunks)) (concat chunks) (concat ess) perm
              (first_of-IsNewestOf k (concat chunks) up),
        ),
      )
