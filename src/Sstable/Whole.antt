-- ===== src/Sstable/Whole.antt =====
-- A table as a whole: what a writer was given is what a reader of the finished file gets.
pub mod Tests
use easy_lsm.Base.{
  ℕ, zero, suc, ◌+◌, ◌-◌, ◌<◌, ◌^◌, ◌%◌, List, [], ◌∷◌, ◌++◌, length, concat, ◌≡◌, refl, sym, ap,
  ◌∙◌, subst, arith, All, Option, none, some, Bool, true, false, Bool-cases, Option-cases, inl, inr,
  length-append, append-nil, not, if◌then◌else◌,
}
use native.Mathlib.Nat.{mod-eq_of_lt}
use mathlib.Core.List.{Memᴰ}
use easy_lsm.Error.{Result, ok, err}
use easy_lsm.Codec.{Bytes, Loggable}
use easy_lsm.Codec.Reads.{ReadsBack}
use easy_lsm.Key.{Key, eq_bytes}
use easy_lsm.Entry.{Entry, Fits, IsSorted, first_of}
use easy_lsm.Entry.Newest.{eq_bytes-eq}
use easy_lsm.BloomFilter
use easy_lsm.BloomFilter.{BloomFilter}
use easy_lsm.BloomFilter.Members.{IsSized, insert_all, check-insert_all}
use easy_lsm.Manifest.{FileMetadata}
use easy_lsm.Sstable.{Sstable, IndexEntry, SstableWriter, is_empty, find_block}
use easy_lsm.Sstable.Block.{value_of}
use easy_lsm.Sstable.Writer.{new, finalize, flush_block}
use easy_lsm.Sstable.Table.{open_table, search, table_entries}
use easy_lsm.Sstable.Layout.{last_key, IsBlock, file_of, index_of}
use easy_lsm.Sstable.Build.{
  writer_of, filter_keys, IsClosed, close-IsClosed, write_all, write_all-IsWriterOf, new-IsWriterOf,
}
use easy_lsm.Sstable.Index.{index_of-IndexFits, last_key-Fits}
use easy_lsm.Sstable.Lookup.{target_of}
use easy_lsm.Sstable.Reading.{IsU32, Holds, look_into_lem, table_entries_lem}
use easy_lsm.Sstable.Opening.{finished, finished-blocks, open_table-finished}

first_of-Memᴰ :
    (k : Bytes) (es : List Entry) (f : Entry) → first_of k es ≡ some f → Memᴰ k (filter_keys es)
first_of-Memᴰ k [] f h = absurd (cc h)
first_of-Memᴰ k (e ∷ es) f h = elim (Bool-cases (eq_bytes e.0.bytes k)) [
  | inl same ↦ Memᴰ.head (sym (eq_bytes-eq e.0.bytes k same))
  | inr other ↦ Memᴰ.tail (first_of-Memᴰ k es f (rw other at h))
]

module _ (crc32 : Bytes → ℕ) (sip_hash : ℕ × ℕ → Bytes → ℕ) (bloom_loggable : Loggable BloomFilter)
    (new_filter : BloomFilter) where
  -- The metadata and the file, of a writer that was given the entries one by one.
  abbrev pub written : List Entry → FileMetadata × Bytes
  written es =
      finalize crc32 bloom_loggable (write_all crc32 sip_hash new_filter es (new new_filter))

  abbrev pub filter_of : List Entry → BloomFilter
  filter_of es = insert_all sip_hash (filter_keys es) new_filter

  -- Entries that a table can keep: in order, each fitting its fields, in a file below 4 GiB; and a
  -- filter that has room for its bits and is read back from its form on disk.
  pub record IsStorable (es : List Entry) : Type 0 where
    pub fits : All Fits es
    pub sorted : IsSorted es
    pub file_u32 : IsU32 crc32 (written es).1
    pub sized : IsSized new_filter
    pub filter_back : ReadsBack bloom_loggable (filter_of es)

  abbrev file_with : List (List Entry) → Entry → List Entry → Bytes
  file_with segs e es =
      finished crc32 bloom_loggable (file_of crc32 segs) e.0 (last_key e es) (index_of crc32 0 segs)
        (filter_of (e ∷ es))

  finalize_lem :
      (e : Entry) (es : List Entry)
      → (w : SstableWriter)
      → (c : IsClosed crc32 sip_hash new_filter
          (e ∷ es)
          (if is_empty w.current_block then w else flush_block crc32 w))
      → finalize crc32 bloom_loggable w ≡ (
        record {
          file_id = 0;
          file_size = length (file_with c.segs e es) % 2 ^ 32;
          min_key = e.0;
          max_key = last_key e es;
        },
        file_with c.segs e es,
      )
  unfolding finalize
  finalize_lem e es w c = rw c.state

  closed :
      (es : List Entry)
      → (let w = write_all crc32 sip_hash new_filter es (new new_filter) in
          IsClosed crc32 sip_hash new_filter es
            (if is_empty w.current_block then w else flush_block crc32 w))
  closed es =
      close-IsClosed crc32 sip_hash new_filter es
        (write_all crc32 sip_hash new_filter es (new new_filter))
        (write_all-IsWriterOf crc32 sip_hash new_filter [] es (new new_filter)
          (new-IsWriterOf crc32 sip_hash new_filter))

  -- The runs of entries that the blocks of the file hold.
  record IsTableOf (e : Entry) (es : List Entry) : Type 0 where
    pub segs : List (List Entry)
    pub blocks : All IsBlock segs
    pub whole : concat segs ≡ e ∷ es
    pub metadata : (written (e ∷ es)).0 ≡ record {
      file_id = 0;
      file_size = length (file_with segs e es) % 2 ^ 32;
      min_key = e.0;
      max_key = last_key e es;
    }
    pub file : (written (e ∷ es)).1 ≡ file_with segs e es

  written-IsTableOf : (e : Entry) (es : List Entry) → IsTableOf e es
  written-IsTableOf e es =
      let c = closed (e ∷ es) in
      let w = write_all crc32 sip_hash new_filter (e ∷ es) (new new_filter) in
      record {
        segs = c.segs;
        blocks = c.blocks;
        whole = c.whole;
        metadata = ap (λ (p : FileMetadata × Bytes). p.0) (finalize_lem e es w c);
        file = ap (λ (p : FileMetadata × Bytes). p.1) (finalize_lem e es w c);
      }

  module _ (id : ℕ) (e : Entry) (es : List Entry) (v : IsStorable (e ∷ es))
      (b : IsTableOf e es) where
    file-IsU32 : IsU32 crc32 (file_with b.segs e es)
    file-IsU32 = subst (IsU32 crc32) b.file v.file_u32

    segs-Fits : All Fits (concat b.segs)
    segs-Fits = subst (All Fits) (sym b.whole) v.fits

    abbrev table_with : Sstable
    table_with = record {
      id = id;
      file = file_with b.segs e es;
      index = index_of crc32 0 b.segs;
      bloom_filter = filter_of (e ∷ es);
      min_key = e.0;
      max_key = last_key e es;
    }

    rest : (rest : Bytes) × (file_with b.segs e es ≡ file_of crc32 b.segs ++ rest)
    rest =
        finished-blocks crc32 bloom_loggable (file_of crc32 b.segs) e.0 (last_key e es)
          (index_of crc32 0 b.segs) (filter_of (e ∷ es))

    holds : Holds crc32 (file_with b.segs e es) 0 b.segs
    holds = record { pre = []; post = rest.0; whole = rest.1; at = refl }

    opens : open_table crc32 bloom_loggable id (file_with b.segs e es) ≡ some (ok table_with)
    opens =
        open_table-finished crc32 bloom_loggable id (file_of crc32 b.segs) e.0 (last_key e es)
          (index_of crc32 0 b.segs) (filter_of (e ∷ es)) (last_key-Fits e [] (v.fits.0, tt))
          (last_key-Fits e es v.fits)
          (index_of-IndexFits crc32 0 b.segs segs-Fits (
            omega (
              arith,
              file-IsU32.length_u32,
              ap length rest.1,
              length-append (file_of crc32 b.segs) rest.0,
            )))
          v.filter_back file-IsU32

    finds :
        (k : Bytes)
        → search crc32 sip_hash table_with k ≡ some (ok (value_of (first_of k (e ∷ es))))
    unfolding search
    finds k = elim (Bool-cases (BloomFilter.check sip_hash k (filter_of (e ∷ es)))) [
      | inr denied ↦
          rw denied
            (ap (λ (o : Option Entry). some (ok (value_of o))) (sym (not_there k (e ∷ es) denied)))
      | inl passed ↦ rw passed (
          look_into_lem crc32 table_with k 0 b.segs holds file-IsU32 b.blocks segs-Fits
            (subst IsSorted (sym b.whole) v.sorted)
          ∙ ap (λ (l : List Entry). some (ok (value_of (first_of k l)))) b.whole)
    ]
      where
        not_there :
            (k : Bytes) (fs : List Entry)
            → BloomFilter.check sip_hash k (filter_of fs) ≡ false
            → first_of k fs ≡ none
        not_there k fs denied = elim (Option-cases (first_of k fs)) [
          | inl nothing ↦ nothing
          | inr (f, found) ↦ absurd (
              cc (
                denied,
                check-insert_all sip_hash (filter_keys fs) k new_filter v.sized
                    (first_of-Memᴰ k fs f found),
              ))
        ]

    iterates : table_entries crc32 table_with (index_of crc32 0 b.segs) ≡ some (ok (e ∷ es))
    iterates =
        table_entries_lem crc32 table_with 0 b.segs holds file-IsU32 b.blocks segs-Fits
        ∙ ap (λ (l : List Entry). some (ok l)) b.whole

  -- The table that opens, for all searches.
  pub table-written :
      (id : ℕ) (e : Entry) (es : List Entry)
      → IsStorable (e ∷ es)
      → (t : Sstable) × (open_table crc32 bloom_loggable id (written (e ∷ es)).1 ≡ some (ok t))
        × ((k : Bytes) → search crc32 sip_hash t k ≡ some (ok (value_of (first_of k (e ∷ es)))))
  table-written id e es v =
      let b = written-IsTableOf e es in
      (
        table_with id e es v b,
        ap (open_table crc32 bloom_loggable id) b.file ∙ opens id e es v b,
        finds id e es v b,
      )

  -- A table on disk answers as the entries it was made of. The entries are in ascending order of keys,
  -- fit their fields and make a file below 4 GiB, the filter has room for its bits and is read back
  -- as it was written, and there is an entry. Then the file that the writer finishes opens, under any
  -- number, and a search for any key gives the value of the key's first entry, which is its newest
  -- version, and nothing where the entries have none: neither the filter, nor the choice of the
  -- block, nor the scan loses or invents one.
  pub search-written :
      (id : ℕ) (e : Entry) (es : List Entry) (k : Bytes)
      → IsStorable (e ∷ es)
      → (t : Sstable) × (open_table crc32 bloom_loggable id (written (e ∷ es)).1 ≡ some (ok t))
        × (search crc32 sip_hash t k ≡ some (ok (value_of (first_of k (e ∷ es)))))
  search-written id e es k v =
      let (t, opened, found) = table-written id e es v in (t, opened, found k)

  -- Iterating over the table, block after block in the order of its index, gives exactly the entries
  -- that were written, in their order. The same conditions hold as for a search.
  pub table_entries-written :
      (id : ℕ) (e : Entry) (es : List Entry)
      → IsStorable (e ∷ es)
      → (t : Sstable) × (open_table crc32 bloom_loggable id (written (e ∷ es)).1 ≡ some (ok t))
        × (table_entries crc32 t t.index ≡ some (ok (e ∷ es)))
  table_entries-written id e es v =
      let b = written-IsTableOf e es in
      (
        table_with id e es v b,
        ap (open_table crc32 bloom_loggable id) b.file ∙ opens id e es v b,
        iterates id e es v b,
      )

  -- The metadata that the writer returns for the manifest agrees with the table that is opened from
  -- the file: its length in bytes, and as the range of keys the first and the last key written. The
  -- same conditions hold as for a search.
  pub open_table-written :
      (id : ℕ) (e : Entry) (es : List Entry)
      → IsStorable (e ∷ es)
      → (t : Sstable) × (open_table crc32 bloom_loggable id (written (e ∷ es)).1 ≡ some (ok t))
        × ((written (e ∷ es)).0 ≡ record {
          file_id = 0;
          file_size = length t.file;
          min_key = t.min_key;
          max_key = t.max_key;
        })
        × (t.min_key ≡ e.0)
        × (t.max_key ≡ last_key e es)
  open_table-written id e es v =
      let b = written-IsTableOf e es in
      let size : length (file_with b.segs e es) % 2 ^ 32 ≡ length (file_with b.segs e es) =
        mod-eq_of_lt (file-IsU32 id e es v b).length_u32 in
      (
        table_with id e es v b,
        ap (open_table crc32 bloom_loggable id) b.file ∙ opens id e es v b,
        b.metadata ∙ rw size,
        refl,
        refl,
      )
