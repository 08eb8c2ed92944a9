-- ===== src/Sstable/Reading.antt =====
-- Reading a file that holds the blocks of a table, through the index of these blocks.
use easy_lsm.Base.{
  ℕ, suc, ◌+◌, ◌<◌, ◌^◌, List, [], ◌∷◌, ◌++◌, length, concat, length-append, ◌≡◌, refl, sym, ap,
  ◌∙◌, arith, All, Option, none, some, append_assoc, Bool-cases, inl, inr, Ordering,
}
use easy_lsm.Error.{Result, ok}
use easy_lsm.Codec.{Bytes}
use easy_lsm.Key.{cmp, cmp_bytes, key_lt}
use easy_lsm.Value.{Value}
use easy_lsm.Entry.{Entry, Fits, IsSorted, first_of}
use easy_lsm.Entry.Newest.{eq_bytes_lem, Ordering-cases}
use easy_lsm.Sstable.{Sstable, IndexEntry, find_block, block_entries}
use easy_lsm.Wal.{encode_pair}
use easy_lsm.Sstable.Build.{not_empty}
use easy_lsm.Sstable.Block.{
  encode_pair-pos, encode_block, value_of, first_of_above, length-encode_block,
  scan_block-encode_block, block_entries-encode_block,
}
use easy_lsm.Sstable.Writer.{wrap}
use easy_lsm.Sstable.Table.{read_block_with_crc_at, search_block, table_entries}
use easy_lsm.Sstable.Frame.{length-wrap, read_block_lem}
use easy_lsm.Sstable.Layout.{last_key, IsBlock, file_of, index_of}
use easy_lsm.Sstable.Index.{All-split_left, All-split_right}
use easy_lsm.Sstable.Lookup.{target_of, key_lt-lt, skip_block, stay_in_block}

IsSorted-left : (es more : List Entry) → IsSorted (es ++ more) → IsSorted es
IsSorted-left [] more s = tt
IsSorted-left (e ∷ es) more (below, s) = (left es below, IsSorted-left es more s)
  where
    left :
        (fs : List Entry)
        → All (λ (f : Entry). cmp e.0 f.0 ≡ Ordering.lt) (fs ++ more)
        → All (λ (f : Entry). cmp e.0 f.0 ≡ Ordering.lt) fs
    left [] h = tt
    left (f ∷ fs) (p, h) = (p, left fs h)

IsSorted-right : (es more : List Entry) → IsSorted (es ++ more) → IsSorted more
IsSorted-right [] more s = s
IsSorted-right (e ∷ es) more (below, s) = IsSorted-right es more s

module _ (crc32 : Bytes → ℕ) where
  -- `segs` stand in the file from `offset` on.
  pub record Holds (file : Bytes) (offset : ℕ) (segs : List (List Entry)) : Type 0 where
    pub pre : Bytes
    pub post : Bytes
    pub whole : file ≡ pre ++ (file_of crc32 segs ++ post)
    pub at : offset ≡ length pre

  -- Lengths and checksums are written in 32 bits.
  pub record IsU32 (file : Bytes) : Type 0 where
    pub crc_u32 : (bs : Bytes) → crc32 bs < 2 ^ 32
    pub length_u32 : length file < 2 ^ 32

  Holds-tail :
      (file : Bytes) (offset : ℕ) (s : List Entry) (segs : List (List Entry))
      → Holds file offset (s ∷ segs)
      → Holds file (offset + length (wrap crc32 (encode_block s))) segs
  Holds-tail file offset s segs h = record {
    pre = h.pre ++ wrap crc32 (encode_block s);
    post = h.post;
    whole = h.whole ∙ simp append_assoc;
    at = omega (arith, h.at, length-append h.pre (wrap crc32 (encode_block s)));
  }

  read_first :
      (file : Bytes) (offset : ℕ) (s : List Entry) (segs : List (List Entry))
      → Holds file offset (s ∷ segs)
      → IsU32 file
      → read_block_with_crc_at crc32 file offset ≡ ok (encode_block s)
  read_first file offset s segs h u =
      let block = wrap crc32 (encode_block s) in
      read_block_lem crc32 h.pre (encode_block s) (file_of crc32 segs ++ h.post) file offset
        (h.whole ∙ simp append_assoc) h.at
        (omega (
          arith,
          u.length_u32,
          ap length h.whole,
          length-append h.pre ((block ++ file_of crc32 segs) ++ h.post),
          length-append (block ++ file_of crc32 segs) h.post,
          length-append block (file_of crc32 segs),
          length-wrap crc32 (encode_block s),
        ))
        (u.crc_u32 (encode_block s))

  table_entries_step :
      (t : Sstable) (i : IndexEntry) (is : List IndexEntry) (block : Bytes)
      (here later : List Entry)
      → read_block_with_crc_at crc32 t.file i.offset ≡ ok block
      → 0 < length block
      → block_entries (suc (length block)) block ≡ some (ok here)
      → table_entries crc32 t is ≡ some (ok later)
      → table_entries crc32 t (i ∷ is) ≡ some (ok (here ++ later))
  unfolding table_entries
  table_entries_step t i is block here later p pos q r =
      rw (p, table_entries)
        (rw (q, table_entries) (rw (r, table_entries) (rw (not_empty block pos))))

  pub table_entries_lem :
      (t : Sstable) (offset : ℕ) (segs : List (List Entry))
      → Holds t.file offset segs
      → IsU32 t.file
      → All IsBlock segs
      → All Fits (concat segs)
      → table_entries crc32 t (index_of crc32 offset segs) ≡ some (ok (concat segs))
  table_entries_lem t offset [] h u blocks fits = unfold table_entries in refl
  table_entries_lem t offset ([] ∷ segs) h u (b, blocks) fits = absurd b
  table_entries_lem t offset ((e ∷ es) ∷ segs) h u (b, blocks) fits =
      let block = encode_block (e ∷ es) in
      let i : IndexEntry = record { min = e.0; max = last_key e es; offset = offset } in
      table_entries_step t i (index_of crc32 (offset + length (wrap crc32 block)) segs) block
        (e ∷ es) (concat segs) (read_first t.file offset (e ∷ es) segs h u)
        (omega (arith, encode_pair-pos e, length-append (encode_pair e) (encode_block es)))
        (block_entries-encode_block (e ∷ es) (suc (length block))
          (All-split_left (e ∷ es) (concat segs) fits)
          (omega (arith, length-encode_block (e ∷ es))))
        (table_entries_lem t (offset + length (wrap crc32 block)) segs
          (Holds-tail t.file offset (e ∷ es) segs h) u blocks
          (All-split_right (e ∷ es) (concat segs) fits))

  -- What `search` does with the block that the index names.
  abbrev pub look_into : Sstable → Bytes → Option IndexEntry → Option (Result (Option Value))
  look_into t k o = elim o [
    | none ↦ some (ok none)
    | some e ↦ elim (cmp_bytes e.min.bytes k) [
      | Ordering.gt ↦ some (ok none)
      | _ ↦ search_block crc32 t k e.offset
    ]
  ]

  search_block_lem :
      (t : Sstable) (k : Bytes) (offset : ℕ) (es : List Entry) (segs : List (List Entry))
      → Holds t.file offset (es ∷ segs)
      → IsU32 t.file
      → All Fits es
      → IsSorted es
      → search_block crc32 t k offset ≡ some (ok (value_of (first_of k es)))
  unfolding search_block
  search_block_lem t k offset es segs h u fits s =
      rw (read_first t.file offset es segs h u, search_block)
        (scan_block-encode_block k es (suc (length (encode_block es))) fits s
          (omega (arith, length-encode_block es)))

  look_into_first :
      (t : Sstable) (k : Bytes) (offset : ℕ) (e : Entry) (es : List Entry)
      (segs : List (List Entry))
      → Holds t.file offset ((e ∷ es) ∷ segs)
      → IsU32 t.file
      → All Fits (e ∷ es)
      → IsSorted (e ∷ es)
      → look_into t k (some (record { min = e.0; max = last_key e es; offset = offset }))
        ≡ some (ok (value_of (first_of k (e ∷ es))))
  look_into_first t k offset e es segs h u fits s =
      let found = search_block_lem t k offset (e ∷ es) segs h u fits s in
      elim (Ordering-cases (cmp_bytes e.0.bytes k)) [
        | inl lt ↦ rw (lt, look_into) found
        | inr (inl eq) ↦ rw (eq, look_into) found
        | inr (inr gt) ↦
            rw (gt, look_into)
              (rw (eq_bytes_lem e.0.bytes k, gt) (rw (first_of_above e.0 k es gt s.0)))
      ]

  pub look_into_lem :
      (t : Sstable) (k : Bytes) (offset : ℕ) (segs : List (List Entry))
      → Holds t.file offset segs
      → IsU32 t.file
      → All IsBlock segs
      → All Fits (concat segs)
      → IsSorted (concat segs)
      → look_into t k (find_block (target_of k) (index_of crc32 offset segs))
        ≡ some (ok (value_of (first_of k (concat segs))))
  unfolding find_block
  look_into_lem t k offset [] h u blocks fits s = refl
  look_into_lem t k offset ([] ∷ segs) h u (b, blocks) fits s = absurd b
  look_into_lem t k offset ((e ∷ es) ∷ segs) h u (b, blocks) fits s =
      elim (Bool-cases (key_lt (last_key e es) (target_of k))) [
        | inl before ↦
            rw (before, find_block)
              (look_into_lem t k (offset + length (wrap crc32 (encode_block (e ∷ es)))) segs
                  (Holds-tail t.file offset (e ∷ es) segs h) u blocks
                  (All-split_right (e ∷ es) (concat segs) fits)
                  (IsSorted-right (e ∷ es) (concat segs) s)
                ∙ ap (λ (o : Option Entry). some (ok (value_of o)))
                    (sym (
                      skip_block k e es (concat segs) fits s
                        (key_lt-lt (last_key e es) (target_of k) before))))
        | inr here ↦
            rw (here, find_block)
              (look_into_first t k offset e es segs h u (All-split_left (e ∷ es) (concat segs) fits)
                  (IsSorted-left (e ∷ es) (concat segs) s)
                ∙ ap (λ (o : Option Entry). some (ok (value_of o)))
                    (sym (stay_in_block k e es (concat segs) s here)))
      ]
