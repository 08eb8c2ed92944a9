-- ===== src/Compact/Output/Files.antt =====
-- The files that an output is written to, and what each of them holds.
use easy_lsm.Base.{
  ℕ, ◌+◌, List, [], ◌∷◌, ◌++◌, length, concat, append_assoc, append-nil, length-append, ◌≡◌, refl,
  sym, ap, ◌∙◌, arith, All, All-append, true, Bool-cases, inl, inr, Option, none, some,
}
use easy_lsm.Codec.{Bytes, Loggable}
use easy_lsm.Entry.{Entry}
use easy_lsm.BloomFilter.{BloomFilter}
use easy_lsm.Directory
use easy_lsm.Directory.{Directory, sst, read-put, read-put_newer}
use easy_lsm.Manifest.{FileMetadata}
use easy_lsm.Sstable.{SstableWriter}
use easy_lsm.Sstable.Writer
use easy_lsm.Sstable.Layout.{IsBlock}
use easy_lsm.Sstable.Build.{write_all, one_more}
use easy_lsm.Sstable.Whole.{written}
use easy_lsm.Compact.Output.{
  Outputs, AreQuiet, should_rotate, finish_file, begin_file, write_entry, output_entry,
}
use easy_lsm.Compact.Output.Stored.{metas_of, Stored, metas_of-append, Stored-put, Stored-append}

module _ (crc32 : Bytes → ℕ) (sip_hash : ℕ × ℕ → Bytes → ℕ) (bloom_loggable : Loggable BloomFilter)
    (new_filter : BloomFilter) where
  write_all-append :
      (es : List Entry) (e : Entry) (w : SstableWriter)
      → write_all crc32 sip_hash new_filter (es ++ (e ∷ [])) w
        ≡ Writer.write crc32 sip_hash e.0 e.1 (write_all crc32 sip_hash new_filter es w)
  write_all-append [] e w = refl
  write_all-append (f ∷ es) e w = write_all-append es e (Writer.write crc32 sip_hash f.0 f.1 w)

  abbrev writer_for : List Entry → ℕ → Option (SstableWriter × ℕ)
  writer_for [] id = none
  writer_for (e ∷ es) id =
      some (write_all crc32 sip_hash new_filter (e ∷ es) (Writer.new new_filter), id)

  abbrev opened : List Entry → ℕ
  opened [] = 0
  opened (e ∷ es) = 1

  -- What was output of `es`, when the first file has number `start`: the chunks of the finished
  -- files, and the one that is being written.
  pub record IsOutputOf (start : ℕ) (es : List Entry) (o : Outputs) : Type 0 where
    pub chunks : List (List Entry)
    pub cur : List Entry
    pub nonempty : All IsBlock chunks
    pub whole : concat chunks ++ cur ≡ es
    pub metas : o.new_files ≡ metas_of crc32 sip_hash bloom_loggable new_filter start chunks
    pub next : o.next_sstable_id ≡ start + length chunks + opened cur
    pub writer : o.current_writer ≡ writer_for cur (start + length chunks)
    pub stored : Stored crc32 sip_hash bloom_loggable new_filter start chunks o.directory

  -- The same with no file begun.
  pub record IsFinishedOf (start : ℕ) (es : List Entry) (o : Outputs) : Type 0 where
    pub chunks : List (List Entry)
    pub nonempty : All IsBlock chunks
    pub whole : concat chunks ≡ es
    pub metas : o.new_files ≡ metas_of crc32 sip_hash bloom_loggable new_filter start chunks
    pub next : o.next_sstable_id ≡ start + length chunks
    pub writer : o.current_writer ≡ none
    pub stored : Stored crc32 sip_hash bloom_loggable new_filter start chunks o.directory

  module _ (rivals : ℕ → ℕ → ℕ) (quiet : AreQuiet rivals) (target_file_size : ℕ) where
    finish_file_none :
        (start : ℕ) (es : List Entry) (o : Outputs)
        → (v : IsOutputOf start es o) → v.cur ≡ []
        → IsFinishedOf start es
            (finish_file crc32 sip_hash bloom_loggable new_filter rivals target_file_size o)
    unfolding finish_file
    finish_file_none start es o v e =
        let idle : o.current_writer ≡ none =
          v.writer ∙ ap (λ (c : List Entry). writer_for c (start + length v.chunks)) e in
        rw idle (record {
          chunks = v.chunks;
          nonempty = v.nonempty;
          whole =
              sym (append-nil (concat v.chunks))
              ∙ ap (λ (c : List Entry). concat v.chunks ++ c) (sym e)
              ∙ v.whole;
          metas = v.metas;
          next = omega (arith, v.next, ap opened e);
          writer = refl;
          stored = v.stored;
        })

    finish_file_some :
        (start : ℕ) (es : List Entry) (o : Outputs) (f : Entry) (fs : List Entry)
        → (v : IsOutputOf start es o) → v.cur ≡ f ∷ fs
        → IsFinishedOf start es
            (finish_file crc32 sip_hash bloom_loggable new_filter rivals target_file_size o)
    unfolding finish_file
    finish_file_some start es o f fs v e =
        let id = start + length v.chunks in
        let busy : o.current_writer ≡ writer_for (f ∷ fs) id =
          v.writer ∙ ap (λ (c : List Entry). writer_for c id) e in
        let file = (written crc32 sip_hash bloom_loggable new_filter (f ∷ fs)).1 in
        rw busy (record {
          chunks = v.chunks ++ ((f ∷ fs) ∷ []);
          nonempty = All-append IsBlock v.chunks ((f ∷ fs) ∷ []) v.nonempty (tt, tt);
          whole =
              sym (append-nil (concat (v.chunks ++ ((f ∷ fs) ∷ []))))
              ∙ one_more v.chunks (f ∷ fs)
              ∙ ap (λ (c : List Entry). concat v.chunks ++ c) (sym e)
              ∙ v.whole;
          metas =
              ap
                (λ (l : List FileMetadata).
                  l
                  ++ (record (written crc32 sip_hash bloom_loggable new_filter (f ∷ fs)).0 {
                    file_id = id;
                  }
                      ∷ []))
                v.metas
              ∙ sym (
                  metas_of-append crc32 sip_hash bloom_loggable new_filter start v.chunks (f ∷ fs));
          next = omega (arith, v.next, ap opened e, length-append v.chunks ((f ∷ fs) ∷ []));
          writer = refl;
          stored =
              Stored-append crc32 sip_hash bloom_loggable new_filter start v.chunks (f ∷ fs)
                (Directory.put (sst id) file o.directory)
                (Stored-put crc32 sip_hash bloom_loggable new_filter start id v.chunks file
                  o.directory (omega arith) v.stored)
                (read-put (sst id) file o.directory);
        })

    pub finish_file-IsFinishedOf :
        (start : ℕ) (es : List Entry) (o : Outputs)
        → IsOutputOf start es o
        → IsFinishedOf start es
            (finish_file crc32 sip_hash bloom_loggable new_filter rivals target_file_size o)
    finish_file-IsFinishedOf start es o v = by_cur v.cur refl
      where
        by_cur :
            (cur : List Entry)
            → v.cur ≡ cur
            → IsFinishedOf start es
                (finish_file crc32 sip_hash bloom_loggable new_filter rivals target_file_size o)
        by_cur [] e = finish_file_none start es o v e
        by_cur (f ∷ fs) e = finish_file_some start es o f fs v e

    begin_file-IsOutputOf :
        (start : ℕ) (es : List Entry) (e : Entry) (o : Outputs)
        → IsFinishedOf start es o
        → IsOutputOf start (es ++ (e ∷ [])) (
            write_entry crc32 sip_hash bloom_loggable new_filter rivals target_file_size e
              (begin_file crc32 sip_hash bloom_loggable new_filter rivals target_file_size o))
    unfolding begin_file write_entry
    begin_file-IsOutputOf start es e o v =
        rw (quiet (length o.new_files) o.next_sstable_id) (record {
          chunks = v.chunks;
          cur = e ∷ [];
          nonempty = v.nonempty;
          whole = ap (λ (l : List Entry). l ++ (e ∷ [])) v.whole;
          metas = v.metas;
          next = omega (arith, v.next);
          writer = rw v.next;
          stored =
              Stored-put crc32 sip_hash bloom_loggable new_filter start o.next_sstable_id v.chunks
                [] o.directory (omega (arith, v.next)) v.stored;
        })

    write_entry-IsOutputOf :
        (start : ℕ) (es : List Entry) (e : Entry) (o : Outputs) (f : Entry) (fs : List Entry)
        → (v : IsOutputOf start es o) → v.cur ≡ f ∷ fs
        → IsOutputOf start
            (es ++ (e ∷ []))
            (write_entry crc32 sip_hash bloom_loggable new_filter rivals target_file_size e o)
    unfolding write_entry
    write_entry-IsOutputOf start es e o f fs v q =
        let id = start + length v.chunks in
        let busy : o.current_writer ≡ writer_for (f ∷ fs) id =
          v.writer ∙ ap (λ (c : List Entry). writer_for c id) q in
        rw busy (record {
          chunks = v.chunks;
          cur = f ∷ (fs ++ (e ∷ []));
          nonempty = v.nonempty;
          whole =
              sym (append_assoc (concat v.chunks) (f ∷ fs) (e ∷ []))
              ∙ ap (λ (c : List Entry). (concat v.chunks ++ c) ++ (e ∷ [])) (sym q)
              ∙ ap (λ (l : List Entry). l ++ (e ∷ [])) v.whole;
          metas = v.metas;
          next = omega (arith, v.next, ap opened q);
          writer =
              ap (λ (w : SstableWriter). some (w, id))
                (sym (write_all-append (f ∷ fs) e (Writer.new new_filter)));
          stored = v.stored;
        })

    should_rotate_idle :
        (o : Outputs)
        → o.current_writer ≡ none
        → should_rotate crc32 sip_hash bloom_loggable new_filter rivals target_file_size o ≡ true
    unfolding should_rotate
    should_rotate_idle o h = rw h

    pub output_entry-IsOutputOf :
        (start : ℕ) (es : List Entry) (e : Entry) (o : Outputs)
        → IsOutputOf start es o
        → IsOutputOf start
            (es ++ (e ∷ []))
            (output_entry crc32 sip_hash bloom_loggable new_filter rivals target_file_size e o)
    unfolding output_entry
    output_entry-IsOutputOf start es e o v = by_cur v.cur refl
      where
        begun : IsOutputOf start (es ++ (e ∷ [])) (
            write_entry crc32 sip_hash bloom_loggable new_filter rivals target_file_size e (
              begin_file crc32 sip_hash bloom_loggable new_filter rivals target_file_size
                (finish_file crc32 sip_hash bloom_loggable new_filter rivals target_file_size o)))
        begun =
            begin_file-IsOutputOf start es e
              (finish_file crc32 sip_hash bloom_loggable new_filter rivals target_file_size o)
              (finish_file-IsFinishedOf start es o v)

        by_cur :
            (cur : List Entry)
            → v.cur ≡ cur
            → IsOutputOf start
                (es ++ (e ∷ []))
                (output_entry crc32 sip_hash bloom_loggable new_filter rivals target_file_size e o)
        by_cur [] q =
            rw
              (should_rotate_idle o
                (v.writer ∙ ap (λ (c : List Entry). writer_for c (start + length v.chunks)) q))
              begun
        by_cur (f ∷ fs) q =
            elim (Bool-cases
              (should_rotate crc32 sip_hash bloom_loggable new_filter rivals target_file_size o)) [
                | inl full ↦ rw full begun
                | inr room ↦ rw room (write_entry-IsOutputOf start es e o f fs v q)
              ]
