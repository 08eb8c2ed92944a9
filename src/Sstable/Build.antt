-- ===== src/Sstable/Build.antt =====
-- The writer: what it has after any number of entries, and the file that it ends with.
use easy_lsm.Base.{
  ℕ, ◌+◌, ◌<◌, List, [], ◌∷◌, ◌++◌, length, concat, append_assoc, append-nil, length-append, ◌≡◌,
  refl, sym, ap, ◌∙◌, subst, arith, All, All-append, some, false, Bool-cases, inl, inr,
  if◌then◌else◌, ◌==◌,
}
use easy_lsm.Codec.{Bytes}
use easy_lsm.Entry.{Entry}
use easy_lsm.Wal.{encode_pair}
use easy_lsm.BloomFilter
use easy_lsm.BloomFilter.{BloomFilter}
use easy_lsm.BloomFilter.Members.{insert_all}
use easy_lsm.Sstable.{SstableWriter, new_block, add, is_full, is_empty, or_first}
use easy_lsm.Sstable.Block.{encode_block, encode_pair-pos}
use easy_lsm.Sstable.Writer.{wrap, flush, flush_block, push_index, write, new}
use easy_lsm.Sstable.Frame.{length-wrap}
use easy_lsm.Sstable.Layout.{
  last_key, min_of, max_of, IsBlock, file_of, index_of, file_of-append, index_of-append,
  concat-append,
}

pub not_empty : (bs : Bytes) → 0 < length bs → (length bs == 0) ≡ false
not_empty [] h = absurd (omega arith)
not_empty (b ∷ bs) h = grind arith

from_zero : (n : ℕ) → 0 + n ≡ n
from_zero n = omega arith

pub append-IsBlock : (es : List Entry) (e : Entry) → IsBlock (es ++ (e ∷ []))
append-IsBlock [] e = tt
append-IsBlock (f ∷ fs) e = tt

pub one_more :
    (segs : List (List Entry)) (cur : List Entry)
    → concat (segs ++ (cur ∷ [])) ++ [] ≡ concat segs ++ cur
one_more segs cur =
    rw (append-nil (concat (segs ++ (cur ∷ []))), concat-append segs (cur ∷ []))
      (rw (append-nil cur))

or_first-min_of : (es : List Entry) (e : Entry) → or_first (min_of es) e.0 ≡ min_of (es ++ (e ∷ []))
or_first-min_of [] e = refl
or_first-min_of (f ∷ fs) e = refl

last_key-append : (f : Entry) (fs : List Entry) (e : Entry) → last_key f (fs ++ (e ∷ [])) ≡ e.0
last_key-append f [] e = refl
last_key-append f (g ∷ fs) e = last_key-append g fs e

max_of-append : (es : List Entry) (e : Entry) → max_of (es ++ (e ∷ [])) ≡ some e.0
max_of-append [] e = refl
max_of-append (f ∷ fs) e = ap some (last_key-append f fs e)

encode_block-append :
    (es : List Entry) (e : Entry) → encode_block (es ++ (e ∷ [])) ≡ encode_block es ++ encode_pair e
encode_block-append [] e = append-nil (encode_pair e)
encode_block-append (f ∷ fs) e =
    rw (encode_block-append fs e)
      (sym (append_assoc (encode_pair f) (encode_block fs) (encode_pair e)))

abbrev pub filter_keys : List Entry → List Bytes
filter_keys [] = []
filter_keys (e ∷ es) = e.0.bytes ∷ filter_keys es

insert_all-append :
    (sip_hash : ℕ × ℕ → Bytes → ℕ) (es : List Entry) (e : Entry) (f : BloomFilter)
    → insert_all sip_hash (filter_keys (es ++ (e ∷ []))) f
      ≡ BloomFilter.insert sip_hash e.0.bytes (insert_all sip_hash (filter_keys es) f)
insert_all-append sip_hash [] e f = refl
insert_all-append sip_hash (g ∷ es) e f =
    insert_all-append sip_hash es e (BloomFilter.insert sip_hash g.0.bytes f)

module _ (crc32 : Bytes → ℕ) (sip_hash : ℕ × ℕ → Bytes → ℕ) (new_filter : BloomFilter) where
  -- The writer whose full blocks hold `segs`, whose current block holds `cur`, and which was given
  -- `es` in all.
  abbrev pub writer_of : List (List Entry) → List Entry → List Entry → SstableWriter
  writer_of segs cur es = record {
    file = file_of crc32 segs;
    current_block = record {
      buffer = encode_block cur;
      min_key = min_of cur;
      max_key = max_of cur;
    };
    index_entries = index_of crc32 0 segs;
    bloom_filter = insert_all sip_hash (filter_keys es) new_filter;
    min_key = min_of es;
    max_key = max_of es;
  }

  flush_block_empty :
      (segs : List (List Entry)) (es : List Entry)
      → flush_block crc32 (writer_of segs [] es) ≡ writer_of segs [] es
  unfolding flush_block
  flush_block_empty segs es = refl

  flush_block_lem :
      (segs : List (List Entry)) (e : Entry) (cur es : List Entry)
      → All IsBlock segs
      → flush_block crc32 (writer_of segs (e ∷ cur) es) ≡ writer_of (segs ++ ((e ∷ cur) ∷ [])) [] es
  unfolding flush_block flush push_index
  flush_block_lem segs e cur es blocks =
      let buffer = encode_block (e ∷ cur) in
      rw
        (not_empty buffer
          (omega (arith, encode_pair-pos e, length-append (encode_pair e) (encode_block cur))))
        (rw (not_empty (wrap crc32 buffer) (omega (arith, length-wrap crc32 buffer))) (
          rw (file_of-append crc32 segs ((e ∷ cur) ∷ [])) (
            rw (index_of-append crc32 0 segs ((e ∷ cur) ∷ []) blocks)
              (rw (append-nil (wrap crc32 buffer), from_zero (length (file_of crc32 segs)))))))

  flush_block_any :
      (segs : List (List Entry)) (cur es : List Entry)
      → IsBlock cur
      → All IsBlock segs
      → flush_block crc32 (writer_of segs cur es) ≡ writer_of (segs ++ (cur ∷ [])) [] es
  flush_block_any segs [] es h blocks = absurd h
  flush_block_any segs (e ∷ cur) es h blocks = flush_block_lem segs e cur es blocks

  -- A writer that was given `es`: full blocks, then the block that is being filled.
  pub record IsWriterOf (es : List Entry) (w : SstableWriter) : Type 0 where
    pub segs : List (List Entry)
    pub cur : List Entry
    pub blocks : All IsBlock segs
    pub whole : concat segs ++ cur ≡ es
    pub state : w ≡ writer_of segs cur es

  write_lem :
      (segs : List (List Entry)) (cur es : List Entry) (e : Entry)
      → write crc32 sip_hash e.0 e.1 (writer_of segs cur es) ≡ (
          if is_full (writer_of segs (cur ++ (e ∷ [])) (es ++ (e ∷ []))).current_block
          then flush_block crc32 (writer_of segs (cur ++ (e ∷ [])) (es ++ (e ∷ [])))
          else writer_of segs (cur ++ (e ∷ [])) (es ++ (e ∷ [])))
  unfolding write add encode_pair
  write_lem segs cur es e =
      rw (or_first-min_of es e, or_first-min_of cur e)
        (rw (
          max_of-append es e,
          max_of-append cur e,
          encode_block-append cur e,
          insert_all-append sip_hash es e new_filter,
        ))

  write-IsWriterOf :
      (es : List Entry) (e : Entry) (w : SstableWriter)
      → IsWriterOf es w
      → IsWriterOf (es ++ (e ∷ [])) (write crc32 sip_hash e.0 e.1 w)
  write-IsWriterOf es e w v =
      let cur' = v.cur ++ (e ∷ []) in
      let es' = es ++ (e ∷ []) in
      let full = writer_of v.segs cur' es' in
      let covers : concat v.segs ++ cur' ≡ es' =
        sym (append_assoc (concat v.segs) v.cur (e ∷ []))
        ∙ ap (λ (l : List Entry). l ++ (e ∷ [])) v.whole in
      rw (v.state, write_lem v.segs v.cur es e)
        (elim (Bool-cases (is_full full.current_block)) [
          | inr room ↦ rw room (record {
            segs = v.segs;
            cur = cur';
            blocks = v.blocks;
            whole = covers;
            state = refl;
          })
          | inl no_room ↦ rw no_room (record {
            segs = v.segs ++ (cur' ∷ []);
            cur = [];
            blocks = All-append IsBlock v.segs (cur' ∷ []) v.blocks (append-IsBlock v.cur e, tt);
            whole = one_more v.segs cur' ∙ covers;
            state = flush_block_any v.segs cur' es' (append-IsBlock v.cur e) v.blocks;
          })
        ])

  -- What `finalize` starts with: the last block is closed where it holds something.
  pub record IsClosed (es : List Entry) (w : SstableWriter) : Type 0 where
    pub segs : List (List Entry)
    pub blocks : All IsBlock segs
    pub whole : concat segs ≡ es
    pub state : w ≡ writer_of segs [] es

  pub close-IsClosed :
      (es : List Entry) (w : SstableWriter)
      → IsWriterOf es w
      → IsClosed es (if is_empty w.current_block then w else flush_block crc32 w)
  unfolding is_empty
  close-IsClosed es w v = rw v.state (close v.cur v.whole)
    where
      close :
          (cur : List Entry)
          → concat v.segs ++ cur ≡ es
          → IsClosed es (
              if length (encode_block cur) == 0
              then writer_of v.segs cur es
              else flush_block crc32 (writer_of v.segs cur es))
      close [] whole = record {
        segs = v.segs;
        blocks = v.blocks;
        whole = sym (append-nil (concat v.segs)) ∙ whole;
        state = refl;
      }
      close (e ∷ cur) whole =
          rw
            (not_empty (encode_block (e ∷ cur))
              (omega (arith, encode_pair-pos e, length-append (encode_pair e) (encode_block cur))))
            (record {
              segs = v.segs ++ ((e ∷ cur) ∷ []);
              blocks = All-append IsBlock v.segs ((e ∷ cur) ∷ []) v.blocks (tt, tt);
              whole =
                  sym (append-nil (concat (v.segs ++ ((e ∷ cur) ∷ []))))
                  ∙ one_more v.segs (e ∷ cur)
                  ∙ whole;
              state = flush_block_lem v.segs e cur es v.blocks;
            })

  -- The writer after `write` of each entry.
  abbrev pub write_all : List Entry → SstableWriter → SstableWriter
  write_all [] w = w
  write_all (e ∷ es) w = write_all es (write crc32 sip_hash e.0 e.1 w)

  pub write_all-IsWriterOf :
      (before es : List Entry) (w : SstableWriter)
      → IsWriterOf before w
      → IsWriterOf (before ++ es) (write_all es w)
  write_all-IsWriterOf before [] w v = rw (append-nil before) v
  write_all-IsWriterOf before (e ∷ es) w v =
      subst (λ (l : List Entry). IsWriterOf l (write_all es (write crc32 sip_hash e.0 e.1 w)))
        (append_assoc before (e ∷ []) es)
        (write_all-IsWriterOf (before ++ (e ∷ [])) es (write crc32 sip_hash e.0 e.1 w)
          (write-IsWriterOf before e w v))

  pub new-IsWriterOf : IsWriterOf [] (new new_filter)
  unfolding new new_block
  new-IsWriterOf = record { segs = []; cur = []; blocks = tt; whole = refl; state = refl }
