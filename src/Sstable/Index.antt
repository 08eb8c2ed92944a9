-- ===== src/Sstable/Index.antt =====
-- The index block gives its entries back.
use easy_lsm.Base.{
  ℕ, zero, suc, ◌+◌, ◌<◌, ◌≤◌, ◌^◌, List, [], ◌∷◌, ◌++◌, length, concat, length-append, ◌≡◌, refl,
  arith, All, some,
}
use easy_lsm.Error.{ok}
use easy_lsm.Codec.{Bytes, u64, uint, to_le_bytes}
use easy_lsm.Codec.Reads.{Reads, >>=-Reads, >>=-Reads_last}
use easy_lsm.Codec.Ints.{uint-ReadsBack}
use easy_lsm.Key
use easy_lsm.Key.{Key}
use easy_lsm.Key.RoundTrip.{key-ReadsBack}
use easy_lsm.Entry.{Entry, Fits}
use easy_lsm.Sstable.{IndexEntry, decode_index_entry, decode_index, encode_index}
use easy_lsm.Sstable.Block.{encode_block}
use easy_lsm.Sstable.Writer.{wrap}
use easy_lsm.Sstable.Layout.{last_key, file_of, index_of}

pub record IndexFits (e : IndexEntry) : Type 0 where
  pub min_fits : Key.Fits e.min
  pub max_fits : Key.Fits e.max
  pub offset_u64 : e.offset < 2 ^ 64

abbrev encode_index_entry : IndexEntry → Bytes
encode_index_entry e =
    Key.loggable.encode e.min ++ (Key.loggable.encode e.max ++ u64.encode e.offset)

decode_index_entry-Reads :
    (e : IndexEntry) → IndexFits e → Reads decode_index_entry (encode_index_entry e) e
unfolding decode_index_entry
decode_index_entry-Reads e fits =
    >>=-Reads Key.loggable.decode _ (Key.loggable.encode e.min) _ e.min e
      (key-ReadsBack e.min fits.min_fits)
      (>>=-Reads Key.loggable.decode _ (Key.loggable.encode e.max) _ e.max e
        (key-ReadsBack e.max fits.max_fits)
        (>>=-Reads_last u64.decode _ (u64.encode e.offset) e.offset e
          (uint-ReadsBack 8 e.offset (omega (arith, fits.offset_u64))) (λ rest. refl)))

encode_index_entry-pos : (e : IndexEntry) → 0 < length (encode_index_entry e)
unfolding Key.loggable uint to_le_bytes
encode_index_entry-pos e = omega arith

pub length-encode_index : (es : List IndexEntry) → length es ≤ length (encode_index es)
unfolding encode_index
length-encode_index [] = omega arith
length-encode_index (e ∷ es) = omega (
  arith,
  encode_index_entry-pos e,
  length-encode_index es,
  length-append (encode_index_entry e) (encode_index es),
)

decode_step :
    (fuel : ℕ) (cursor rest : Bytes) (e : IndexEntry) (es : List IndexEntry)
    → 0 < length cursor
    → decode_index_entry cursor ≡ ok (e, rest)
    → decode_index fuel rest ≡ some (ok es)
    → decode_index (suc fuel) cursor ≡ some (ok (e ∷ es))
unfolding decode_index
decode_step fuel [] rest e es h p q = absurd (omega arith)
decode_step fuel (b ∷ bs) rest e es h p q = rw (p, decode_index) (rw (q, decode_index))

-- With a round for each entry.
pub decode_index-encode_index :
    (es : List IndexEntry) (fuel : ℕ)
    → All IndexFits es
    → length es < fuel
    → decode_index fuel (encode_index es) ≡ some (ok es)
unfolding decode_index encode_index
decode_index-encode_index es zero h lt = absurd (omega arith)
decode_index-encode_index [] (suc fuel) h lt = refl
decode_index-encode_index (e ∷ es) (suc fuel) (p, h) lt =
    decode_step fuel (encode_index_entry e ++ encode_index es) (encode_index es) e es
      (omega
        (arith, encode_index_entry-pos e, length-append (encode_index_entry e) (encode_index es)))
      (decode_index_entry-Reads e p (encode_index es))
      (decode_index-encode_index es fuel h (omega arith))

pub last_key-Fits : (e : Entry) (es : List Entry) → All Fits (e ∷ es) → Key.Fits (last_key e es)
last_key-Fits e [] ((fits, v), h) = fits
last_key-Fits e (f ∷ fs) (p, h) = last_key-Fits f fs h

pub All-split_left : (es fs : List Entry) → All Fits (es ++ fs) → All Fits es
All-split_left [] fs h = tt
All-split_left (e ∷ es) fs (p, h) = (p, All-split_left es fs h)

pub All-split_right : (es fs : List Entry) → All Fits (es ++ fs) → All Fits fs
All-split_right [] fs h = h
All-split_right (e ∷ es) fs (p, h) = All-split_right es fs h

pub index_of-IndexFits :
    (crc32 : Bytes → ℕ) (offset : ℕ) (segs : List (List Entry))
    → All Fits (concat segs)
    → offset + length (file_of crc32 segs) < 2 ^ 64
    → All IndexFits (index_of crc32 offset segs)
index_of-IndexFits crc32 offset [] h small = tt
index_of-IndexFits crc32 offset ([] ∷ segs) h small =
    index_of-IndexFits crc32 offset segs h
      (omega (arith, length-append (wrap crc32 []) (file_of crc32 segs)))
index_of-IndexFits crc32 offset ((e ∷ es) ∷ segs) h small =
    let block = wrap crc32 (encode_block (e ∷ es)) in
    let here = All-split_left (e ∷ es) (concat segs) h in
    (
      record {
        min_fits = last_key-Fits e [] (here.0, tt);
        max_fits = last_key-Fits e es here;
        offset_u64 = omega arith;
      },
      index_of-IndexFits crc32 (offset + length block) segs
          (All-split_right (e ∷ es) (concat segs) h)
          (omega (arith, length-append block (file_of crc32 segs))),
    )
