-- ===== src/Sstable/Layout.antt =====
-- What the blocks and the index of a table are, for the runs of entries that its blocks hold.
use easy_lsm.Base.{
  ℕ, ◌+◌, List, [], ◌∷◌, ◌++◌, length, concat, append_assoc, length-append, ◌≡◌, refl, sym, ap, ◌∙◌,
  arith, All, Option, none, some,
}
use easy_lsm.Codec.{Bytes}
use easy_lsm.Key.{Key}
use easy_lsm.Entry.{Entry}
use easy_lsm.Sstable.{IndexEntry}
use easy_lsm.Sstable.Block.{encode_block}
use easy_lsm.Sstable.Writer.{wrap}

abbrev pub last_key : Entry → List Entry → Key
last_key e [] = e.0
last_key e (f ∷ fs) = last_key f fs

abbrev pub min_of : List Entry → Option Key
min_of [] = none
min_of (e ∷ es) = some e.0

abbrev pub max_of : List Entry → Option Key
max_of [] = none
max_of (e ∷ es) = some (last_key e es)

abbrev pub IsBlock : List Entry → Type 0
IsBlock [] = ⊥
IsBlock (e ∷ es) = Unit {0}

module _ (crc32 : Bytes → ℕ) where
  abbrev pub file_of : List (List Entry) → Bytes
  file_of [] = []
  file_of (s ∷ segs) = wrap crc32 (encode_block s) ++ file_of segs

  abbrev pub index_of : ℕ → List (List Entry) → List IndexEntry
  index_of offset [] = []
  index_of offset ([] ∷ segs) = index_of offset segs
  index_of offset ((e ∷ es) ∷ segs) =
      record { min = e.0; max = last_key e es; offset = offset }
      ∷ index_of (offset + length (wrap crc32 (encode_block (e ∷ es)))) segs

  pub file_of-append :
      (segs more : List (List Entry)) → file_of (segs ++ more) ≡ file_of segs ++ file_of more
  file_of-append [] more = refl
  file_of-append (s ∷ segs) more =
      rw (file_of-append segs more)
        (sym (append_assoc (wrap crc32 (encode_block s)) (file_of segs) (file_of more)))

  pub index_of-append :
      (offset : ℕ) (segs more : List (List Entry))
      → All IsBlock segs
      → index_of offset (segs ++ more)
        ≡ index_of offset segs ++ index_of (offset + length (file_of segs)) more
  index_of-append offset [] more h = rw (let e : offset + 0 ≡ offset = omega arith in e)
  index_of-append offset ([] ∷ segs) more (h, hs) = absurd h
  index_of-append offset ((e ∷ es) ∷ segs) more (h, hs) =
      let block = wrap crc32 (encode_block (e ∷ es)) in
      let sum : offset + length block + length (file_of segs)
          ≡ offset + length (block ++ file_of segs) =
        omega (arith, length-append block (file_of segs)) in
      ap (λ (l : List IndexEntry). record { min = e.0; max = last_key e es; offset = offset } ∷ l)
        (index_of-append (offset + length block) segs more hs
          ∙ ap (λ (n : ℕ). index_of (offset + length block) segs ++ index_of n more) sum)

pub concat-append :
    (segs more : List (List Entry)) → concat (segs ++ more) ≡ concat segs ++ concat more
concat-append [] more = refl
concat-append (s ∷ segs) more =
    rw (concat-append segs more) (sym (append_assoc s (concat segs) (concat more)))
