-- ===== src/Sstable/Block.antt =====
-- A data block gives its entries back, and the scan of a block answers as a lookup in the sorted
-- run that was put into it.
use easy_lsm.Base.{
  ℕ, zero, suc, ◌+◌, ◌<◌, ◌≤◌, ◌≡◌, refl, sym, append-nil, append_assoc, ◌∙◌, ◌∙◌, ap, arith, List,
  [], ◌∷◌, ◌++◌, length, false, Option, none, some, All, Ordering, if◌then◌else◌, append_assoc,
  length-append, Bool-cases, inl, inr,
}
use easy_lsm.Error.{Result, ok}
use easy_lsm.Codec.{Bytes, uint, to_le_bytes}
use easy_lsm.Key
use easy_lsm.Key.{Key, cmp, cmp_bytes, eq_bytes}
use easy_lsm.Key.RoundTrip.{key-ReadsBack}
use easy_lsm.Value
use easy_lsm.Value.{Value}
use easy_lsm.Value.RoundTrip.{value-ReadsBack}
use easy_lsm.Entry.{Entry, Fits, IsSorted, first_of}
use easy_lsm.Entry.Newest.{eq_bytes-eq, Ordering-cases}
use easy_lsm.Wal.{encode_pair}
use easy_lsm.Sstable.{scan_block, block_entries, BlockBuilder, add, new_block}

-- The buffer of a block: the entries one after the other.
abbrev pub encode_block : List Entry → Bytes
encode_block [] = []
encode_block (e ∷ es) = encode_pair e ++ encode_block es

abbrev pub value_of : Option Entry → Option Value
value_of none = none
value_of (some e) = some e.1

-- A round for each entry, and `fuel` more.
abbrev rounds : List Entry → ℕ → ℕ
rounds [] fuel = fuel
rounds (e ∷ es) fuel = suc (rounds es fuel)

rounds_lem : (es : List Entry) (fuel : ℕ) → rounds es fuel ≡ length es + fuel
rounds_lem [] fuel = omega arith
rounds_lem (e ∷ es) fuel = omega (arith, rounds_lem es fuel)

pub encode_pair-pos : (e : Entry) → 0 < length (encode_pair e)
unfolding encode_pair Key.loggable uint to_le_bytes
encode_pair-pos (key, value) = omega arith

pub length-encode_block : (es : List Entry) → length es ≤ length (encode_block es)
length-encode_block [] = omega arith
length-encode_block (e ∷ es) = omega (
  arith,
  encode_pair-pos e,
  length-encode_block es,
  length-append (encode_pair e) (encode_block es),
)

-- What one round of the scan does with an entry.
abbrev judge : Bytes → Entry → Option (Result (Option Value)) → Option (Result (Option Value))
judge k e more =
    if eq_bytes e.0.bytes k
    then some (ok (some e.1))
    else elim (cmp_bytes e.0.bytes k) [ Ordering.gt ↦ some (ok none) | _ ↦ more ]

scan_step :
    (fuel : ℕ) (k cursor : Bytes) (e : Entry) (rest rest' : Bytes)
    → 0 < length cursor
    → Key.loggable.decode cursor ≡ ok (e.0, rest)
    → Value.loggable.decode rest ≡ ok (e.1, rest')
    → scan_block (suc fuel) k cursor ≡ judge k e (scan_block fuel k rest')
unfolding scan_block
scan_step fuel k [] e rest rest' h p q = absurd (omega arith)
scan_step fuel k (b ∷ bs) e rest rest' h p q = rw (p, scan_block) (rw (q, scan_block))

scan_entry :
    (fuel : ℕ) (k : Bytes) (e : Entry) (rest : Bytes)
    → Fits e
    → scan_block (suc fuel) k (encode_pair e ++ rest) ≡ judge k e (scan_block fuel k rest)
unfolding encode_pair
scan_entry fuel k (key, value) rest (fk, fv) =
    scan_step fuel k _ (key, value) (Value.loggable.encode value ++ rest) rest
      (omega (
        arith,
        encode_pair-pos (key, value),
        length-append (Key.loggable.encode key ++ Value.loggable.encode value) rest,
      ))
      (rw append_assoc (key-ReadsBack key fk _)) (value-ReadsBack value fv rest)

above :
    (a b : Key) (k : Bytes)
    → cmp_bytes a.bytes k ≡ Ordering.gt
    → cmp a b ≡ Ordering.lt
    → eq_bytes b.bytes k ≡ false
unfolding cmp
above a b k h p = elim (Bool-cases (eq_bytes b.bytes k)) [
  | inr other ↦ other
  | inl same ↦ ground (arith, ap (λ (x : Bytes). cmp_bytes a.bytes x) (eq_bytes-eq b.bytes k same))
]

-- Behind a key whose bytes are above `k`, nothing is found for `k`.
pub first_of_above :
    (key : Key) (k : Bytes) (es : List Entry)
    → cmp_bytes key.bytes k ≡ Ordering.gt
    → All (λ (f : Entry). cmp key f.0 ≡ Ordering.lt) es
    → first_of k es ≡ none
first_of_above key k [] h b = refl
first_of_above key k (f ∷ fs) h (p, b) = rw (above key f.0 k h p) (first_of_above key k fs h b)

judged :
    (k : Bytes) (e : Entry) (es : List Entry)
    → All (λ (f : Entry). cmp e.0 f.0 ≡ Ordering.lt) es
    → judge k e (some (ok (value_of (first_of k es))))
      ≡ some (ok (value_of (if eq_bytes e.0.bytes k then some e else first_of k es)))
judged k e es below = elim (Bool-cases (eq_bytes e.0.bytes k)) [
  | inl same ↦ rw same
  | inr other ↦ elim (Ordering-cases (cmp_bytes e.0.bytes k)) [
    | inl lt ↦ rw (other, lt)
    | inr (inl eq) ↦ rw (other, eq)
    | inr (inr gt) ↦ rw (other, gt) (rw (first_of_above e.0 k es gt below))
  ]
]

-- With a round for each entry, the scan of a sorted block answers with the first entry of the key,
-- which is its newest version, and with nothing where the key has none.
pub scan_block-encode_block :
    (k : Bytes) (es : List Entry) (fuel : ℕ)
    → All Fits es
    → IsSorted es
    → length es < fuel
    → scan_block fuel k (encode_block es) ≡ some (ok (value_of (first_of k es)))
scan_block-encode_block k [] zero h s lt = absurd (omega arith)
scan_block-encode_block k [] (suc fuel) h s lt = unfold scan_block in refl
scan_block-encode_block k (e ∷ es) zero h s lt = absurd (omega arith)
scan_block-encode_block k (e ∷ es) (suc fuel) (p, h) (below, s) lt =
    scan_entry fuel k e (encode_block es) p
    ∙ ap (judge k e) (scan_block-encode_block k es fuel h s (omega arith))
    ∙ judged k e es below

entries_step :
    (fuel : ℕ) (cursor : Bytes) (e : Entry) (rest rest' : Bytes) (es : List Entry)
    → 0 < length cursor
    → Key.loggable.decode cursor ≡ ok (e.0, rest)
    → Value.loggable.decode rest ≡ ok (e.1, rest')
    → block_entries fuel rest' ≡ some (ok es)
    → block_entries (suc fuel) cursor ≡ some (ok (e ∷ es))
unfolding block_entries
entries_step fuel [] e rest rest' es h p q r = absurd (omega arith)
entries_step fuel (b ∷ bs) e rest rest' es h p q r =
    rw (p, block_entries) (rw (q, block_entries) (rw (r, block_entries)))

entries_entry :
    (fuel : ℕ) (e : Entry) (rest : Bytes) (es : List Entry)
    → Fits e
    → block_entries fuel rest ≡ some (ok es)
    → block_entries (suc fuel) (encode_pair e ++ rest) ≡ some (ok (e ∷ es))
unfolding encode_pair
entries_entry fuel (key, value) rest es (fk, fv) r =
    entries_step fuel _ (key, value) (Value.loggable.encode value ++ rest) rest es
      (omega (
        arith,
        encode_pair-pos (key, value),
        length-append (Key.loggable.encode key ++ Value.loggable.encode value) rest,
      ))
      (rw append_assoc (key-ReadsBack key fk _)) (value-ReadsBack value fv rest) r

-- A reader that takes all the entries of a block one by one gets them all, in order.
pub block_entries-encode_block :
    (es : List Entry) (fuel : ℕ)
    → All Fits es
    → length es < fuel
    → block_entries fuel (encode_block es) ≡ some (ok es)
block_entries-encode_block [] zero h lt = absurd (omega arith)
block_entries-encode_block [] (suc fuel) h lt = unfold block_entries in refl
block_entries-encode_block (e ∷ es) zero h lt = absurd (omega arith)
block_entries-encode_block (e ∷ es) (suc fuel) (p, h) lt =
    entries_entry fuel e (encode_block es) es p (block_entries-encode_block es fuel h (omega arith))

-- The builder after `add` of each entry in turn.
abbrev add_all : List Entry → BlockBuilder → BlockBuilder
add_all [] b = b
add_all (e ∷ es) b = add_all es (add e.0 e.1 b)

buffer-add_all :
    (es : List Entry) (b : BlockBuilder) → (add_all es b).buffer ≡ b.buffer ++ encode_block es
unfolding add encode_pair
buffer-add_all [] b = sym (append-nil b.buffer)
buffer-add_all ((key, value) ∷ es) b =
    buffer-add_all es (add key value b)
    ∙ append_assoc b.buffer (encode_pair (key, value)) (encode_block es)

built : (es : List Entry) → (add_all es new_block).buffer ≡ encode_block es
unfolding new_block
built es = buffer-add_all es new_block

-- The search of a block into which entries were added in ascending order of keys, with a round for
-- each: it answers with the first entry of the key, which is its newest version, and with nothing
-- where the key has none. All keys and values fit their fields.
scan_block-add_all :
    (k : Bytes) (es : List Entry) (fuel : ℕ)
    → All Fits es
    → IsSorted es
    → length es < fuel
    → scan_block fuel k (add_all es new_block).buffer ≡ some (ok (value_of (first_of k es)))
scan_block-add_all k es fuel h s lt = rw (built es) (scan_block-encode_block k es fuel h s lt)

-- Iterating over a block into which entries were added, with a round for each, gives all of them
-- back in that order, where the keys and values fit their fields.
block_entries-add_all :
    (es : List Entry) (fuel : ℕ)
    → All Fits es
    → length es < fuel
    → block_entries fuel (add_all es new_block).buffer ≡ some (ok es)
block_entries-add_all es fuel h lt = rw (built es) (block_entries-encode_block es fuel h lt)
