-- ===== src/Sstable/Ends.antt =====
-- Opening, searching and iterating end: every round of their loops takes bytes.
use easy_lsm.Base.{
  ℕ, zero, suc, ◌<◌, List, [], ◌∷◌, length, ◌==◌, Option, none, some, ◌≡◌, ◌≢◌, arith, Bool-cases,
  Option-cases, inl, inr, ◌-◌, ◌^◌, take, drop, Ordering,
}
use easy_lsm.Error.{Result, ok, err, manifest_corrupted, Result-cases}
use easy_lsm.Codec.{Bytes, Loggable, u64, u16, read_exact, from_le_bytes}
use easy_lsm.Codec.Extends.{>>=-Extends, pure-Extends, read_exact-Extends}
use easy_lsm.Codec.Ints.{uint-Extends, uint-length}
use easy_lsm.Codec.Consumes.{Consumes, >>=-Consumes}
use easy_lsm.Key
use easy_lsm.Key.{cmp_bytes, eq_bytes}
use easy_lsm.Key.RoundTrip.{loggable-Extends as key-Extends}
use easy_lsm.Value
use easy_lsm.Value.{Value}
use easy_lsm.Value.RoundTrip.{loggable-Extends as value-Extends}
use easy_lsm.BloomFilter
use easy_lsm.BloomFilter.{BloomFilter}
use easy_lsm.Sstable.{Sstable, IndexEntry, scan_block, find_block, decode_index, decode_index_entry}
use easy_lsm.Sstable.Table.{
  read_block_with_crc_at, open_index, open_blocks, open_table, search_block, search,
}
use easy_lsm.Sstable.Items.{Items, block_items, table_items}

key-Consumes : Consumes Key.loggable.decode 8
unfolding Key.loggable
key-Consumes =
    >>=-Consumes u64.decode _ 8 (λ bs a rest h. omega (arith, uint-length 8 bs a rest h))
      (λ lsn.
        >>=-Extends u16.decode _ (uint-Extends 2)
          (λ n. >>=-Extends (read_exact n) _ (read_exact-Extends n) (λ bytes. pure-Extends _)))

decode_index_entry-Consumes : Consumes decode_index_entry 8
unfolding decode_index_entry
decode_index_entry-Consumes = >>=-Consumes Key.loggable.decode _ 8 key-Consumes (λ min.
    >>=-Extends Key.loggable.decode _ key-Extends
      (λ max. >>=-Extends u64.decode _ (uint-Extends 8) (λ offset. pure-Extends _)))

pub block_items-ne-none :
    (fuel : ℕ) (cursor : Bytes) (later : Option Items)
    → length cursor < fuel
    → later ≢ none
    → block_items fuel cursor later ≢ none
unfolding block_items
block_items-ne-none zero cursor later h n = absurd (omega arith)
block_items-ne-none (suc fuel) [] later h n = n
block_items-ne-none (suc fuel) (b ∷ bs) later h n =
    elim (Result-cases (Key.loggable.decode (b ∷ bs))) [
      | inr (e, p) ↦ rw (p, block_items) (λ q. cc)
      | inl ((k, rest), p) ↦ elim (Result-cases (Value.loggable.decode rest)) [
        | inr (e, q) ↦ rw (p, block_items) (rw (q, block_items) (λ z. cc))
        | inl ((v, rest'), q) ↦ elim (Option-cases (block_items fuel rest' later)) [
          | inr (items, r) ↦
              rw (p, block_items) (rw (q, block_items) (rw (r, block_items) (λ z. cc)))
          | inl r ↦ absurd (
              block_items-ne-none fuel rest' later
                (omega
                  (arith, key-Consumes (b ∷ bs) k rest p, value-Extends.shrinks rest v rest' q))
                n r)
        ]
      ]
    ]

by_order :
    {A : Type 0} (x : Option A) (y : A) (o : Ordering)
    → x ≢ none
    → elim o [ Ordering.gt ↦ some y | _ ↦ x ] ≢ none
by_order x y Ordering.gt n = λ q. cc
by_order x y Ordering.lt n = n
by_order x y Ordering.eq n = n

scan_block-ne-none :
    (fuel : ℕ) (k : Bytes) (cursor : Bytes) → length cursor < fuel → scan_block fuel k cursor ≢ none
unfolding scan_block
scan_block-ne-none zero k cursor h = absurd (omega arith)
scan_block-ne-none (suc fuel) k [] h = λ q. cc
scan_block-ne-none (suc fuel) k (b ∷ bs) h = elim (Result-cases (Key.loggable.decode (b ∷ bs))) [
  | inr (e, p) ↦ rw (p, scan_block) (λ q. cc)
  | inl ((key, rest), p) ↦ elim (Result-cases (Value.loggable.decode rest)) [
    | inr (e, q) ↦ rw (p, scan_block) (rw (q, scan_block) (λ z. cc))
    | inl ((v, rest'), q) ↦
        let later : scan_block fuel k rest' ≢ none =
          scan_block-ne-none fuel k rest' (
            omega
              (arith, key-Consumes (b ∷ bs) key rest p, value-Extends.shrinks rest v rest' q)) in
        rw (p, scan_block)
          (rw (q, scan_block)
            (elim (Bool-cases (eq_bytes key.bytes k)) [
              | inl same ↦ rw same (λ z. cc)
              | inr apart ↦
                  rw apart
                    (by_order (scan_block fuel k rest') (ok none) (cmp_bytes key.bytes k) later)
            ]))
  ]
]

decode_index-ne-none :
    (fuel : ℕ) (cursor : Bytes) → length cursor < fuel → decode_index fuel cursor ≢ none
unfolding decode_index
decode_index-ne-none zero cursor h = absurd (omega arith)
decode_index-ne-none (suc fuel) [] h = λ q. cc
decode_index-ne-none (suc fuel) (b ∷ bs) h = elim (Result-cases (decode_index_entry (b ∷ bs))) [
  | inr (e, p) ↦ rw (p, decode_index) (λ q. cc)
  | inl ((entry, rest), p) ↦ elim (Option-cases (decode_index fuel rest)) [
    | inr (ok es, r) ↦ rw (p, decode_index) (rw (r, decode_index) (λ q. cc))
    | inr (err e, r) ↦ rw (p, decode_index) (rw (r, decode_index) (λ q. cc))
    | inl r ↦ absurd (
        decode_index-ne-none fuel rest
          (omega (arith, decode_index_entry-Consumes (b ∷ bs) entry rest p)) r)
  ]
]

open_index-ne-none :
    (id : ℕ) (file : Bytes) (bloom : BloomFilter) (index_data : Bytes)
    → open_index id file bloom index_data ≢ none
unfolding open_index
open_index-ne-none id file bloom index_data = elim (Result-cases (Key.loggable.decode index_data)) [
  | inr (e, p) ↦ rw (p, open_index) (λ q. cc)
  | inl ((min, rest), p) ↦ elim (Result-cases (Key.loggable.decode rest)) [
    | inr (e, q) ↦ rw (p, open_index) (rw (q, open_index) (λ z. cc))
    | inl ((max, rest'), q) ↦ elim (Option-cases (decode_index (suc (length rest')) rest')) [
      | inr (ok index, r) ↦ rw (p, open_index) (rw (q, open_index) (rw (r, open_index) (λ z. cc)))
      | inr (err e, r) ↦ rw (p, open_index) (rw (q, open_index) (rw (r, open_index) (λ z. cc)))
      | inl r ↦ absurd (decode_index-ne-none (suc (length rest')) rest' (omega arith) r)
    ]
  ]
]

module _ (crc32 : Bytes → ℕ) where
  pub table_items-ne-none : (t : Sstable) (is : List IndexEntry) → table_items crc32 t is ≢ none
  unfolding table_items
  table_items-ne-none t [] = λ q. cc
  table_items-ne-none t (i ∷ is) =
      elim (Result-cases (read_block_with_crc_at crc32 t.file i.offset)) [
        | inr (e, p) ↦ rw (p, table_items) (λ q. cc)
        | inl (block, p) ↦
            rw (p, table_items)
              (elim (Bool-cases (length block == 0)) [
                | inl z ↦ rw z (λ q. cc)
                | inr z ↦ rw z (
                    block_items-ne-none (suc (length block)) block (table_items crc32 t is)
                      (omega arith) (table_items-ne-none t is))
              ])
      ]

  -- All items of a table. Running out of fuel is excluded by `table_items-ne-none`.
  unfoldable pub iterate : Sstable → Items
  iterate t = elim (table_items crc32 t t.index) [ some items ↦ items | none ↦ [] ]

  pub iterate_lem : (t : Sstable) → table_items crc32 t t.index ≡ some (iterate t)
  unfolding iterate
  iterate_lem t = elim (Option-cases (table_items crc32 t t.index)) [
    | inl q ↦ absurd (table_items-ne-none t t.index q)
    | inr (items, q) ↦ rw (q, iterate)
  ]

  search_block-ne-none : (t : Sstable) (k : Bytes) (n : ℕ) → search_block crc32 t k n ≢ none
  unfolding search_block
  search_block-ne-none t k n = elim (Result-cases (read_block_with_crc_at crc32 t.file n)) [
    | inr (e, p) ↦ rw (p, search_block) (λ q. cc)
    | inl (block, p) ↦
        rw (p, search_block) (scan_block-ne-none (suc (length block)) k block (omega arith))
  ]

  -- A search ends with an answer or an error, whatever the table's file holds, in the rounds that
  -- the scan of a block is given.
  pub search-ne-none :
      (sip_hash : ℕ × ℕ → Bytes → ℕ) (t : Sstable) (k : Bytes) → search crc32 sip_hash t k ≢ none
  unfolding search
  search-ne-none sip_hash t k = elim (Bool-cases (BloomFilter.check sip_hash k t.bloom_filter)) [
    | inr denied ↦ rw denied (λ q. cc)
    | inl passed ↦ rw passed (elim (Option-cases (find_block (Key.new k (2 ^ 64 - 1)) t.index)) [
      | inl p ↦ rw (p, search) (λ q. cc)
      | inr (i, p) ↦
          rw (p, search)
            (by_order (search_block crc32 t k i.offset) (ok none) (cmp_bytes i.min.bytes k)
              (search_block-ne-none t k i.offset))
    ])
  ]

  -- `Sstable::search`. Running out of fuel is excluded by `search-ne-none`.
  unfoldable pub search_table : (ℕ × ℕ → Bytes → ℕ) → Sstable → Bytes → Result (Option Value)
  search_table sip_hash t k = elim (search crc32 sip_hash t k) [
    | some r ↦ r
    | none ↦ err manifest_corrupted
  ]

  pub search_table_lem :
      (sip_hash : ℕ × ℕ → Bytes → ℕ) (t : Sstable) (k : Bytes)
      → search crc32 sip_hash t k ≡ some (search_table sip_hash t k)
  unfolding search_table
  search_table_lem sip_hash t k = elim (Option-cases (search crc32 sip_hash t k)) [
    | inl q ↦ absurd (search-ne-none sip_hash t k q)
    | inr (r, q) ↦ rw (q, search_table)
  ]

  module _ (bloom_loggable : Loggable BloomFilter) where
    open_blocks-ne-none :
        (id : ℕ) (file : Bytes) (io bo : ℕ) → open_blocks crc32 bloom_loggable id file io bo ≢ none
    unfolding open_blocks
    open_blocks-ne-none id file io bo = elim (Result-cases (read_block_with_crc_at crc32 file bo)) [
      | inr (e, p) ↦ rw (p, open_blocks) (λ q. cc)
      | inl (bloom_data, p) ↦ elim (Result-cases (bloom_loggable.decode bloom_data)) [
        | inr (e, q) ↦ rw (p, open_blocks) (rw (q, open_blocks) (λ z. cc))
        | inl ((bloom, rest), q) ↦ elim (Result-cases (read_block_with_crc_at crc32 file io)) [
          | inr (e, r) ↦ rw (p, open_blocks) (rw (q, open_blocks) (rw (r, open_blocks) (λ z. cc)))
          | inl (index_data, r) ↦
              rw (p, open_blocks)
                (rw (q, open_blocks)
                  (rw (r, open_blocks) (open_index-ne-none id file bloom index_data)))
        ]
      ]
    ]

    pub open_table-ne-none :
        (id : ℕ) (file : Bytes) → open_table crc32 bloom_loggable id file ≢ none
    unfolding open_table
    open_table-ne-none id file = ground (
      arith,
      open_blocks-ne-none id file (from_le_bytes (take 8 (drop (length file - 24) file)))
          (from_le_bytes (take 8 (drop 8 (drop (length file - 24) file)))),
    )

    -- `Sstable::new`. Running out of fuel is excluded by `open_table-ne-none`.
    unfoldable pub open_file : ℕ → Bytes → Result Sstable
    open_file id file = elim (open_table crc32 bloom_loggable id file) [
      | some r ↦ r
      | none ↦ err manifest_corrupted
    ]

    pub open_file_lem :
        (id : ℕ) (file : Bytes) → open_table crc32 bloom_loggable id file ≡ some (open_file id file)
    unfolding open_file
    open_file_lem id file = elim (Option-cases (open_table crc32 bloom_loggable id file)) [
      | inl q ↦ absurd (open_table-ne-none id file q)
      | inr (r, q) ↦ rw (q, open_file)
    ]
