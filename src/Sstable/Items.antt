-- ===== src/Sstable/Items.antt =====
-- data_stores/sstable.rs, `SstableIterator` and `BlockIterator`: what their `next` answers, one
-- after the other, up to the end or the first error, after which nothing calls it.
use easy_lsm.Base.{
  ℕ, zero, suc, List, [], ◌∷◌, ◌++◌, length, ◌==◌, if◌then◌else◌, Option, none, some, ◌≡◌, refl, ap,
  ◌∙◌, Bool-cases, Option-cases, inl, inr, ◌⊎◌, Bool, true, false,
}
use easy_lsm.Error.{Result, ok, err, Result-cases}
use easy_lsm.Codec.{Bytes}
use easy_lsm.Key
use easy_lsm.Value
use easy_lsm.Entry.{Entry}
use easy_lsm.Sstable.{Sstable, IndexEntry, block_entries}
use easy_lsm.Sstable.Table.{read_block_with_crc_at, table_entries}

abbrev pub Items : Type 0
Items = List (Result Entry)

-- The items of a block, and those of the blocks behind it. `none`: out of fuel.
unfoldable pub block_items : ℕ → Bytes → Option Items → Option Items
block_items zero cursor later = none
block_items (suc fuel) [] later = later
block_items (suc fuel) (b ∷ bs) later = elim (Key.loggable.decode (b ∷ bs)) [
  | err e ↦ some (err e ∷ [])
  | ok (k, rest) ↦ elim (Value.loggable.decode rest) [
    | err e ↦ some (err e ∷ [])
    | ok (v, rest') ↦ elim (block_items fuel rest' later) [
      | none ↦ none
      | some items ↦ some (ok (k, v) ∷ items)
    ]
  ]
]

-- The items of the run of an iterator that gives all of it.
abbrev pub ok_run : List Entry → Items
ok_run [] = []
ok_run (e ∷ es) = ok e ∷ ok_run es

ok_run-append : (es fs : List Entry) → ok_run es ++ ok_run fs ≡ ok_run (es ++ fs)
ok_run-append [] fs = refl
ok_run-append (e ∷ es) fs = ap (λ (l : Items). ok e ∷ l) (ok_run-append es fs)

-- What is behind an entry of a block.
abbrev behind : Entry → Option (Result (List Entry)) → Option (Result (List Entry))
behind e r = elim r [
  | some (ok es) ↦ some (ok (e ∷ es))
  | some (err x) ↦ some (err x)
  | none ↦ none
]

behind_ok :
    (e : Entry) (r : Option (Result (List Entry))) (all : List Entry)
    → behind e r ≡ some (ok all)
    → (es : List Entry) × (r ≡ some (ok es)) × (e ∷ es ≡ all)
behind_ok e none all h = absurd (cc h)
behind_ok e (some (err x)) all h = absurd (cc h)
behind_ok e (some (ok es)) all h =
    (es, refl, ap (λ (x : Option (Result (List Entry))). elim x [ some (ok l) ↦ l | _ ↦ all ]) h)

block_items-ok :
    (fuel : ℕ) (cursor : Bytes) (here : List Entry) (later : Items)
    → block_entries fuel cursor ≡ some (ok here)
    → block_items fuel cursor (some later) ≡ some (ok_run here ++ later)
unfolding block_items block_entries
block_items-ok zero cursor here later h = absurd (cc h)
block_items-ok (suc fuel) [] here later h =
    ap
      (λ (x : Option (Result (List Entry))). elim x [
        | some (ok l) ↦ some (ok_run l ++ later)
        | _ ↦ some later
      ])
      h
block_items-ok (suc fuel) (b ∷ bs) here later h =
    elim (Result-cases (Key.loggable.decode (b ∷ bs))) [
      | inr (e, p) ↦ absurd (cc (rw (p, block_entries) at h))
      | inl ((k, rest), p) ↦ elim (Result-cases (Value.loggable.decode rest)) [
        | inr (e, q) ↦ absurd (cc (rw (q, block_entries) at (rw (p, block_entries) at h)))
        | inl ((v, rest'), q) ↦
            let (es, r, all) =
              behind_ok (k, v) (block_entries fuel rest') here
                (rw (q, block_entries) at (rw (p, block_entries) at h)) in
            rw (p, block_items)
              (rw (q, block_items)
                (rw (block_items-ok fuel rest' es later r, block_items)
                  (ap (λ (l : List Entry). some (ok_run l ++ later)) all)))
      ]
    ]

module _ (crc32 : Bytes → ℕ) where
  -- The blocks in the order of the index; an empty block ends the iteration.
  unfoldable pub table_items : Sstable → List IndexEntry → Option Items
  unfolding block_items
  table_items t [] = some []
  table_items t (e ∷ es) =
      let later = table_items t es in
      elim (read_block_with_crc_at crc32 t.file e.offset) [
        | err x ↦ some (err x ∷ [])
        | ok block_data ↦
            if length block_data == 0
            then some []
            else block_items (suc (length block_data)) block_data later
      ]

  joined : Bool → List Entry → Option (Result (List Entry)) → Option (Result (List Entry))
  joined z here r = elim r [
    | some (ok later) ↦ some (ok (if z then [] else here ++ later))
    | other ↦ if z then some (ok []) else other
  ]

  joined_ok :
      (z : Bool) (here : List Entry) (r : Option (Result (List Entry))) (es : List Entry)
      → joined z here r ≡ some (ok es)
      → ((z ≡ true) × ([] ≡ es))
        ⊎ ((z ≡ false) × ((later : List Entry) × (r ≡ some (ok later)) × (here ++ later ≡ es)))
  unfolding joined
  joined_ok z here r es h = elim (Bool-cases z) [
    | inl y ↦ inl (y, empty r (rw y at h))
    | inr n ↦ inr (n, split r (rw n at h))
  ]
    where
      list_of : Option (Result (List Entry)) → List Entry
      list_of x = elim x [ some (ok l) ↦ l | _ ↦ es ]

      empty : (r : Option (Result (List Entry))) → joined true here r ≡ some (ok es) → [] ≡ es
      empty none h = ap list_of h
      empty (some (err e)) h = ap list_of h
      empty (some (ok later)) h = ap list_of h

      split :
          (r : Option (Result (List Entry)))
          → joined false here r ≡ some (ok es)
          → (later : List Entry) × (r ≡ some (ok later)) × (here ++ later ≡ es)
      split none h = absurd (cc h)
      split (some (err e)) h = absurd (cc h)
      split (some (ok later)) h = (later, refl, ap list_of h)

  -- An iterator whose whole run can be read answers with it.
  pub table_items-ok :
      (t : Sstable) (is : List IndexEntry) (es : List Entry)
      → table_entries crc32 t is ≡ some (ok es)
      → table_items t is ≡ some (ok_run es)
  unfolding table_entries table_items joined
  table_items-ok t [] es h =
      ap
        (λ (x : Option (Result (List Entry))). elim x [
          | some (ok l) ↦ some (ok_run l)
          | _ ↦ some []
        ])
        h
  table_items-ok t (i ∷ is) es h =
      elim (Result-cases (read_block_with_crc_at crc32 t.file i.offset)) [
        | inr (e, p) ↦ absurd (cc (rw (p, table_entries) at h))
        | inl (block, p) ↦ elim (Option-cases (block_entries (suc (length block)) block)) [
          | inl q ↦ absurd (cc (rw (q, table_entries) at (rw (p, table_entries) at h)))
          | inr (err e, q) ↦ absurd (cc (rw (q, table_entries) at (rw (p, table_entries) at h)))
          | inr (ok here, q) ↦
              elim (joined_ok (length block == 0) here (table_entries crc32 t is) es
                (rw (q, table_entries) at (rw (p, table_entries) at h))) [
                  | inl (z, e) ↦
                      rw (p, table_items) (rw z (ap (λ (l : List Entry). some (ok_run l)) e))
                  | inr (z, (later, r, e)) ↦
                      rw (p, table_items)
                        (rw z (
                          rw (table_items-ok t is later r) (
                            block_items-ok (suc (length block)) block here (ok_run later) q
                            ∙ ap (λ (l : Items). some l) (ok_run-append here later)
                            ∙ ap (λ (l : List Entry). some (ok_run l)) e)))
                ]
        ]
      ]
