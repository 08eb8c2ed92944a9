-- ===== src/Compact/Output/Merges.antt =====
-- The output of a compaction as a whole: merged entries in numbered tables.
use easy_lsm.Base.{
  ℕ, zero, suc, arith, List, [], ◌∷◌, ◌++◌, length, concat, append_assoc, append-nil, ◌≡◌, refl,
  sym, ap, ◌∙◌, subst, All, Option, none, some, Option-cases, inl, inr, ◌⊎◌,
}
use mathlib.Core.List.{Permᴰ}
use easy_lsm.Error.{Result, DbError, ok, err, Result-cases}
use easy_lsm.Codec.{Bytes, Loggable}
use easy_lsm.Entry.{Entry}
use easy_lsm.BloomFilter.{BloomFilter}
use easy_lsm.Directory.{Directory}
use easy_lsm.Compact.Merge
use easy_lsm.Compact.Merge.{MergeIterator, SstableIterator, merge, merged}
use easy_lsm.Compact.Merge.Runs.{ok_runs}
use easy_lsm.Compact.Merge.Invariant.{IsAscending}
use easy_lsm.Compact.Merge.Sorted.{merge_sorts}
use easy_lsm.Compact.Output.{
  Outputs, AreQuiet, output_entry, finish_file, output_loop, write_outputs,
}
use easy_lsm.Compact.Output.Files.{
  IsOutputOf, IsFinishedOf, finish_file-IsFinishedOf, output_entry-IsOutputOf,
}

-- What a round of the merge is, by what `next` answers.
next-cases :
    (m : MergeIterator)
    → (Merge.next m ≡ none)
      ⊎ (((e : DbError) × (m' : MergeIterator) × (Merge.next m ≡ some (err e, m')))
          ⊎ ((kv : Entry) × (m' : MergeIterator) × (Merge.next m ≡ some (ok kv, m'))))
next-cases m = elim (Option-cases (Merge.next m)) [
  | inl q ↦ inl q
  | inr ((r, m'), q) ↦ elim (Result-cases r) [
    | inl (kv, p) ↦ inr (inr (kv, m', q ∙ ap (λ (x : Result Entry). some (x, m')) p))
    | inr (e, p) ↦ inr (inl (e, m', q ∙ ap (λ (x : Result Entry). some (x, m')) p))
  ]
]

-- A result of the rounds that follow, put behind an entry.
abbrev behind : Entry → Option (Result (List Entry)) → Option (Result (List Entry))
behind entry r = elim r [ some (ok es) ↦ some (ok (entry ∷ es)) | other ↦ other ]

behind_ok :
    (entry : Entry) (r : Option (Result (List Entry))) (out : List Entry)
    → behind entry r ≡ some (ok out)
    → (es : List Entry) × (r ≡ some (ok es)) × (out ≡ entry ∷ es)
behind_ok entry none out h = absurd (cc h)
behind_ok entry (some (err e)) out h = absurd (cc h)
behind_ok entry (some (ok es)) out h = (
  es,
  refl,
  ap (λ (x : Option (Result (List Entry))). elim x [ some (ok l) ↦ l | _ ↦ out ]) (sym h),
)

module _ (crc32 : Bytes → ℕ) (sip_hash : ℕ × ℕ → Bytes → ℕ) (bloom_loggable : Loggable BloomFilter)
    (new_filter : BloomFilter) (rivals : ℕ → ℕ → ℕ) (quiet : AreQuiet rivals)
    (target_file_size : ℕ) where
  output_all : List Entry → Outputs → Outputs
  output_all [] o = o
  output_all (e ∷ es) o =
      output_all es
        (output_entry crc32 sip_hash bloom_loggable new_filter rivals target_file_size e o)

  output_all-IsOutputOf :
      (start : ℕ) (before es : List Entry) (o : Outputs)
      → IsOutputOf crc32 sip_hash bloom_loggable new_filter start before o
      → IsOutputOf crc32 sip_hash bloom_loggable new_filter start (before ++ es) (output_all es o)
  unfolding output_all
  output_all-IsOutputOf start before [] o v = rw (append-nil before) v
  output_all-IsOutputOf start before (e ∷ es) o v =
      let o' = output_entry crc32 sip_hash bloom_loggable new_filter rivals target_file_size e o in
      subst
        (λ (l : List Entry).
          IsOutputOf crc32 sip_hash bloom_loggable new_filter start l (output_all es o'))
        (append_assoc before (e ∷ []) es)
        (output_all-IsOutputOf start (before ++ (e ∷ [])) es o' (
          output_entry-IsOutputOf crc32 sip_hash bloom_loggable new_filter rivals quiet
            target_file_size start before e o v))

  -- The loop after a merge that gave `out`.
  output_loop-merged :
      (fuel : ℕ) (m : MergeIterator) (o : Outputs) (out : List Entry)
      → merged fuel m ≡ some (ok out)
      → output_loop crc32 sip_hash bloom_loggable new_filter rivals target_file_size fuel m o
        ≡ some (
          ok tt,
          finish_file crc32 sip_hash bloom_loggable new_filter rivals target_file_size
              (output_all out o),
        )
  unfolding merged output_loop output_all
  output_loop-merged zero m o out h = absurd (cc h)
  output_loop-merged (suc fuel) m o out h = elim (next-cases m) [
    | inl q ↦
        let nothing : [] ≡ out =
          ap (λ (x : Option (Result (List Entry))). elim x [ some (ok l) ↦ l | _ ↦ out ])
            (rw (q, merged) at h) in
        rw (q, output_loop)
          (ap
            (λ (l : List Entry). some (
              ok tt,
              finish_file crc32 sip_hash bloom_loggable new_filter rivals target_file_size
                  (output_all l o),
            ))
            nothing)
    | inr (inl (e, m', q)) ↦ absurd (cc (rw (q, merged) at h))
    | inr (inr (kv, m', q)) ↦
        let (es, r, split) = behind_ok kv (merged fuel m') out (rw (q, merged) at h) in
        let o' =
          output_entry crc32 sip_hash bloom_loggable new_filter rivals target_file_size kv o in
        rw (q, output_loop)
          (output_loop-merged fuel m' o' es r
            ∙ ap
                (λ (l : List Entry). some (
                  ok tt,
                  finish_file crc32 sip_hash bloom_loggable new_filter rivals target_file_size
                      (output_all l o),
                ))
                (sym split))
  ]

  -- A compaction that can read its inputs, each of them ascending by key, succeeds, where other
  -- threads leave the counter of table numbers as it is meanwhile. The entries that it puts into new
  -- tables are those of the inputs, each as often as there (also older versions and tombstones),
  -- ascending by key over all the tables. The tables hold consecutive chunks of them, none of them
  -- empty; they have the numbers from `start` on, as their metadata and their files, and every number
  -- that was used is reserved.
  pub write_outputs_merges :
      (rs : List (List Entry)) (start : ℕ) (d : Directory)
      → All IsAscending rs
      → (out : List Entry) × (o : Outputs) × (write_outputs crc32 sip_hash bloom_loggable new_filter
            rivals target_file_size
            (ok_runs rs)
            start
            d
          ≡ some (ok tt, o))
        × IsAscending out
        × Permᴰ out (concat rs)
        × IsFinishedOf crc32 sip_hash bloom_loggable new_filter start out o
  unfolding write_outputs merge
  write_outputs_merges rs start d a =
      let (out, q, up, perm) = merge_sorts rs a in
      let first : Outputs = record {
        next_sstable_id = start;
        new_files = [];
        directory = d;
        current_writer = none;
      } in
      let o = output_all out first in
      let begun : IsOutputOf crc32 sip_hash bloom_loggable new_filter start [] first = record {
        chunks = [];
        cur = [];
        nonempty = tt;
        whole = refl;
        metas = refl;
        next = omega arith;
        writer = refl;
        stored = tt;
      } in
      (
        out,
        finish_file crc32 sip_hash bloom_loggable new_filter rivals target_file_size o,
        elim (Result-cases (Merge.new (ok_runs rs))) [
          | inr (e, p) ↦ absurd (cc (rw (p, merge) at q))
          | inl (m, p) ↦
              rw (p, write_outputs)
                (output_loop-merged (suc (length (concat (ok_runs rs)))) m first out
                  (rw (p, merge) at q))
        ],
        up,
        perm,
        finish_file-IsFinishedOf crc32 sip_hash bloom_loggable new_filter rivals quiet
            target_file_size start out o (output_all-IsOutputOf start [] out first begun),
      )
