-- ===== src/Wal/Log.antt =====
-- A whole log: what was written in batches comes back, the loop ends on every file, and an entry
-- that was only partly written is dropped.
use easy_lsm.Base.{
  ℕ, zero, suc, ◌+◌, ◌-◌, ◌^◌, ◌<◌, ◌≤◌, ◌≡◌, ◌≢◌, refl, sym, ◌∙◌, ap, arith, List, [], ◌∷◌, ◌++◌,
  length, length-append, append-nil, append_assoc, Option, none, some, inl, inr, All, Option-cases,
  ◌==◌,
}
use easy_lsm.Error.{◌>>=◌, io, unexpected_eof, Result, ok, err, Result-cases}
use easy_lsm.Codec.{Bytes, u32}
use easy_lsm.Codec.Ints.{uint-ReadsBack, uint-length}
use easy_lsm.Key
use easy_lsm.Key.RoundTrip.{loggable-Extends as key-Extends}
use easy_lsm.Value
use easy_lsm.Value.RoundTrip.{loggable-Extends as value-Extends}
use easy_lsm.Base.{Bool-cases}
use easy_lsm.Wal.{
  consumed, prepend, Entry, Fits, wal_magic, encode_pair, encode_entry, encode_batch, next, entries,
  read_log, try_iter, or_end, check_crc,
}
use easy_lsm.Wal.Next.{next-encode_entry, u32-length}

-- A round of fuel for each entry, and `fuel` more.
abbrev rounds : List Entry → ℕ → ℕ
rounds [] fuel = fuel
rounds (e ∷ es) fuel = suc (rounds es fuel)

rounds_lem : (es : List Entry) (fuel : ℕ) → rounds es fuel ≡ length es + fuel
rounds_lem [] fuel = omega arith
rounds_lem (e ∷ es) fuel = omega (arith, rounds_lem es fuel)

fuel_split :
    (es : List Entry) (reader : Bytes)
    → length es ≤ length reader
    → suc (length reader) ≡ rounds es (suc (length reader - length es))
fuel_split es reader h = omega (arith, rounds_lem es (suc (length reader - length es)))

try_iter_magic : (rest : Bytes) → try_iter (u32.encode wal_magic ++ rest) ≡ ok rest
unfolding try_iter
try_iter_magic rest = rw (uint-ReadsBack 4 wal_magic (omega arith) rest, ◌>>=◌)

prepend_nil : (r : Option (Result (List Entry))) → prepend [] r ≡ r
prepend_nil none = refl
prepend_nil (some (err e)) = refl
prepend_nil (some (ok more)) = refl

prepend-ne-none :
    (es : List Entry) (r : Option (Result (List Entry))) → r ≢ none → prepend es r ≢ none
prepend-ne-none es none h = h
prepend-ne-none es (some (err e)) h = λ q. cc
prepend-ne-none es (some (ok more)) h = λ q. cc

or_end-inv :
    {A B : Type 0} (r : Result A) (f : A → Option (Result B)) (b : B)
    → or_end r f ≡ some (ok b)
    → (a : A) × (r ≡ ok a) × (f a ≡ some (ok b))
unfolding or_end
or_end-inv (ok a) f b h = (a, refl, h)
or_end-inv (err (io unexpected_eof)) f b h = cc
or_end-inv (err x) f b h = cc

module _ (crc32 : Bytes → ℕ) where
  entries_step :
      (fuel : ℕ) (reader rest : Bytes) (e : Entry)
      → next crc32 reader ≡ some (ok (e, rest))
      → entries crc32 (suc fuel) reader ≡ prepend (e ∷ []) (entries crc32 fuel rest)
  unfolding entries
  entries_step fuel reader rest e h = rw (h, entries)

  prepend_cons :
      (e : Entry) (es : List Entry) (r : Option (Result (List Entry)))
      → prepend (e ∷ []) (prepend es r) ≡ prepend (e ∷ es) r
  prepend_cons e es none = refl
  prepend_cons e es (some (err x)) = refl
  prepend_cons e es (some (ok more)) = refl

  length-encode_batch : (es : List Entry) → length es ≤ length (encode_batch crc32 es)
  unfolding encode_batch encode_entry
  length-encode_batch [] = omega arith
  length-encode_batch (e ∷ es) = omega (
    arith,
    length-encode_batch es,
    u32-length (crc32 (encode_pair e)),
    length-append (u32.encode (crc32 (encode_pair e))) (encode_pair e),
    length-append (u32.encode (crc32 (encode_pair e)) ++ encode_pair e) (encode_batch crc32 es),
  )

  check_crc-rest :
      (stored : ℕ) (before : Bytes) (entry : Entry) (after : Bytes) (e : Entry) (rest : Bytes)
      → check_crc crc32 stored before entry after ≡ some (ok (e, rest))
      → after ≡ rest
  unfolding check_crc
  check_crc-rest stored before entry after e rest h =
      elim (Bool-cases (crc32 (consumed before after) == stored)) [
        | inl t ↦ cc (rw t at h)
        | inr t ↦ absurd (cc (rw t at h))
      ]

  -- The loop ends: every round takes at least the four bytes of a checksum.
  pub next_shrinks :
      (reader : Bytes) (e : Entry) (rest : Bytes)
      → next crc32 reader ≡ some (ok (e, rest))
      → length rest < length reader
  unfolding next check_crc
  next_shrinks reader e rest h =
      let (a, pa, ha) = or_end-inv (u32.decode reader) _ (e, rest) h in
      let (b, pb, hb) = or_end-inv (Key.loggable.decode a.1) _ (e, rest) ha in
      let (c, pc, hc) = or_end-inv (Value.loggable.decode b.1) _ (e, rest) hb in
      omega (
        arith,
        uint-length 4 reader a.0 a.1 pa,
        key-Extends.shrinks a.1 b.0 b.1 pb,
        value-Extends.shrinks b.1 c.0 c.1 pc,
        ap length (check_crc-rest a.0 a.1 (b.0, c.0) c.1 e rest hc),
      )

  pub entries-ne-none :
      (fuel : ℕ) (reader : Bytes) → length reader < fuel → entries crc32 fuel reader ≢ none
  unfolding entries
  entries-ne-none zero reader h = absurd (omega arith)
  entries-ne-none (suc fuel) reader h = elim (Option-cases (next crc32 reader)) [
    | inl e ↦ rw (e, entries) (λ q. cc)
    | inr (err x, e) ↦ rw (e, entries) (λ q. cc)
    | inr (ok (y, rest), e) ↦
        rw (e, entries)
          (prepend-ne-none (y ∷ []) _
            (entries-ne-none fuel rest (omega (arith, next_shrinks reader y rest e))))
  ]

  -- Reading any file as a log, whatever its bytes and the checksum, comes to an end: with the entries
  -- or with an error.
  pub read_log-ne-none : (file : Bytes) → read_log crc32 file ≢ none
  unfolding read_log
  read_log-ne-none file = elim (Result-cases (try_iter file)) [
    | inl (reader, e) ↦
        rw (e, read_log) (entries-ne-none (suc (length reader)) reader (omega arith))
    | inr (x, e) ↦ rw (e, read_log) (λ h. cc)
  ]

  module _ (crc32_u32 : (bs : Bytes) → crc32 bs < 2 ^ 32) where
    entries-encode_batch :
        (es : List Entry) (fuel : ℕ) (tail : Bytes)
        → All Fits es
        → entries crc32 (rounds es fuel) (encode_batch crc32 es ++ tail)
          ≡ prepend es (entries crc32 fuel tail)
    unfolding encode_batch
    entries-encode_batch [] fuel tail h = sym (prepend_nil _)
    entries-encode_batch (e ∷ es) fuel tail (p, h) =
        rw (append_assoc (encode_entry crc32 e) (encode_batch crc32 es) tail) (
          entries_step (rounds es fuel) _ (encode_batch crc32 es ++ tail) e
            (next-encode_entry crc32 e _ (crc32_u32 _) p)
          ∙ ap (prepend (e ∷ [])) (entries-encode_batch es fuel tail h)
          ∙ prepend_cons e es (entries crc32 fuel tail))

    -- What is left behind the magic number reads as the entries, then as the tail reads.
    pub read_log_tail :
        (es : List Entry) (tail : Bytes)
        → All Fits es
        → next crc32 tail ≡ none
        → read_log crc32 (u32.encode wal_magic ++ (encode_batch crc32 es ++ tail)) ≡ some (ok es)
    unfolding read_log
    read_log_tail es tail h stop =
        rw (try_iter_magic (encode_batch crc32 es ++ tail), read_log)
          (rw
            (fuel_split es (encode_batch crc32 es ++ tail)
              (omega (arith, length-encode_batch es, length-append (encode_batch crc32 es) tail)))
            (entries-encode_batch es _ tail h ∙ rw (stop, entries) (rw (append-nil es))))
