-- ===== src/Wal/Torn.antt =====
-- What a log gives back after writes of whole batches, and after a crash inside the last write.
use easy_lsm.Base.{
  ℕ, zero, suc, ◌-◌, ◌^◌, ◌<◌, ◌≤◌, ◌≡◌, refl, sym, ◌∙◌, arith, List, [], ◌∷◌, ◌++◌, length, take,
  append-nil, append_assoc, length-append, ◌==◌, ==_iff, Bool-cases, inl, inr, false, take-append,
  take-append_ge, none, some, All, All-append, dec_lt,
}
use easy_lsm.Error.{ok}
use easy_lsm.Codec.{Bytes, u32, uint, read_exact}
use easy_lsm.Codec.Ints.{uint-ReadsBack, length-to_le_bytes}
use easy_lsm.Wal.{
  Entry, Fits, wal_magic, encode_pair, encode_entry, encode_batch, next, read_log, open_writable,
  write, or_end,
}
use easy_lsm.Wal.Next.{next-cut}
use easy_lsm.Wal.Log.{read_log_tail}

-- The file of a new log.
abbrev pub fresh : Bytes
fresh = u32.encode wal_magic

pub fresh_lem : open_writable [] ≡ ok fresh
unfolding open_writable
fresh_lem = refl

length-fresh : length fresh ≡ 4
unfolding uint
length-fresh = length-to_le_bytes 4 wal_magic

differ : (a b : ℕ) → ((a ≡ b) → ⊥) → (a == b) ≡ false
differ a b h = elim (Bool-cases (a == b)) [ inl e ↦ absurd (h ((==_iff a b).0 e)) | inr e ↦ e ]

All-take {ℓ κ} : {A : Type ℓ} (P : A → Type κ) (n : ℕ) (xs : List A) → All P xs → All P (take n xs)
All-take P zero xs h = tt
All-take P (suc n) [] h = tt
All-take P (suc n) (x ∷ xs) (p, h) = (p, All-take P n xs h)

take-nil {ℓ} : {A : Type ℓ} (n : ℕ) → take {A = A} n [] ≡ []
take-nil zero = refl
take-nil (suc n) = refl

module _ (crc32 : Bytes → ℕ) where
  -- A new log, after each batch was written.
  unfoldable pub session : List (List Entry) → Bytes
  session [] = fresh
  session (batch ∷ earlier) = write (session earlier) (encode_batch crc32 batch)

  -- The entries in the order of their writes; the batch written last stands first in the list.
  abbrev pub in_order : List (List Entry) → List Entry
  in_order [] = []
  in_order (batch ∷ earlier) = in_order earlier ++ batch

  encode_batch-append :
      (xs ys : List Entry)
      → encode_batch crc32 (xs ++ ys) ≡ encode_batch crc32 xs ++ encode_batch crc32 ys
  unfolding encode_batch
  encode_batch-append [] ys = refl
  encode_batch-append (x ∷ xs) ys =
      rw (encode_batch-append xs ys)
        (sym (append_assoc (encode_entry crc32 x) (encode_batch crc32 xs) (encode_batch crc32 ys)))

  session_lem :
      (batches : List (List Entry))
      → session batches ≡ fresh ++ encode_batch crc32 (in_order batches)
  unfolding session write encode_batch
  session_lem [] = sym (append-nil fresh)
  session_lem (batch ∷ earlier) =
      rw (session_lem earlier, encode_batch-append (in_order earlier) batch)
        (append_assoc fresh (encode_batch crc32 (in_order earlier)) (encode_batch crc32 batch))

  open_fresh : (rest : Bytes) → open_writable (fresh ++ rest) ≡ ok (fresh ++ rest)
  unfolding open_writable
  open_fresh rest =
      let n = length (fresh ++ rest) in
      let some_bytes : n ≡ 0 → ⊥ = λ e. omega (arith, e, length-append fresh rest, length-fresh) in
      rw (differ n 0 some_bytes, open_writable)
        (rw (uint-ReadsBack 4 wal_magic (omega arith) rest, open_writable))

  -- A log that was written is accepted as it is when it is opened for writing again.
  pub open_writable-session :
      (batches : List (List Entry)) → open_writable (session batches) ≡ ok (session batches)
  open_writable-session batches =
      rw (session_lem batches) (open_fresh (encode_batch crc32 (in_order batches)))

  next_nil : next crc32 [] ≡ none
  unfolding next or_end uint read_exact
  next_nil = refl

  in_order-Fits :
      (batches : List (List Entry)) → All (All Fits) batches → All Fits (in_order batches)
  in_order-Fits [] h = tt
  in_order-Fits (batch ∷ earlier) (p, h) =
      All-append Fits (in_order earlier) batch (in_order-Fits earlier h) p

  module _ (crc32_u32 : (bs : Bytes) → crc32 bs < 2 ^ 32) where
    -- Durability: a log into which any number of batches was written reads back as their entries,
    -- all of them and in order, where the keys and values fit their length fields and the checksum
    -- 32 bits.
    pub read_log-session :
        (batches : List (List Entry))
        → All (All Fits) batches
        → read_log crc32 (session batches) ≡ some (ok (in_order batches))
    read_log-session batches h = rw (session_lem batches) (
        rw (append-nil (encode_batch crc32 (in_order batches))) at
          (read_log_tail crc32 crc32_u32 (in_order batches) [] (in_order-Fits batches h) next_nil))

    batch_cut :
        (es : List Entry) (n : ℕ)
        → All Fits es
        → (k : ℕ) × (tail : Bytes) × (k ≤ length es)
          × (take n (encode_batch crc32 es) ≡ encode_batch crc32 (take k es) ++ tail)
          × (next crc32 tail ≡ none)
    unfolding encode_batch
    batch_cut [] n h = (0, [], omega arith, take-nil n, next_nil)
    batch_cut (e ∷ es) n (p, h) = elim (dec_lt n (length (encode_entry crc32 e))) [
      | yes cut ↦ (
        0,
        take n (encode_entry crc32 e),
        omega arith,
        take-append n (encode_entry crc32 e) (encode_batch crc32 es) (omega arith),
        next-cut crc32 e n (crc32_u32 (encode_pair e)) p cut,
      )
      | no whole ↦
          let (k, tail, le, eq, stop) = batch_cut es (n - length (encode_entry crc32 e)) h in
          (
            suc k,
            tail,
            omega arith,
            take-append_ge n (encode_entry crc32 e) (encode_batch crc32 es) (omega arith)
                ∙ rw eq (
                    sym
                      (append_assoc (encode_entry crc32 e) (encode_batch crc32 (take k es)) tail)),
            stop,
          )
    ]

    -- A crash inside the write of a batch, after any number of its bytes: the log reads as all
    -- batches before it and the first entries of the torn one, with no error, where the
    -- keys and values fit their length fields and the checksum 32 bits.
    pub read_log-torn :
        (batches : List (List Entry)) (es : List Entry) (n : ℕ)
        → All (All Fits) batches
        → All Fits es
        → (k : ℕ) × (k ≤ length es)
          × (read_log crc32 (write (session batches) (take n (encode_batch crc32 es)))
              ≡ some (ok (in_order batches ++ take k es)))
    unfolding write
    read_log-torn batches es n h hs =
        let (k, tail, le, eq, stop) = batch_cut es n hs in
        (
          k,
          le,
          rw (session_lem batches, eq)
              (rw (regroup (in_order batches) (take k es) tail) (
                read_log_tail crc32 crc32_u32 (in_order batches ++ take k es) tail
                  (All-append Fits (in_order batches) (take k es) (in_order-Fits batches h)
                    (All-take Fits k es hs))
                  stop)),
        )
      where
        regroup :
            (xs ys : List Entry) (tail : Bytes)
            → (fresh ++ encode_batch crc32 xs) ++ (encode_batch crc32 ys ++ tail)
              ≡ fresh ++ (encode_batch crc32 (xs ++ ys) ++ tail)
        regroup xs ys tail = rw (encode_batch-append xs ys) (simp append_assoc)
