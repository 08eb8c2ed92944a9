-- ===== src/Wal/Next.antt =====
-- One step of the log's iterator, on what `encode_entry` wrote and on a part of it.
use easy_lsm.Base.{
  ℕ, ◌-◌, ◌^◌, ◌<◌, ◌≡◌, ◌≢◌, refl, ◌∙◌, arith, ◌++◌, length, take, length-append, take-append,
  take_all, take-append_ge, Bool-cases, inl, inr, ◌==◌, ==_iff, ==_self, Option, none, some, dec_lt,
  append_assoc,
}
use easy_lsm.Error.{Result, ok, err, data_corrupted, eof}
use easy_lsm.Codec.{Bytes, u32, uint}
use easy_lsm.Codec.Ints.{uint-ReadsBack, uint-Extends, length-to_le_bytes}
use easy_lsm.Codec.Extends.{ReadsBack-cut}
use easy_lsm.Key
use easy_lsm.Key.{Key}
use easy_lsm.Key.RoundTrip.{key-ReadsBack, loggable-Extends as key-Extends}
use easy_lsm.Value
use easy_lsm.Value.{Value}
use easy_lsm.Value.RoundTrip.{value-ReadsBack, loggable-Extends as value-Extends}
use easy_lsm.Wal.{Entry, Fits, encode_pair, encode_entry, next, consumed, or_end, check_crc}

pub consumed-append : (bs rest : Bytes) → consumed (bs ++ rest) rest ≡ bs
unfolding consumed
consumed-append bs rest =
    let e : length (bs ++ rest) - length rest ≡ length bs = omega (arith, length-append bs rest) in
    rw e (take-append (length bs) bs rest (omega arith) ∙ take_all (length bs) bs refl)

or_end_ok {ℓ κ} :
    {A : Type ℓ} {B : Type κ} (r : Result A) (a : A) (f : A → Option (Result B))
    → r ≡ ok a
    → or_end r f ≡ f a
unfolding or_end
or_end_ok r a f h = rw h

or_end-eof {ℓ κ} :
    {A : Type ℓ} {B : Type κ} (r : Result A) (f : A → Option (Result B))
    → r ≡ eof
    → or_end r f ≡ none
unfolding or_end
or_end-eof r f h = rw h

pub u32-length : (x : ℕ) → length (u32.encode x) ≡ 4
unfolding uint
u32-length x = length-to_le_bytes 4 x

module _ (crc32 : Bytes → ℕ) where
  -- The reader stands at an entry whose checksum field reads `stored`.
  pub next_stored :
      (stored : ℕ) (e : Entry) (rest : Bytes)
      → stored < 2 ^ 32
      → Fits e
      → next crc32 (u32.encode stored ++ (encode_pair e ++ rest))
        ≡ check_crc crc32 stored (encode_pair e ++ rest) e rest
  unfolding next encode_pair
  next_stored stored (key, value) rest small (fk, fv) =
      or_end_ok {A = ℕ × Bytes} _ (stored, encode_pair (key, value) ++ rest) _
        (uint-ReadsBack 4 stored small _)
      ∙ or_end_ok {A = Key × Bytes}
          (Key.loggable.decode ((Key.loggable.encode key ++ Value.loggable.encode value) ++ rest))
          (key, Value.loggable.encode value ++ rest) _ (rw append_assoc (key-ReadsBack key fk _))
      ∙ or_end_ok {A = Value × Bytes} _ (value, rest) _ (value-ReadsBack value fv rest)

  pub next-encode_entry :
      (e : Entry) (rest : Bytes)
      → crc32 (encode_pair e) < 2 ^ 32
      → Fits e
      → next crc32 (encode_entry crc32 e ++ rest) ≡ some (ok (e, rest))
  unfolding encode_entry check_crc
  next-encode_entry e rest small fits =
      rw (append_assoc (u32.encode (crc32 (encode_pair e))) (encode_pair e) rest) (
        next_stored (crc32 (encode_pair e)) e rest small fits
        ∙ rw (consumed-append (encode_pair e) rest, ==_self (crc32 (encode_pair e))))

  -- An entry that fits its fields, behind a checksum field that is not its checksum, is reported as
  -- corrupt, whatever follows it.
  pub next-bad_crc :
      (stored : ℕ) (e : Entry) (rest : Bytes)
      → stored < 2 ^ 32
      → Fits e
      → crc32 (encode_pair e) ≢ stored
      → next crc32 (u32.encode stored ++ (encode_pair e ++ rest))
        ≡ some (err (data_corrupted "CRC mismatch"))
  unfolding check_crc
  next-bad_crc stored e rest small fits ne =
      next_stored stored e rest small fits
      ∙ rw (consumed-append (encode_pair e) rest)
          (elim (Bool-cases (crc32 (encode_pair e) == stored)) [
            | inl h ↦ absurd (ne ((==_iff (crc32 (encode_pair e)) stored).0 h))
            | inr h ↦ rw h
          ])

  in_crc :
      (stored : ℕ) (bs : Bytes) (n : ℕ)
      → stored < 2 ^ 32
      → n < 4
      → next crc32 (take n (u32.encode stored ++ bs)) ≡ none
  unfolding next
  in_crc stored bs n small p =
      or_end-eof {A = ℕ × Bytes} (u32.decode (take n (u32.encode stored ++ bs))) _ (
        rw (take-append n (u32.encode stored) bs (omega (arith, u32-length stored))) (
          ReadsBack-cut u32 stored n (uint-Extends 4) (uint-ReadsBack 4 stored small)
            (omega (arith, u32-length stored))))

  in_value :
      (stored : ℕ) (key : Key) (value : Value) (n : ℕ)
      → stored < 2 ^ 32
      → Fits (key, value)
      → n < length (Value.loggable.encode value)
      → next crc32
          (u32.encode stored ++ (Key.loggable.encode key ++ take n (Value.loggable.encode value)))
        ≡ none
  unfolding next
  in_value stored key value n small (fk, fv) h =
      or_end_ok {A = ℕ × Bytes} _ (stored, _) _ (uint-ReadsBack 4 stored small _)
      ∙ or_end_ok {A = Key × Bytes} _ (key, _) _ (key-ReadsBack key fk _)
      ∙ or_end-eof _ _
          (ReadsBack-cut Value.loggable value n value-Extends (value-ReadsBack value fv) h)

  in_key :
      (stored : ℕ) (key : Key) (n : ℕ)
      → stored < 2 ^ 32
      → Key.Fits key
      → n < length (Key.loggable.encode key)
      → next crc32 (u32.encode stored ++ take n (Key.loggable.encode key)) ≡ none
  unfolding next
  in_key stored key n small fk h =
      or_end_ok {A = ℕ × Bytes} _ (stored, _) _ (uint-ReadsBack 4 stored small _)
      ∙ or_end-eof _ _ (ReadsBack-cut Key.loggable key n key-Extends (key-ReadsBack key fk) h)

  in_pair :
      (stored : ℕ) (e : Entry) (n : ℕ)
      → stored < 2 ^ 32
      → Fits e
      → n < length (encode_pair e)
      → next crc32 (u32.encode stored ++ take n (encode_pair e)) ≡ none
  unfolding encode_pair
  in_pair stored (key, value) n small fits h = elim (dec_lt n (length (Key.loggable.encode key))) [
    | yes p ↦
        rw (take-append n (Key.loggable.encode key) (Value.loggable.encode value) (omega arith))
          (in_key stored key n small fits.0 p)
    | no p ↦
        rw (take-append_ge n (Key.loggable.encode key) (Value.loggable.encode value) (omega arith))
          (in_value stored key value _ small fits
            (omega (arith, length-append (Key.loggable.encode key) (Value.loggable.encode value))))
  ]

  -- An entry that is cut short ends the log, wherever it is cut.
  pub next-cut :
      (e : Entry) (n : ℕ)
      → crc32 (encode_pair e) < 2 ^ 32
      → Fits e
      → n < length (encode_entry crc32 e)
      → next crc32 (take n (encode_entry crc32 e)) ≡ none
  unfolding encode_entry
  next-cut e n small fits h = elim (dec_lt n 4) [
    | yes p ↦ in_crc (crc32 (encode_pair e)) (encode_pair e) n small p
    | no p ↦
        rw
          (take-append_ge n (u32.encode (crc32 (encode_pair e))) (encode_pair e)
            (omega (arith, u32-length (crc32 (encode_pair e)))))
          (in_pair (crc32 (encode_pair e)) e _ small fits (
            omega (
              arith,
              u32-length (crc32 (encode_pair e)),
              length-append (u32.encode (crc32 (encode_pair e))) (encode_pair e),
            )))
  ]
