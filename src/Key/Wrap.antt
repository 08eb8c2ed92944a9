-- ===== src/Key/Wrap.antt =====
-- key.rs: what is read back of a key of any length.
use easy_lsm.Base.{
  ℕ, ◌<◌, ◌%◌, ◌^◌, ◌++◌, length, take, drop, length-take, take-append-drop, ◌≡◌, sym, ap, ◌∙◌,
  arith, append_assoc,
}
use native.Mathlib.Nat.{mod-eq_of_lt, mod-lt}
use easy_lsm.Error.{ok}
use easy_lsm.Codec.{Bytes, u16, u64}
use easy_lsm.Key.{Key, Fits, loggable}
use easy_lsm.Key.RoundTrip.{key-ReadsBack}

regroup :
    (a b front back rest : Bytes)
    → (a ++ (b ++ (front ++ back))) ++ rest ≡ (a ++ (b ++ front)) ++ (back ++ rest)
regroup a b front back rest = simp append_assoc

-- The length of a key is written in 16 bits. What is read of a key of any length is its first bytes,
-- as many as the length modulo 65,536; the others are left in the reader, in front of what follows.
pub decode-encode :
    (key : Key) (rest : Bytes)
    → key.lsn < 2 ^ 64
    → loggable.decode (loggable.encode key ++ rest)
      ≡ ok (
        record { lsn = key.lsn; bytes = take (length key.bytes % 2 ^ 16) key.bytes },
        drop (length key.bytes % 2 ^ 16) key.bytes ++ rest,
      )
unfolding loggable
decode-encode key rest h =
    let n = length key.bytes % 2 ^ 16 in
    let front = take n key.bytes in
    let back = drop n key.bytes in
    let short : Key = record { lsn = key.lsn; bytes = front } in
    let small : n < 2 ^ 16 = mod-lt (length key.bytes) (omega arith) in
    let size : length front ≡ n = length-take n key.bytes (omega arith) in
    let fits : Fits short = record { lsn_u64 = h; short = omega arith } in
    let split : loggable.encode key ++ rest ≡ loggable.encode short ++ (back ++ rest) =
      ap (λ (b : Bytes). (u64.encode key.lsn ++ (u16.encode n ++ b)) ++ rest)
        (sym (take-append-drop n key.bytes))
      ∙ regroup (u64.encode key.lsn) (u16.encode n) front back rest
      ∙ ap (λ (m : ℕ). (u64.encode key.lsn ++ (u16.encode m ++ front)) ++ (back ++ rest))
          (sym (mod-eq_of_lt fits.short ∙ size)) in
    ap loggable.decode split ∙ key-ReadsBack short fits (back ++ rest)
