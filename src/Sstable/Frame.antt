-- ===== src/Sstable/Frame.antt =====
-- A wrapped part of a table's file is read back at its offset, whatever stands around it.
use easy_lsm.Base.{
  ℕ, ◌+◌, ◌%◌, ◌^◌, ◌<◌, ◌++◌, length, drop, drop-append, drop_all, append_assoc, length-append,
  ◌≡◌, sym, ◌∙◌, arith, ==_self,
}
use easy_lsm.Error.{ok}
use easy_lsm.Codec.{Bytes, u32, uint, from_le_bytes, read_exact}
use easy_lsm.Codec.Ints.{read_exact-Reads, length-to_le_bytes, from_le_bytes-to_le_bytes}
use easy_lsm.Sstable.Writer.{wrap}
use easy_lsm.Sstable.Table.{read_exact_at, read_block_with_crc_at}

-- Bytes at an offset.
pub read_exact_at_lem :
    (pre bs post file : Bytes) (offset n : ℕ)
    → file ≡ pre ++ (bs ++ post)
    → offset ≡ length pre
    → n ≡ length bs
    → read_exact_at offset n file ≡ ok bs
unfolding read_exact_at
read_exact_at_lem pre bs post file offset n whole at size =
    let behind : drop offset file ≡ bs ++ post =
      rw whole (drop-append offset pre (bs ++ post) (omega arith) ∙ rw (drop_all offset pre at)) in
    let read : read_exact n (drop offset file) ≡ ok (bs, post) =
      rw behind (read_exact-Reads n bs size post) in
    rw (read, read_exact_at)

length-u32 : (x : ℕ) → length (u32.encode x) ≡ 4
unfolding uint
length-u32 x = length-to_le_bytes 4 x

u32_back : (x : ℕ) → x < 2 ^ 32 → from_le_bytes (u32.encode x) ≡ x
unfolding uint
u32_back x h = from_le_bytes-to_le_bytes 4 x (omega arith)

module _ (crc32 : Bytes → ℕ) where
  pub length-wrap : (bs : Bytes) → length (wrap crc32 bs) ≡ 8 + length bs
  unfolding wrap
  length-wrap bs = omega (
    arith,
    length-append (u32.encode (length bs % 2 ^ 32)) (u32.encode (crc32 bs) ++ bs),
    length-append (u32.encode (crc32 bs)) bs,
    length-u32 (length bs % 2 ^ 32),
    length-u32 (crc32 bs),
  )

  pub read_block_lem :
      (pre bs post file : Bytes) (offset : ℕ)
      → file ≡ pre ++ (wrap crc32 bs ++ post)
      → offset ≡ length pre
      → length bs < 2 ^ 32
      → crc32 bs < 2 ^ 32
      → read_block_with_crc_at crc32 file offset ≡ ok bs
  unfolding read_block_with_crc_at wrap
  read_block_lem pre bs post file offset whole at size crc =
      let len_buf = u32.encode (length bs % 2 ^ 32) in
      let crc_buf = u32.encode (crc32 bs) in
      let a : file ≡ pre ++ (len_buf ++ (crc_buf ++ (bs ++ post))) = whole ∙ simp append_assoc in
      let b : file ≡ (pre ++ len_buf) ++ (crc_buf ++ (bs ++ post)) = whole ∙ simp append_assoc in
      let c : file ≡ ((pre ++ len_buf) ++ crc_buf) ++ (bs ++ post) = whole ∙ simp append_assoc in
      let small : length bs % 2 ^ 32 ≡ length bs = omega arith in
      rw
        (
          read_exact_at_lem pre len_buf _ file offset 4 a at (sym (length-u32 _)),
          read_block_with_crc_at,
        )
        (rw
          (read_exact_at_lem (pre ++ len_buf) crc_buf _ file (offset + 4) 4 b
            (omega (arith, length-append pre len_buf, length-u32 (length bs % 2 ^ 32)))
            (sym (length-u32 _)))
          (rw
            (read_exact_at_lem ((pre ++ len_buf) ++ crc_buf) bs post file (offset + 8)
              (from_le_bytes len_buf) c
              (omega (
                arith,
                length-append (pre ++ len_buf) crc_buf,
                length-append pre len_buf,
                length-u32 (length bs % 2 ^ 32),
                length-u32 (crc32 bs),
              ))
              (u32_back (length bs % 2 ^ 32) (omega arith) ∙ small))
            (rw (u32_back (crc32 bs) crc) (rw (==_self (crc32 bs))))))
