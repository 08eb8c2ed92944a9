-- ===== src/Manifest/RoundTrip.antt =====
-- A manifest comes back as it was written, and a body that does not match its checksum is refused.
use native.Mathlib.Nat.{mod-eq_of_lt}
use easy_lsm.Base.{
  ℕ, ◌%◌, ◌^◌, ◌<◌, List, [], ◌∷◌, ◌++◌, length, ◌≡◌, refl, arith, All, Bool, true, ==_self,
  append-nil,
}
use easy_lsm.Error.{ok}
use easy_lsm.Codec.{Bytes, u32, vec, ◌>>=◌, Reader}
use easy_lsm.Codec.Reads.{Reads, ReadsBack, >>=-Reads, >>=-Reads_last}
use easy_lsm.Codec.Ints.{uint-ReadsBack, read_exact-Reads}
use easy_lsm.Codec.Vectors.{vec-ReadsBack}
use easy_lsm.Key
use easy_lsm.Key.{Key}
use easy_lsm.Key.RoundTrip.{key-ReadsBack}
use easy_lsm.Manifest.{
  FileMetadata, Level, Manifest, file_loggable, level_loggable, encode_body, of_buffer, decode_body,
  require, read_body, read_counts, read_version, read_sizes, loggable, FileFits, LevelFits, Fits,
  manifest_magic, manifest_format_version,
}

pub file-ReadsBack : (f : FileMetadata) → FileFits f → ReadsBack file_loggable f
unfolding file_loggable
file-ReadsBack f (id, size, min, max) =
    >>=-Reads u32.decode _ (u32.encode f.file_id) _ f.file_id f (uint-ReadsBack 4 f.file_id id) (
      >>=-Reads u32.decode _ (u32.encode f.file_size) _ f.file_size f
        (uint-ReadsBack 4 f.file_size size)
        (>>=-Reads Key.loggable.decode _ (Key.loggable.encode f.min_key) _ f.min_key f
          (key-ReadsBack f.min_key min)
          (>>=-Reads_last Key.loggable.decode _ (Key.loggable.encode f.max_key) f.max_key f
            (key-ReadsBack f.max_key max) (λ rest. refl))))

files-ReadsBack : (fs : List FileMetadata) → All FileFits fs → All (ReadsBack file_loggable) fs
files-ReadsBack [] h = tt
files-ReadsBack (f ∷ fs) (p, h) = (file-ReadsBack f p, files-ReadsBack fs h)

level-ReadsBack : (l : Level) → LevelFits l → ReadsBack level_loggable l
unfolding level_loggable
level-ReadsBack l (n, h) =
    >>=-Reads_last (vec file_loggable).decode _ ((vec file_loggable).encode l.files) l.files l
      (vec-ReadsBack file_loggable l.files n (files-ReadsBack l.files h)) (λ rest. refl)

levels-ReadsBack : (ls : List Level) → All LevelFits ls → All (ReadsBack level_loggable) ls
levels-ReadsBack [] h = tt
levels-ReadsBack (l ∷ ls) (p, h) = (level-ReadsBack l p, levels-ReadsBack ls h)

wals-ReadsBack : (ids : List ℕ) → All (λ (id : ℕ). id < 2 ^ 32) ids → All (ReadsBack u32) ids
wals-ReadsBack [] h = tt
wals-ReadsBack (id ∷ ids) (p, h) = (uint-ReadsBack 4 id p, wals-ReadsBack ids h)

-- What a manifest file keeps: the lists, and none of the counters.
abbrev pub stored : Manifest → Manifest
stored m = record m { next_wal_id = 0; next_sstable_id = 0; version = 0 }

body-Reads : (m : Manifest) → Fits m → Reads decode_body (encode_body m) (stored m)
unfolding decode_body encode_body
body-Reads m v =
    >>=-Reads (vec u32).decode _ ((vec u32).encode m.wals) _ m.wals (stored m)
      (vec-ReadsBack u32 m.wals v.wal_count (wals-ReadsBack m.wals v.wal_ids))
      (>>=-Reads_last (vec level_loggable).decode _ ((vec level_loggable).encode m.levels) m.levels
        (stored m)
        (vec-ReadsBack level_loggable m.levels v.level_count
          (levels-ReadsBack m.levels v.level_sizes))
        (λ rest. refl))

of_buffer-body : (m : Manifest) → Fits m → of_buffer (encode_body m) ≡ ok (stored m)
unfolding of_buffer
of_buffer-body m v =
    let e : decode_body (encode_body m) ≡ ok (stored m, []) =
      rw (append-nil (encode_body m)) at (body-Reads m v []) in
    rw (e, of_buffer)

require-Reads : (test : Bool) → test ≡ true → (rest : Bytes) → require test rest ≡ ok (tt, rest)
unfolding require
require-Reads test e rest = rw e

checked-Reads :
    {A : Type 0} (test : Bool) (next : Reader A) (bs : Bytes) (a : A)
    → test ≡ true
    → Reads next bs a
    → Reads (require test >>= λ _. next) bs a
unfolding require
checked-Reads test next bs a e h rest = rw (e, ◌>>=◌) (h rest)

u32_of_length :
    {A : Type 0} (xs : List A)
    → length xs < 2 ^ 32
    → Reads u32.decode (u32.encode (length xs % 2 ^ 32)) (length xs)
u32_of_length xs h = rw (mod-eq_of_lt h) (uint-ReadsBack 4 (length xs) h)

module _ (crc32 : Bytes → ℕ) where
  body_buf-Reads :
      (m : Manifest)
      → Fits m
      → Reads
          (read_body crc32 (crc32 (encode_body m)) (length (encode_body m)))
          (encode_body m)
          (stored m)
  unfolding read_body require
  body_buf-Reads m v rest =
      rw (read_exact-Reads (length (encode_body m)) (encode_body m) refl rest, ◌>>=◌)
        (rw (==_self (crc32 (encode_body m)), of_buffer-body m v))

  -- Decoding an encoded manifest gives its logs and levels back and takes exactly its bytes, with
  -- the counters and the version reset, where every list and number fits its field.
  pub manifest-ReadsBack :
      (m : Manifest)
      → Fits m
      → crc32 (encode_body m) < 2 ^ 32
      → Reads (loggable crc32).decode ((loggable crc32).encode m) (stored m)
  unfolding loggable read_sizes read_version read_counts
  manifest-ReadsBack m v crc =
      >>=-Reads u32.decode _ (u32.encode manifest_magic) _ manifest_magic (stored m)
        (uint-ReadsBack 4 manifest_magic (omega arith))
        (checked-Reads _ (read_sizes crc32) _ (stored m) (==_self manifest_magic) sizes)
    where
      counts :
          Reads
            (read_counts crc32 (crc32 (encode_body m)) (length (encode_body m)))
            (u32.encode (length m.wals % 2 ^ 32)
              ++ (u32.encode (length m.levels % 2 ^ 32) ++ encode_body m))
            (stored m)
      counts =
          >>=-Reads u32.decode _ (u32.encode (length m.wals % 2 ^ 32)) _ (length m.wals) (stored m)
            (u32_of_length m.wals v.wal_count)
            (>>=-Reads u32.decode _ (u32.encode (length m.levels % 2 ^ 32)) _ (length m.levels)
              (stored m) (u32_of_length m.levels v.level_count) (body_buf-Reads m v))

      sizes :
          Reads
            (read_sizes crc32)
            (u32.encode (crc32 (encode_body m))
              ++ (u32.encode (length (encode_body m) % 2 ^ 32)
                  ++ (u32.encode manifest_format_version
                      ++ (u32.encode (length m.wals % 2 ^ 32)
                          ++ (u32.encode (length m.levels % 2 ^ 32) ++ encode_body m)))))
            (stored m)
      sizes =
          >>=-Reads u32.decode _ (u32.encode (crc32 (encode_body m))) _ (crc32 (encode_body m))
            (stored m) (uint-ReadsBack 4 (crc32 (encode_body m)) crc)
            (>>=-Reads u32.decode _ (u32.encode (length (encode_body m) % 2 ^ 32)) _
              (length (encode_body m)) (stored m) (u32_of_length (encode_body m) v.body_size)
              (>>=-Reads u32.decode _ (u32.encode manifest_format_version) _ manifest_format_version
                (stored m) (uint-ReadsBack 4 manifest_format_version (omega arith))
                (checked-Reads _
                  (read_counts crc32 (crc32 (encode_body m)) (length (encode_body m))) _ (stored m)
                  (==_self manifest_format_version) counts)))
