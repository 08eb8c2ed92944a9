-- ===== src/Key/RoundTrip.antt =====
-- A key comes back as it was written.
use native.Mathlib.Nat.{mod-eq_of_lt}
use easy_lsm.Base.{◌%◌, ◌^◌, length, refl}
use easy_lsm.Codec.{read_exact, u16, u64}
use easy_lsm.Codec.Reads.{ReadsBack, >>=-Reads, >>=-Reads_last}
use easy_lsm.Codec.Ints.{uint-ReadsBack, uint-Extends, read_exact-Reads}
use easy_lsm.Codec.Extends.{Extends, >>=-Extends, pure-Extends, read_exact-Extends}
use easy_lsm.Key.{Key, loggable, Fits}

-- A key whose length fits its 16 bits and whose LSN fits 64 reads back as itself, and what follows
-- it is left to the reader.
pub key-ReadsBack : (key : Key) → Fits key → ReadsBack loggable key
unfolding loggable
key-ReadsBack key fits =
    >>=-Reads u64.decode _ (u64.encode key.lsn) _ key.lsn key
      (uint-ReadsBack 8 key.lsn fits.lsn_u64)
      (>>=-Reads u16.decode _ (u16.encode (length key.bytes % 2 ^ 16)) key.bytes (length key.bytes)
        key (rw (mod-eq_of_lt fits.short) (uint-ReadsBack 2 (length key.bytes) fits.short))
        (>>=-Reads_last (read_exact (length key.bytes)) _ key.bytes key.bytes key
          (read_exact-Reads (length key.bytes) key.bytes refl) (λ rest. refl)))

pub loggable-Extends : Extends loggable.decode
unfolding loggable
loggable-Extends = >>=-Extends u64.decode _ (uint-Extends 8) (λ lsn.
    >>=-Extends u16.decode _ (uint-Extends 2)
      (λ n. >>=-Extends (read_exact n) _ (read_exact-Extends n) (λ bytes. pure-Extends _)))
