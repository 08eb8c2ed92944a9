-- ===== src/Codec/Reads.antt =====
-- What a decoder reads back: `Reads d bs a` says that `d` takes the bytes `bs` from the front of
-- any reader, leaves what follows them, and answers `a`.
use easy_lsm.Base.{◌≡◌, ◌++◌, append_assoc}
use easy_lsm.Error.{ok}
use easy_lsm.Codec.{Bytes, Reader, ◌>>=◌, Loggable}

abbrev pub Reads : {A : Type 0} → Reader A → Bytes → A → Type 0
Reads d bs a = (rest : Bytes) → d (bs ++ rest) ≡ ok (a, rest)

-- The value comes back from what its encoder wrote.
abbrev pub ReadsBack : {A : Type 0} → Loggable A → A → Type 0
ReadsBack l a = Reads l.decode (l.encode a) a

pub >>=-Reads :
    {A B : Type 0} (m : Reader A) (f : A → Reader B) (bs cs : Bytes) (a : A) (b : B)
    → Reads m bs a
    → Reads (f a) cs b
    → Reads (m >>= f) (bs ++ cs) b
>>=-Reads m f bs cs a b h k rest = rw (append_assoc bs cs rest, h (cs ++ rest), ◌>>=◌) (k rest)

-- The same where the last part is written at the end.
pub >>=-Reads_last :
    {A B : Type 0} (m : Reader A) (f : A → Reader B) (bs : Bytes) (a : A) (b : B)
    → Reads m bs a
    → ((rest : Bytes) → f a rest ≡ ok (b, rest))
    → Reads (m >>= f) bs b
>>=-Reads_last m f bs a b h k rest = rw (h rest, ◌>>=◌) (k rest)
