-- ===== src/Codec/Consumes.antt =====
-- Readers that take at least so many bytes where they succeed.
use easy_lsm.Base.{ℕ, ◌+◌, ◌≤◌, length, ◌≡◌, arith, inl, inr}
use easy_lsm.Error.{ok, Result-cases}
use easy_lsm.Codec.{Bytes, Reader, ◌>>=◌}
use easy_lsm.Codec.Extends.{Extends}

abbrev pub Consumes : {A : Type 0} → Reader A → ℕ → Type 0
Consumes {A} d n =
    (bs : Bytes) (a : A) (rest : Bytes) → d bs ≡ ok (a, rest) → length rest + n ≤ length bs

pub >>=-Consumes :
    {A B : Type 0} (m : Reader A) (f : A → Reader B) (n : ℕ)
    → Consumes m n
    → ((a : A) → Extends (f a))
    → Consumes (m >>= f) n
>>=-Consumes m f n hm hf bs b rest h = elim (Result-cases (m bs)) [
  | inl ((a, r), e) ↦ omega (arith, hm bs a r e, (hf a).shrinks r b rest (rw (e, ◌>>=◌) at h))
  | inr (x, e) ↦ absurd (cc (rw (e, ◌>>=◌) at h))
]
