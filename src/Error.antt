-- ===== src/Error.antt =====
-- err.rs: the database's errors, and the results that carry them.
use easy_lsm.Base.{String, ◌≡◌, refl, ◌⊎◌, inl, inr}

-- The kinds of `std::io::Error` that the code tells apart or makes.
pub data IoError : Type 0 where
  unexpected_eof not_found : IoError
  other : String → IoError

-- A message that the source formats with values stands here for its fixed words.
pub data DbError : Type 0 where
  io : IoError → DbError
  key_not_found directory_not_found : String → DbError
  manifest_not_found : DbError
  manifest_read_error : String → DbError
  manifest_corrupted writer_panic : DbError
  data_corrupted unimplemented : String → DbError

pub data Result {ℓ} (A : Type ℓ) : Type ℓ where
  ok : A → Result A
  err : DbError → Result A

infixl 5 ◌>>=◌ ◌>>◌
abbrev pub ◌>>=◌ {ℓ κ} : {A : Type ℓ} {B : Type κ} → Result A → (A → Result B) → Result B
ok a >>= f = f a
err e >>= f = err e

abbrev pub ◌>>◌ {ℓ κ} : {A : Type ℓ} {B : Type κ} → Result A → Result B → Result B
m >> k = m >>= λ _. k

abbrev pub eof {ℓ} : {A : Type ℓ} → Result A
eof = err (io unexpected_eof)

pub Result-cases {ℓ} :
    {A : Type ℓ} (r : Result A) → ((a : A) × (r ≡ ok a)) ⊎ ((e : DbError) × (r ≡ err e))
Result-cases (ok a) = inl (a, refl)
Result-cases (err e) = inr (e, refl)
