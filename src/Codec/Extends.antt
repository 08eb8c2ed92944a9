-- ===== src/Codec/Extends.antt =====
-- Decoders do not look past what they take: bytes added behind the reader join the rest, and only
-- an end of file can turn into another answer. So a decoder meets the end of file on every proper
-- prefix of what it reads back whole.
use easy_lsm.Base.{
  length-drop, ℕ, zero, suc, ◌+◌, ◌≤◌, ◌<◌, ◌≤◌, ◌≡◌, ◌≢◌, refl, sym, ◌∙◌, ap, [], ◌∷◌, ◌++◌,
  length, take, arith, length-append, append-nil, ◌⊎◌, inl, inr, leb, take-append, drop-append,
  Bool-cases, leb→le, le→leb,
}
use easy_lsm.Error.{Result, DbError, ok, err, io, unexpected_eof, eof, Result-cases}
use easy_lsm.Codec.Reads.{ReadsBack}
use easy_lsm.Codec.{Bytes, Loggable, Reader, ◌>>=◌, read_exact, pure}

pub rest-eq :
    {A : Type 0} {a b : A} {r s : Bytes}
    → ◌≡◌ {A = Result (A × Bytes)} (ok (a, r)) (ok (b, s))
    → r ≡ s
rest-eq {r} = ap λ x. elim x [ ok (c, t) ↦ t | err e ↦ r ]

pub record Extends {A : Type 0} (d : Reader A) : Type 0 where
  pub good :
      (bs more : Bytes) (a : A) (rest : Bytes)
      → d bs ≡ ok (a, rest)
      → d (bs ++ more) ≡ ok (a, rest ++ more)
  pub bad :
      (bs more : Bytes) (e : DbError)
      → d bs ≡ err e
      → e ≢ io unexpected_eof
      → d (bs ++ more) ≡ err e
  pub shrinks : (bs : Bytes) (a : A) (rest : Bytes) → d bs ≡ ok (a, rest) → length rest ≤ length bs

pub pure-Extends : {A : Type 0} (a : A) → Extends (pure a)
pure-Extends a = record {
  good = λ bs more b rest h. cc;
  bad = λ bs more e h n. cc;
  shrinks = λ bs b rest h. omega (arith, ap length (rest-eq h));
}

pub read_exact-length :
    (n : ℕ) (bs : Bytes) (a rest : Bytes)
    → read_exact n bs ≡ ok (a, rest)
    → length rest + n ≡ length bs
unfolding read_exact
read_exact-length n bs a rest h = elim (Bool-cases (leb n (length bs))) [
  | inl e ↦ omega (arith, leb→le n (length bs) e, length-drop n bs, ap length (rest-eq (rw e at h)))
  | inr e ↦ absurd (cc (rw e at h))
]

pub read_exact-Extends : (n : ℕ) → Extends (read_exact n)
unfolding read_exact
read_exact-Extends n = record {
  good = good;
  bad = bad;
  shrinks = λ bs a rest h. omega (arith, read_exact-length n bs a rest h);
}
  where
    good :
        (bs more : Bytes) (a : Bytes) (rest : Bytes)
        → read_exact n bs ≡ ok (a, rest)
        → read_exact n (bs ++ more) ≡ ok (a, rest ++ more)
    good bs more a rest h = elim (Bool-cases (leb n (length bs))) [
      | inl e ↦
          let l : n ≤ length bs = leb→le n (length bs) e in
          rw (le→leb n (length (bs ++ more)) (omega (arith, length-append bs more))) (
            rw (take-append n bs more l, drop-append n bs more l)
              (ap
                (λ (r : Result (Bytes × Bytes)). elim r [
                  | ok (x, y) ↦ ok (x, y ++ more)
                  | err z ↦ err z
                ])
                (rw e at h)))
      | inr e ↦ absurd (cc (rw e at h))
    ]

    bad :
        (bs more : Bytes) (e : DbError)
        → read_exact n bs ≡ err e
        → e ≢ io unexpected_eof
        → read_exact n (bs ++ more) ≡ err e
    bad bs more e h ne = elim (Bool-cases (leb n (length bs))) [
      | inl p ↦ absurd (cc (rw p at h))
      | inr p ↦ absurd (ne (cc (rw p at h)))
    ]

module _ {A B : Type 0} (m : Reader A) (f : A → Reader B) where
  good-step :
      (bs more : Bytes) (b : B) (rest : Bytes)
      → Extends m
      → ((a : A) → Extends (f a))
      → (m >>= f) bs ≡ ok (b, rest)
      → (m >>= f) (bs ++ more) ≡ ok (b, rest ++ more)
  good-step bs more b rest hm hf h = elim (Result-cases (m bs)) [
    | inl ((a, r), e) ↦
        rw (hm.good bs more a r e, ◌>>=◌) ((hf a).good r more b rest (rw (e, ◌>>=◌) at h))
    | inr (x, e) ↦ absurd (cc (rw (e, ◌>>=◌) at h))
  ]

  bad-step :
      (bs more : Bytes) (x : DbError)
      → Extends m
      → ((a : A) → Extends (f a))
      → (m >>= f) bs ≡ err x
      → x ≢ io unexpected_eof
      → (m >>= f) (bs ++ more) ≡ err x
  bad-step bs more x hm hf h ne = elim (Result-cases (m bs)) [
    | inl ((a, r), e) ↦
        rw (hm.good bs more a r e, ◌>>=◌) ((hf a).bad r more x (rw (e, ◌>>=◌) at h) ne)
    | inr (y, e) ↦
        let q : y ≡ x = cc (rw (e, ◌>>=◌) at h) in
        rw (hm.bad bs more y e (λ z. ne (sym q ∙ z)), ◌>>=◌) (ap (λ (z : DbError). err z) q)
  ]

  shrinks-step :
      (bs : Bytes) (b : B) (rest : Bytes)
      → Extends m
      → ((a : A) → Extends (f a))
      → (m >>= f) bs ≡ ok (b, rest)
      → length rest ≤ length bs
  shrinks-step bs b rest hm hf h = elim (Result-cases (m bs)) [
    | inl ((a, r), e) ↦
        omega (arith, hm.shrinks bs a r e, (hf a).shrinks r b rest (rw (e, ◌>>=◌) at h))
    | inr (x, e) ↦ absurd (cc (rw (e, ◌>>=◌) at h))
  ]

  pub >>=-Extends : Extends m → ((a : A) → Extends (f a)) → Extends (m >>= f)
  >>=-Extends hm hf = record {
    good = λ bs more b rest h. good-step bs more b rest hm hf h;
    bad = λ bs more x h ne. bad-step bs more x hm hf h ne;
    shrinks = λ bs b rest h. shrinks-step bs b rest hm hf h;
  }

IsEof-cases : (e : DbError) → (e ≡ io unexpected_eof) ⊎ (e ≢ io unexpected_eof)
IsEof-cases (io unexpected_eof) = inl refl
IsEof-cases e = inr (λ h. cc)

append-cons-ne-nil : (xs : Bytes) (y : ℕ) (ys : Bytes) → xs ++ (y ∷ ys) ≢ []
append-cons-ne-nil [] y ys h = cc
append-cons-ne-nil (x ∷ xs) y ys h = cc

cut-cons :
    (n : ℕ) (bs : Bytes) → n < length bs → (x : ℕ) × (back : Bytes) × (take n bs ++ (x ∷ back) ≡ bs)
cut-cons n [] h = absurd (omega arith)
cut-cons zero (b ∷ bs) h = (b, bs, refl)
cut-cons (suc n) (b ∷ bs) h =
    let (x, back, e) = cut-cons n bs (omega arith) in (x, back, ap (λ (r : Bytes). b ∷ r) e)

-- On a proper prefix of what it takes whole, a decoder meets the end of file.
pub Extends-cut :
    {A : Type 0} (d : Reader A) (front : Bytes) (x : ℕ) (back : Bytes) (a : A)
    → Extends d
    → d (front ++ (x ∷ back)) ≡ ok (a, [])
    → d front ≡ eof
Extends-cut d front x back a ext whole = elim (Result-cases (d front)) [
  | inl ((b, rest), e) ↦ absurd (
      append-cons-ne-nil rest x back
        (sym (rest-eq (sym whole ∙ ext.good front (x ∷ back) b rest e))))
  | inr (e, h) ↦ elim (IsEof-cases e) [
    | inl q ↦ rw (← q) h
    | inr ne ↦ absurd (cc (whole, ext.bad front (x ∷ back) e h ne))
  ]
]

pub ReadsBack-cut :
    {A : Type 0} (l : Loggable A) (a : A) (n : ℕ)
    → Extends l.decode
    → ReadsBack l a
    → n < length (l.encode a)
    → l.decode (take n (l.encode a)) ≡ eof
ReadsBack-cut l a n ext back h =
    let (x, more, e) = cut-cons n (l.encode a) h in
    Extends-cut l.decode (take n (l.encode a)) x more a ext (rw e (rw append-nil at (back [])))
