-- ===== src/Locks/Postgres/Key.antt =====
-- The key of a scope fits PostgreSQL's signed 64-bit key space, and loses nothing of the digest.
use cogindex.Base.{
  ℕ, ◌+◌, ◌-◌, ◌*◌, ◌<◌, List, [], ◌∷◌, Text, ltb, ◌≡◌, refl, sym, ◌∙◌, arith, ok, length,
  ok-injective, >>=-eq-ok, Bool-cases, inl, inr,
}
use mathlib.Core.Path.{subst}
use cogindex.Identity.Utf8.{utf8}
use cogindex.Locks.{validate_scope}
use cogindex.Locks.Postgres.{Signed, pos, negsuc, big_endian, signed64, advisory_lock_key}

-- -(2 ^ 63) ≤ key < 2 ^ 63
abbrev pub IsSigned64 : Signed → Type 0
IsSigned64 (pos n) = n < 9223372036854775808
IsSigned64 (negsuc n) = n < 9223372036854775808

abbrev pub AreBytes : List ℕ → Type 0
AreBytes [] = Unit
AreBytes (b ∷ bs) = (b < 256) × AreBytes bs

signed64-IsSigned64 : (u : ℕ) → u < 18446744073709551616 → IsSigned64 (signed64 u)
unfolding signed64
signed64-IsSigned64 u h = elim (Bool-cases (ltb u 9223372036854775808)) [
  | inl q ↦ rw q (ground arith)
  | inr q ↦ rw q (ground arith)
]

eight_bytes : (bs : List ℕ) → length bs ≡ 8 → AreBytes bs → big_endian 0 bs < 18446744073709551616
unfolding big_endian
eight_bytes (a ∷ b ∷ c ∷ d ∷ e ∷ f ∷ g ∷ h ∷ []) n
      (ha, (hb, (hc, (hd, (he, (hf, (hg, (hh, done)))))))) =
    omega arith
eight_bytes [] n h = absurd (cc n)
eight_bytes (a ∷ []) n h = absurd (cc n)
eight_bytes (a ∷ b ∷ []) n h = absurd (cc n)
eight_bytes (a ∷ b ∷ c ∷ []) n h = absurd (cc n)
eight_bytes (a ∷ b ∷ c ∷ d ∷ []) n h = absurd (cc n)
eight_bytes (a ∷ b ∷ c ∷ d ∷ e ∷ []) n h = absurd (cc n)
eight_bytes (a ∷ b ∷ c ∷ d ∷ e ∷ f ∷ []) n h = absurd (cc n)
eight_bytes (a ∷ b ∷ c ∷ d ∷ e ∷ f ∷ g ∷ []) n h = absurd (cc n)
eight_bytes (a ∷ b ∷ c ∷ d ∷ e ∷ f ∷ g ∷ i ∷ j ∷ rest) n h = absurd (omega arith)

big_endian-injective :
    (acc acc' : ℕ) (bs cs : List ℕ)
    → length bs ≡ length cs
    → AreBytes bs
    → AreBytes cs
    → big_endian acc bs ≡ big_endian acc' cs
    → (acc ≡ acc') × (bs ≡ cs)
unfolding big_endian
big_endian-injective acc acc' [] [] n hb hc e = (e, refl)
big_endian-injective acc acc' [] (c ∷ cs) n hb hc e = absurd (cc n)
big_endian-injective acc acc' (b ∷ bs) [] n hb hc e = absurd (cc n)
big_endian-injective acc acc' (b ∷ bs) (c ∷ cs) n (hb, hbs) (hc, hcs) e =
    let shorter : length bs ≡ length cs = omega arith in
    let (heads, tails) =
      big_endian-injective (acc * 256 + b) (acc' * 256 + c) bs cs shorter hbs hcs e in
    let accs : acc ≡ acc' = omega arith in
    let bytes : b ≡ c = omega arith in (accs, rw (bytes, tails) refl)

signed64-injective :
    (u v : ℕ)
    → u < 18446744073709551616
    → v < 18446744073709551616
    → signed64 u ≡ signed64 v
    → u ≡ v
unfolding signed64
signed64-injective u v hu hv e = elim (Bool-cases (ltb u 9223372036854775808)) [
  | inl q ↦ elim (Bool-cases (ltb v 9223372036854775808)) [
    | inl r ↦ pos_same (rw (q, r) at e)
    | inr r ↦ absurd (cc (rw (q, r) at e))
  ]
  | inr q ↦ elim (Bool-cases (ltb v 9223372036854775808)) [
    | inl r ↦ absurd (cc (rw (q, r) at e))
    | inr r ↦
        let same : 18446744073709551615 - u ≡ 18446744073709551615 - v =
          negsuc_same (rw (q, r) at e) in
        omega arith
  ]
]
  where
    pos_same : {m n : ℕ} → pos m ≡ pos n → m ≡ n
    pos_same h = cc h

    negsuc_same : {m n : ℕ} → negsuc m ≡ negsuc n → m ≡ n
    negsuc_same h = cc h

-- The digest has eight bytes.
abbrev pub IsDigest8 : (List ℕ → List ℕ) → Type 0
IsDigest8 digest8 = (xs : List ℕ) → (length (digest8 xs) ≡ 8) × AreBytes (digest8 xs)

module _ (digest8 : List ℕ → List ℕ) (eight : IsDigest8 digest8) where
  key_of :
      (scope : Text) (k : Signed)
      → advisory_lock_key digest8 scope ≡ ok k
      → signed64 (big_endian 0 (digest8 (utf8 scope))) ≡ k
  unfolding advisory_lock_key
  key_of scope k h = let (done, e, f) = >>=-eq-ok (validate_scope scope) _ h in ok-injective _ _ f

  bounded : (scope : Text) → big_endian 0 (digest8 (utf8 scope)) < 18446744073709551616
  bounded scope = eight_bytes _ (eight (utf8 scope)).0 (eight (utf8 scope)).1

  -- If the digest has eight bytes, then a key is at least -(2 ^ 63) and less than 2 ^ 63, and two
  -- scopes with one key have one digest.
  pub advisory_lock_key-IsSigned64 :
      (scope other : Text) (k : Signed)
      → advisory_lock_key digest8 scope ≡ ok k
      → IsSigned64 k
        × (advisory_lock_key digest8 other ≡ ok k → digest8 (utf8 scope) ≡ digest8 (utf8 other))
  advisory_lock_key-IsSigned64 scope other k h = (
    subst IsSigned64 (key_of scope k h) (signed64-IsSigned64 _ (bounded scope)),
    λ g.
        (big_endian-injective 0 0 (digest8 (utf8 scope)) (digest8 (utf8 other))
          ((eight (utf8 scope)).0 ∙ sym (eight (utf8 other)).0) (eight (utf8 scope)).1
          (eight (utf8 other)).1
          (signed64-injective _ _ (bounded scope) (bounded other)
            (key_of scope k h ∙ sym (key_of other k g)))).1,
  )
