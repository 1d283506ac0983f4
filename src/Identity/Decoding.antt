-- ===== src/Identity/Decoding.antt =====
-- A reader for the payloads of fingerprint_content in src/cogindex/_identity.py.
use cogindex.Base.{
  ℕ, zero, suc, ◌+◌, ◌-◌, ◌*◌, ◌/◌, ◌%◌, ◌==◌, nat_eq, List, [], ◌∷◌, ◌++◌, Bool, true, false,
  Option, none, some, ltb, Text, ◌≡◌, refl, ◌∙◌, ap, arith, if◌then◌else◌, Bool-cases, inl, inr,
}
use cogindex.Identity.{Content, text_content, bytes_content, Primitives, content_bytes}
use cogindex.Identity.Utf8.{encode_char, utf8}

-- A decoder of UTF-8: how many bytes of the code point are still to come, and its bits so far.
unfoldable pub decode : ℕ → ℕ → List ℕ → Text
decode need acc [] = []
decode zero acc (b ∷ bs) =
    let plain = decode zero zero bs in
    let two = decode 1 (b - 0xC0) bs in
    let three = decode 2 (b - 0xE0) bs in
    let four = decode 3 (b - 0xF0) bs in
    if ltb b 0x80 then b ∷ plain else if ltb b 0xE0 then two else if ltb b 0xF0 then three else four
decode (suc zero) acc (b ∷ bs) = (acc * 0x40 + (b - 0x80)) ∷ decode zero zero bs
decode (suc (suc n)) acc (b ∷ bs) = decode (suc n) (acc * 0x40 + (b - 0x80)) bs

encode-one : (c : ℕ) → ltb c 0x80 ≡ true → encode_char c ≡ c ∷ []
unfolding encode_char
encode-one c one = rw (one) refl

encode-two :
    (c : ℕ)
    → ltb c 0x80 ≡ false
    → ltb c 0x800 ≡ true
    → encode_char c ≡ (0xC0 + c / 0x40) ∷ (0x80 + c % 0x40) ∷ []
unfolding encode_char
encode-two c one two = rw (one, two) refl

encode-three :
    (c : ℕ)
    → ltb c 0x80 ≡ false
    → ltb c 0x800 ≡ false
    → ltb c 0x10000 ≡ true
    → encode_char c ≡ (0xE0 + c / 0x1000) ∷ (0x80 + c / 0x40 % 0x40) ∷ (0x80 + c % 0x40) ∷ []
unfolding encode_char
encode-three c one two three = rw (one, two, three) refl

encode-four :
    (c : ℕ)
    → ltb c 0x80 ≡ false
    → ltb c 0x800 ≡ false
    → ltb c 0x10000 ≡ false
    → encode_char c
      ≡ (0xF0 + c / 0x40000)
        ∷ (0x80 + c / 0x1000 % 0x40)
        ∷ (0x80 + c / 0x40 % 0x40)
        ∷ (0x80 + c % 0x40)
        ∷ []
unfolding encode_char
encode-four c one two three = rw (one, two, three) refl

decode-one : (c : ℕ) (bs : List ℕ) → ltb c 0x80 ≡ true → decode 0 0 (c ∷ bs) ≡ c ∷ decode 0 0 bs
unfolding decode
decode-one c bs one = rw (one) refl

-- Two, three and four bytes of one code point.
decode-two :
    (c : ℕ) (bs : List ℕ)
    → ltb c 0x800 ≡ true
    → decode 0 0 ((0xC0 + c / 0x40) ∷ (0x80 + c % 0x40) ∷ bs) ≡ c ∷ decode 0 0 bs
unfolding decode
decode-two c bs two =
    let low : ltb (0xC0 + c / 0x40) 0x80 ≡ false = ground arith in
    let high : ltb (0xC0 + c / 0x40) 0xE0 ≡ true = ground arith in
    let bits : (0xC0 + c / 0x40 - 0xC0) * 0x40 + (0x80 + c % 0x40 - 0x80) ≡ c = omega arith in
    rw (low, high, bits) refl

decode-three :
    (c : ℕ) (bs : List ℕ)
    → ltb c 0x10000 ≡ true
    → decode 0 0 ((0xE0 + c / 0x1000) ∷ (0x80 + c / 0x40 % 0x40) ∷ (0x80 + c % 0x40) ∷ bs)
      ≡ c ∷ decode 0 0 bs
unfolding decode
decode-three c bs three =
    let low : ltb (0xE0 + c / 0x1000) 0x80 ≡ false = ground arith in
    let mid : ltb (0xE0 + c / 0x1000) 0xE0 ≡ false = ground arith in
    let high : ltb (0xE0 + c / 0x1000) 0xF0 ≡ true = ground arith in
    let bits : ((0xE0 + c / 0x1000 - 0xE0) * 0x40 + (0x80 + c / 0x40 % 0x40 - 0x80)) * 0x40
          + (0x80 + c % 0x40 - 0x80)
        ≡ c =
      omega arith in
    rw (low, mid, high, bits) refl

decode-four :
    (c : ℕ) (bs : List ℕ)
    → decode 0 0 (
        (0xF0 + c / 0x40000)
        ∷ (0x80 + c / 0x1000 % 0x40)
        ∷ (0x80 + c / 0x40 % 0x40)
        ∷ (0x80 + c % 0x40)
        ∷ bs)
      ≡ c ∷ decode 0 0 bs
unfolding decode
decode-four c bs =
    let low : ltb (0xF0 + c / 0x40000) 0x80 ≡ false = ground arith in
    let mid : ltb (0xF0 + c / 0x40000) 0xE0 ≡ false = ground arith in
    let high : ltb (0xF0 + c / 0x40000) 0xF0 ≡ false = ground arith in
    let bits : (((0xF0 + c / 0x40000 - 0xF0) * 0x40 + (0x80 + c / 0x1000 % 0x40 - 0x80)) * 0x40
              + (0x80 + c / 0x40 % 0x40 - 0x80))
            * 0x40
          + (0x80 + c % 0x40 - 0x80)
        ≡ c =
      omega arith in
    rw (low, mid, high, bits) refl

decode-encode_char :
    (c : ℕ) (rest : List ℕ) → decode 0 0 (encode_char c ++ rest) ≡ c ∷ decode 0 0 rest
decode-encode_char c rest = elim (Bool-cases (ltb c 0x80)) [
  | inl one ↦ rw (encode-one c one) (decode-one c rest one)
  | inr one ↦ elim (Bool-cases (ltb c 0x800)) [
    | inl two ↦ rw (encode-two c one two) (decode-two c rest two)
    | inr two ↦ elim (Bool-cases (ltb c 0x10000)) [
      | inl three ↦ rw (encode-three c one two three) (decode-three c rest three)
      | inr three ↦ rw (encode-four c one two three) (decode-four c rest)
    ]
  ]
]

decode-utf8 : (t : Text) → decode 0 0 (utf8 t) ≡ t
unfolding decode utf8
decode-utf8 [] = refl
decode-utf8 (c ∷ t) = decode-encode_char c (utf8 t) ∙ ap (λ u. c ∷ u) (decode-utf8 t)

-- The content of a payload of fingerprint_content, by its tag.
unfoldable read_tagged : Bool → List ℕ → Option Content
unfolding decode
read_tagged is_text (zero ∷ payload) =
    let read = decode 0 0 payload in
    if is_text then some (text_content read) else some (bytes_content payload)
read_tagged is_text _ = none

unfoldable pub read_content : List ℕ → Option Content
unfolding read_tagged
read_content [] = none
read_content (tag ∷ rest) = read_tagged (tag == b's') rest

module _ (P : Primitives) where
  -- A reader of payloads, which decodes UTF-8 after the tag of a text, gets back the content of
  -- which fingerprint_content made the payload.
  pub read_content-content_bytes :
      (content : Content) → read_content (content_bytes P content) ≡ some content
  unfolding read_content read_tagged content_bytes nat_eq
  read_content-content_bytes (text_content t) = ap (λ u. some (text_content u)) (decode-utf8 t)
  read_content-content_bytes (bytes_content b) = refl
