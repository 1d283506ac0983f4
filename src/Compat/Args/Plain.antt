-- ===== src/Compat/Args/Plain.antt =====
-- Which keys canonical model arguments may still have.
use cogindex.Base.{
  List, [], ◌∷◌, Bool, true, false, Text, codes, ◌≡◌, ◌⊎◌, inl, inr, refl, arith, any, all,
  contains, list_eq, nat_eq, ◌==◌, Result, ok, err, value_error, if◌then◌else◌, Bool-cases,
}
use cogindex.Base.Lists.{all-contains}
use cogindex.Identity.Value.{
  Json, Items, Fields, text_key, other_key, nil, cons, end, field, null, nan, other, flag, num,
  text, arr, obj,
}
use cogindex.Compat.Args.Names.{generation_fields, nested_fields, excluded_fields}
use cogindex.Compat.Args.Words.{excluded_tokens, excluded_sequences, secret_suffixes}
use cogindex.Compat.Args.{
  TextTests, ArgKind, generation, nested, excluded, contains_sequence, kind_of, words_of,
  join_words, tokens_of, last_token, model_arg_kind,
}
use cogindex.Compat.Args.Clean.{
  IsClean, clean_null, clean_flag, clean_num, clean_text, clean_arr, clean_obj, AreClean, clean_nil,
  clean_cons, HasCleanFields, clean_end, clean_nested, clean_payload,
}

-- Words that speak of a credential, of a place, or of how a call is run
abbrev pub telling_words : List Text
telling_words =
    codes "password"
    ∷ codes "secret"
    ∷ codes "credential"
    ∷ codes "credentials"
    ∷ codes "apikey"
    ∷ codes "auth"
    ∷ codes "authorization"
    ∷ codes "cookie"
    ∷ codes "header"
    ∷ codes "headers"
    ∷ codes "endpoint"
    ∷ codes "url"
    ∷ codes "uri"
    ∷ codes "host"
    ∷ codes "port"
    ∷ codes "proxy"
    ∷ codes "timeout"
    ∷ codes "retries"
    ∷ codes "stream"
    ∷ []

abbrev pub telling : Text → Bool
telling w = contains w telling_words

all_telling : all (λ v. contains v excluded_tokens) telling_words ≡ true
unfolding list_eq nat_eq
all_telling = refl

telling-excluded : (w : Text) → telling w ≡ true → contains w excluded_tokens ≡ true
telling-excluded w h = all-contains (λ v. contains v excluded_tokens) w telling_words all_telling h

none_of :
    (test : Text → Bool) (w : Text) (ws : List Text)
    → any test (w ∷ ws) ≡ false
    → (test w ≡ false) × (any test ws ≡ false)
none_of test w ws h = ground arith

one_of :
    (test : Text → Bool) (w : Text) (ws : List Text)
    → test w ≡ false
    → any test ws ≡ false
    → any test (w ∷ ws) ≡ false
one_of test w ws h k = ground arith

apart_by :
    (test mark : Text → Bool) (w : Text)
    → ((v : Text) → mark v ≡ true → test v ≡ true)
    → test w ≡ false
    → mark w ≡ false
apart_by test mark w sub h = elim (Bool-cases (mark w)) [
  | inl p ↦ absurd (cc (sub w p, h))
  | inr p ↦ p
]

none_marked :
    (test mark : Text → Bool) (ws : List Text)
    → ((v : Text) → mark v ≡ true → test v ≡ true)
    → any test ws ≡ false
    → any mark ws ≡ false
none_marked test mark [] sub h = refl
none_marked test mark (w ∷ ws) sub h =
    let both = none_of test w ws h in
    one_of mark w ws (apart_by test mark w sub both.0) (none_marked test mark ws sub both.1)

-- A name is listed as nested, or it has no telling word and does not end in "key" or "token".
abbrev pub IsPlainName : Text → List Text → Type 0
IsPlainName name words =
    (contains name nested_fields ≡ true)
    ⊎ ((any telling words ≡ false)
        × ((last_token words == codes "key") ≡ false)
        × ((last_token words == codes "token") ≡ false))

-- The branches of `_model_arg_kind`
nested_branch :
    (g n x e q s : Bool)
    → ◌≡◌ {A = Result ArgKind}
        (if g
          then ok generation
          else if n
          then ok nested
          else if x
          then ok excluded
          else if e
          then ok excluded
          else if q
          then ok excluded
          else if s
          then err value_error
          else ok nested)
        (ok nested)
    → (n ≡ true) ⊎ ((e ≡ false) × (s ≡ false))
nested_branch true n x e q s h = absurd (cc h)
nested_branch false true x e q s h = inl refl
nested_branch false false true e q s h = absurd (cc h)
nested_branch false false false true q s h = absurd (cc h)
nested_branch false false false false true s h = absurd (cc h)
nested_branch false false false false false true h = absurd (cc h)
nested_branch false false false false false false h = inr (refl, refl)

generation_branch :
    (g n x e q s : Bool)
    → ◌≡◌ {A = Result ArgKind}
        (if g
          then ok generation
          else if n
          then ok nested
          else if x
          then ok excluded
          else if e
          then ok excluded
          else if q
          then ok excluded
          else if s
          then err value_error
          else ok nested)
        (ok generation)
    → g ≡ true
generation_branch true n x e q s h = refl
generation_branch false true x e q s h = absurd (cc h)
generation_branch false false true e q s h = absurd (cc h)
generation_branch false false false true q s h = absurd (cc h)
generation_branch false false false false true s h = absurd (cc h)
generation_branch false false false false false true h = absurd (cc h)
generation_branch false false false false false false h = absurd (cc h)

neither : (w a b : Text) → contains w (a ∷ b ∷ []) ≡ false → ((w == a) ≡ false) × ((w == b) ≡ false)
neither w a b h = (ground arith, ground arith)

kind_of-nested :
    (name : Text) (words : List Text) → kind_of name words ≡ ok nested → IsPlainName name words
unfolding kind_of
kind_of-nested name words h =
    elim (nested_branch (contains name generation_fields) (contains name nested_fields)
      (contains name excluded_fields) (any (λ t. contains t excluded_tokens) words)
      (any (contains_sequence words) excluded_sequences)
      (contains (last_token words) secret_suffixes) h) [
        | inl p ↦ inl p
        | inr (quiet, open_end) ↦ inr (
          none_marked (λ w. contains w excluded_tokens) telling words telling-excluded quiet,
          (neither (last_token words) (codes "key") (codes "token") open_end).0,
          (neither (last_token words) (codes "key") (codes "token") open_end).1,
        )
      ]

kind_of-generation :
    (name : Text) (words : List Text)
    → kind_of name words ≡ ok generation
    → contains name generation_fields ≡ true
unfolding kind_of
kind_of-generation name words h =
    generation_branch (contains name generation_fields) (contains name nested_fields)
      (contains name excluded_fields) (any (λ t. contains t excluded_tokens) words)
      (any (contains_sequence words) excluded_sequences)
      (contains (last_token words) secret_suffixes) h

module _ (T : TextTests) where
  abbrev pub name_of : Text → Text
  name_of key = join_words (words_of T key)

  -- Every key, down to the payloads of generation arguments, is plain or names such an argument,
  -- and no text outside those payloads is a URL.
  unfoldable mutual
    pub HasPlainKeys : Json → Type 0
    HasPlainKeys null = Unit
    HasPlainKeys nan = Unit
    HasPlainKeys other = Unit
    HasPlainKeys (flag b) = Unit
    HasPlainKeys (num t) = Unit
    HasPlainKeys (text t) = T.is_url t ≡ false
    HasPlainKeys (arr xs) = ArePlain xs
    HasPlainKeys (obj fs) = HasPlainFields fs

    pub ArePlain : Items → Type 0
    ArePlain nil = Unit
    ArePlain (cons x xs) = (HasPlainKeys x) × ArePlain xs

    pub HasPlainFields : Fields → Type 0
    HasPlainFields end = Unit
    HasPlainFields (field other_key v fs) = ⊥
    HasPlainFields (field (text_key k) v fs) =
        ((contains (name_of k) generation_fields ≡ true)
          ⊎ (IsPlainName (name_of k) (tokens_of (words_of T k)) × HasPlainKeys v))
        × HasPlainFields fs

  mutual
    unfolding HasPlainKeys model_arg_kind

    clean_plain : (v : Json) → IsClean T v → HasPlainKeys v
    clean_plain v clean_null = tt
    clean_plain v (clean_flag b) = tt
    clean_plain v (clean_num t) = tt
    clean_plain v (clean_text t u) = u
    clean_plain v (clean_arr xs c) = items_plain xs c
    clean_plain v (clean_obj fs c) = fields_plain fs c

    items_plain : (xs : Items) → AreClean T xs → ArePlain xs
    items_plain xs clean_nil = tt
    items_plain xs (clean_cons y ys c d) = (clean_plain y c, items_plain ys d)

    fields_plain : (fs : Fields) → HasCleanFields T fs → HasPlainFields fs
    fields_plain fs clean_end = tt
    fields_plain fs (clean_nested k v gs e c d) = (
      inr (kind_of-nested (name_of k) (tokens_of (words_of T k)) e, clean_plain v c),
      fields_plain gs d,
    )
    fields_plain fs (clean_payload k v gs e g d) =
        (inl (kind_of-generation (name_of k) (tokens_of (words_of T k)) e), fields_plain gs d)
