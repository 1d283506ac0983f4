-- ===== src/Compat/Args.antt =====
-- `_model_arg_kind` and `_canonical_model_args`: which model arguments enter a fingerprint.
pub mod Names
pub mod Words
pub mod Clean
pub mod Idempotent
pub mod Plain
use cogindex.Base.{
  ℕ, List, [], ◌∷◌, ◌++◌, Bool, true, false, ◌&&◌, ◌||◌, not, Option, none, some, Text, codes, leb,
  list_eq, nat_eq, ◌==◌, contains, any, is_empty, Result, ok, err, type_error, value_error, ◌>>=◌,
  if◌then◌else◌,
}
use cogindex.Identity.Value.{
  Json, Items, Fields, Key, text_key, other_key, nil, cons, end, field, null, nan, other, flag, num,
  text, arr, obj,
}
use cogindex.Compat.Args.Names.{generation_fields, nested_fields, excluded_fields}
use cogindex.Compat.Args.Words.{excluded_tokens, excluded_sequences, secret_suffixes}

abbrev pub is_lower : ℕ → Bool
is_lower c = leb b'a' c && leb c b'z'

abbrev pub is_upper : ℕ → Bool
is_upper c = leb b'A' c && leb c b'Z'

abbrev pub is_digit : ℕ → Bool
is_digit c = leb b'0' c && leb c b'9'

abbrev pub next_is : (ℕ → Bool) → Text → Bool
next_is test [] = false
next_is test (c ∷ t) = test c

-- `re.sub(r"(?<=[a-z0-9])(?=[A-Z])", "_", key)`
unfoldable pub split_words : Text → Text
split_words [] = []
split_words (c ∷ t) =
    let rest = split_words t in
    if (is_lower c || is_digit c) && next_is is_upper t then c ∷ b'_' ∷ rest else c ∷ rest

abbrev pub starts_word : Text → Bool
starts_word [] = false
starts_word (c ∷ t) = is_upper c && next_is is_lower t

-- `re.sub(r"(?<=[A-Z])(?=[A-Z][a-z])", "_", separated)`
unfoldable pub split_acronyms : Text → Text
split_acronyms [] = []
split_acronyms (c ∷ t) =
    let rest = split_acronyms t in if is_upper c && starts_word t then c ∷ b'_' ∷ rest else c ∷ rest

abbrev pub put_char : ℕ → List Text → List Text
put_char c [] = (c ∷ []) ∷ []
put_char c (w ∷ ws) = (c ∷ w) ∷ ws

-- The words of `[a-z0-9]` of a text, the last one open if the text goes on with one: an empty text
-- stands before a separator.
unfoldable pub raw_words : Text → List Text
raw_words [] = [] ∷ []
raw_words (c ∷ t) =
    let rest = raw_words t in if is_lower c || is_digit c then put_char c rest else [] ∷ rest

unfoldable pub filled : List Text → List Text
filled [] = []
filled ([] ∷ ws) = filled ws
filled ((c ∷ w) ∷ ws) = (c ∷ w) ∷ filled ws

abbrev pub joined_with : Text → List Text → Text
joined_with w [] = w
joined_with w (v ∷ ws) = w ++ (b'_' ∷ joined_with v ws)

abbrev pub join_words : List Text → Text
join_words [] = []
join_words (w ∷ ws) = joined_with w ws

-- `normalized.split("_")`: one empty token of an empty text
abbrev pub tokens_of : List Text → List Text
tokens_of [] = [] ∷ []
tokens_of (w ∷ ws) = w ∷ ws

abbrev pub last_of : Text → List Text → Text
last_of w [] = w
last_of w (v ∷ ws) = last_of v ws

abbrev pub last_token : List Text → Text
last_token [] = []
last_token (w ∷ ws) = last_of w ws

abbrev pub is_prefix : List Text → List Text → Bool
is_prefix [] ts = true
is_prefix (s ∷ ss) [] = false
is_prefix (s ∷ ss) (t ∷ ts) = let rest = is_prefix ss ts in if s == t then rest else false

-- `_contains_token_sequence`
unfoldable pub contains_sequence : List Text → List Text → Bool
contains_sequence [] sequence = false
contains_sequence (t ∷ ts) sequence =
    let rest = contains_sequence ts sequence in if is_prefix sequence (t ∷ ts) then true else rest

pub data ArgKind : Type 0 where
  generation nested excluded : ArgKind

unfoldable pub kind_of : Text → List Text → Result ArgKind
unfolding contains_sequence
kind_of normalized tokens =
    if contains normalized generation_fields
    then ok generation
    else if contains normalized nested_fields
    then ok nested
    else if contains normalized excluded_fields
    then ok excluded
    else if any (λ t. contains t excluded_tokens) tokens
    then ok excluded
    else if any (contains_sequence tokens) excluded_sequences
    then ok excluded
    else if contains (last_token tokens) secret_suffixes
    then err value_error
    else ok nested

-- What the code takes from `str.lower` and from `_URL_PATTERN.match(value.strip())`.
pub record TextTests : Type 0 where
  pub lower : Text → Text
  pub is_url : Text → Bool

module _ (T : TextTests) where
  -- The words of a key: of camelCase or of any other separation, in lower case
  unfoldable pub words_of : Text → List Text
  unfolding split_words split_acronyms raw_words filled
  words_of key = filled (raw_words (T.lower (split_acronyms (split_words key))))

  -- `_model_arg_kind`
  unfoldable pub model_arg_kind : Text → Result ArgKind
  unfolding words_of kind_of
  model_arg_kind key = let words = words_of key in kind_of (join_words words) (tokens_of words)

  -- `_canonical_generation_value`. A member of an enumeration stands as its value, a tuple as a list.
  unfoldable mutual
    pub generation_value : Json → Result Json
    generation_value null = ok null
    generation_value nan = err value_error
    generation_value other = err type_error
    generation_value (flag b) = ok (flag b)
    generation_value (num t) = ok (num t)
    generation_value (text t) = ok (text t)
    generation_value (arr xs) = generation_items xs >>= λ ys. ok (arr ys)
    generation_value (obj fs) = generation_fields_of fs >>= λ gs. ok (obj gs)

    pub generation_items : Items → Result Items
    generation_items nil = ok nil
    generation_items (cons x xs) =
        generation_value x >>= λ y. generation_items xs >>= λ ys. ok (cons y ys)

    pub generation_fields_of : Fields → Result Fields
    generation_fields_of end = ok end
    generation_fields_of (field other_key v fs) = err type_error
    generation_fields_of (field (text_key k) v fs) =
        generation_value v >>= λ w. generation_fields_of fs >>= λ gs. ok (field (text_key k) w gs)

  abbrev pub keep_field : Text → Option Json → Fields × Bool → Fields × Bool
  keep_field k none (gs, omitted) = (gs, true)
  keep_field k (some w) (gs, omitted) = (field (text_key k) w gs, omitted)

  abbrev pub keep_item : Option Json → Items × Bool → Items × Bool
  keep_item none (ys, omitted) = (ys, true)
  keep_item (some y) (ys, omitted) = (cons y ys, omitted)

  -- `if not normalized and omitted: return _OMIT_MODEL_ARG`
  abbrev pub or_omit_fields : Fields × Bool → Option Json
  or_omit_fields (end, true) = none
  or_omit_fields (end, false) = some (obj end)
  or_omit_fields (field k v fs, omitted) = some (obj (field k v fs))

  abbrev pub or_omit_items : Items × Bool → Option Json
  or_omit_items (nil, true) = none
  or_omit_items (nil, false) = some (arr nil)
  or_omit_items (cons x xs, omitted) = some (arr (cons x xs))

  abbrev pub url_checked : Bool → Text → Result (Option Json)
  url_checked true t = err value_error
  url_checked false t = ok (some (text t))

  -- A field's value by its kind, from what it comes to as an opaque payload and as arguments
  abbrev pub by_kind : ArgKind → Result Json → Result (Option Json) → Result (Option Json)
  by_kind excluded opaque inner = ok none
  by_kind generation opaque inner = opaque >>= λ w. ok (some w)
  by_kind nested opaque inner = inner

  -- `_canonical_model_arg_value` and `_canonical_model_arg_mapping`; `none` is _OMIT_MODEL_ARG. What
  -- a field or an item comes to is in the order of the mapping or list.
  unfoldable mutual
    unfolding model_arg_kind generation_value

    pub model_arg_value : Json → Result (Option Json)
    model_arg_value null = ok (some null)
    model_arg_value nan = err value_error
    model_arg_value other = err type_error
    model_arg_value (flag b) = ok (some (flag b))
    model_arg_value (num t) = ok (some (num t))
    model_arg_value (text t) = url_checked (T.is_url t) t
    model_arg_value (arr xs) = model_arg_items xs >>= λ r. ok (or_omit_items r)
    model_arg_value (obj fs) = model_arg_fields fs >>= λ r. ok (or_omit_fields r)

    pub model_arg_items : Items → Result (Items × Bool)
    model_arg_items nil = ok (nil, false)
    model_arg_items (cons x xs) =
        model_arg_value x >>= λ y. model_arg_items xs >>= λ ys. ok (keep_item y ys)

    pub model_arg_fields : Fields → Result (Fields × Bool)
    model_arg_fields end = ok (end, false)
    model_arg_fields (field other_key v fs) = err type_error
    model_arg_fields (field (text_key k) v fs) = model_arg_kind k >>= λ kind.
        by_kind kind (generation_value v) (model_arg_value v) >>= λ w.
        model_arg_fields fs >>= λ gs. ok (keep_field k w gs)

  abbrev pub or_empty : Option Json → Json
  or_empty none = obj end
  or_empty (some v) = v

  -- `_canonical_model_args`; `none` is None
  unfoldable pub canonical_model_args : Option Json → Result Json
  unfolding model_arg_value
  canonical_model_args none = ok (obj end)
  canonical_model_args (some (obj fs)) = model_arg_value (obj fs) >>= λ v. ok (or_empty v)
  canonical_model_args (some v) = err type_error
