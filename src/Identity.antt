-- ===== src/Identity.antt =====
-- src/cogindex/_identity.py: stable identities and fingerprints.
-- A UUID is kept as its text `str(uuid)`. BLAKE2b, UUID5, NFC and `json.dumps` are parameters.
pub mod Value
pub mod Utf8
pub mod Decimal
pub mod Join
pub mod Distinct
pub mod Decoding
use cogindex.Base.{
  ℕ, suc, zero, List, [], ◌∷◌, Bool, true, false, ◌&&◌, ◌||◌, ◌≡◌, ltb, leb, length, is_empty, all,
  contains, nat_eq, Text, codes, if◌then◌else◌,
}
use cogindex.Base.{Result, ok, err, type_error, value_error, ◌>>=◌, ◌>>◌, refuse}
use cogindex.Identity.Value.{
  Json, Items, Fields, nil, cons, end, field, null, obj, arr, text, other,
}
use cogindex.Identity.Value.{flag, num, nan, not_text}
use cogindex.Identity.Utf8.{utf8}
use cogindex.Identity.Decimal.{decimal}
use cogindex.Identity.Join.{canonical_join}

abbrev pub Uuid : Type 0
Uuid = Text

-- What the code takes from hashlib, uuid, unicodedata and json.
pub record Primitives : Type 0 where
  -- `hashlib.blake2b(payload, digest_size=n).hexdigest()`
  pub blake2b : ℕ → List ℕ → Text
  pub uuid5 : Uuid → Text → Uuid
  pub nfc : Text → Text
  -- `json.dumps` with sorted keys, ASCII only and no NaN; it raises on what is not JSON
  pub dumps : Json → Result Text

abbrev pub namespace_dns : Uuid
namespace_dns = codes "6ba7b810-9dad-11d1-80b4-00c04fd430c8"

abbrev pub identity_schema_version : ℕ
identity_schema_version = 2

abbrev pub fingerprint_digest_size : ℕ
fingerprint_digest_size = 16

pub data Content : Type 0 where
  text_content : Text → Content
  bytes_content : List ℕ → Content

unfoldable pub validate_coordinate : Text → Result (Unit {0})
validate_coordinate value = do
  refuse (is_empty value) value_error
  refuse (contains 0 value) value_error

unfoldable pub is_alphanumeric : ℕ → Bool
is_alphanumeric c =
    (leb b'A' c && leb c b'Z') || (leb b'a' c && leb c b'z') || (leb b'0' c && leb c b'9')

unfoldable pub is_key_char : ℕ → Bool
unfolding is_alphanumeric
is_key_char c = is_alphanumeric c || (contains c (b'.' ∷ b'_' ∷ b'-' ∷ []))

-- `[A-Za-z0-9][A-Za-z0-9._-]{0,127}\Z`
unfoldable pub runtime_key_matches : Text → Bool
unfolding is_key_char
runtime_key_matches [] = false
runtime_key_matches (c ∷ rest) = is_alphanumeric c && all is_key_char rest && leb (length rest) 127

unfoldable pub validate_runtime_key : Text → Result (Unit {0})
unfolding validate_coordinate runtime_key_matches
validate_runtime_key value = do
  validate_coordinate value
  refuse (if runtime_key_matches value then false else true) value_error

-- JSON would turn keys that are no strings into strings: they are refused at every depth.
unfoldable mutual
  pub validate_json_object_keys : Json → Result (Unit {0})
  validate_json_object_keys (obj fields) = validate_fields fields
  validate_json_object_keys (arr items) = validate_items items
  validate_json_object_keys null = ok tt
  validate_json_object_keys (flag b) = ok tt
  validate_json_object_keys (num t) = ok tt
  validate_json_object_keys (text t) = ok tt
  validate_json_object_keys nan = ok tt
  validate_json_object_keys other = ok tt

  pub validate_fields : Fields → Result (Unit {0})
  validate_fields end = ok tt
  validate_fields (field key value rest) =
      refuse (not_text key) type_error
      >> (validate_json_object_keys value >>= λ _. validate_fields rest)

  pub validate_items : Items → Result (Unit {0})
  validate_items nil = ok tt
  validate_items (cons x rest) = validate_json_object_keys x >>= λ _. validate_items rest

module _ (P : Primitives) where
  unfoldable pub cogindex_namespace : Uuid
  cogindex_namespace = P.uuid5 namespace_dns (codes "cogindex")

  unfoldable pub normalize_external_key : Text → Result Text
  normalize_external_key key = do
    refuse (is_empty key) value_error
    refuse (contains 0 key) value_error
    ok (P.nfc key)

  unfoldable pub document_data_id : Text → Text → Text → Text → Text → Result Uuid
  unfolding validate_runtime_key normalize_external_key cogindex_namespace
  document_data_id runtime_key identity_scope tenant dataset_name external_key = do
    validate_runtime_key runtime_key
    validate_coordinate identity_scope
    validate_coordinate tenant
    validate_coordinate dataset_name
    key ← normalize_external_key external_key
    ok (
        P.uuid5 cogindex_namespace (
          canonical_join (
            decimal identity_schema_version
            ∷ runtime_key
            ∷ identity_scope
            ∷ tenant
            ∷ dataset_name
            ∷ key
            ∷ [])))

  unfoldable pub fingerprint_json : Json → Result Text
  fingerprint_json object = do
    validate_json_object_keys object
    canonical ← P.dumps object
    ok (P.blake2b fingerprint_digest_size (utf8 canonical))

  unfoldable pub content_bytes : Content → List ℕ
  content_bytes (text_content t) = b's' ∷ 0 ∷ utf8 t
  content_bytes (bytes_content b) = b'b' ∷ 0 ∷ b

  unfoldable pub fingerprint_content : Content → Text
  unfolding content_bytes
  fingerprint_content content = P.blake2b fingerprint_digest_size (content_bytes content)
