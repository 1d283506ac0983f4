-- ===== src/Spec/Profile.antt =====
-- CognifyProfile, ManagedBy and the dataset's desired state.
use cogindex.Base.{
  ℕ, zero, suc, [], ◌∷◌, Bool, true, false, ◌&&◌, Option, none, some, Text, is_some, Result, ok,
  value_error, ◌>>◌, refuse, all, contains, leb, ◌||◌, nat_eq,
}
use cogindex.Identity.Value.{Json}

-- What a class's `model_json_schema` does when it is called, if it has one.
pub data SchemaMethod : Type 0 where
  absent raising : SchemaMethod
  returning : Json → SchemaMethod

-- A Python class, as far as it is looked at.
pub record PyClass : Type 0 where
  pub module_name : Text
  pub qualname : Text
  pub schema : SchemaMethod

pub record CognifyProfile : Type 0 where
  pub graph_model : Option PyClass
  pub chunker : Option PyClass
  pub chunk_size : Option ℕ
  pub custom_prompt : Option Text
  pub temporal_cognify : Bool

-- `chunk_size is not None and chunk_size <= 0`; a size is a natural number here.
unfoldable pub bad_chunk_size : Option ℕ → Bool
bad_chunk_size none = false
bad_chunk_size (some zero) = true
bad_chunk_size (some (suc n)) = false

-- The truth value of an optional text.
unfoldable pub has_text : Option Text → Bool
has_text none = false
has_text (some []) = false
has_text (some (c ∷ s)) = true

-- `CognifyProfile.__post_init__`; the checks on types are the fields' types.
unfoldable pub check_profile : CognifyProfile → Result CognifyProfile
unfolding bad_chunk_size has_text
check_profile p = do
  refuse (bad_chunk_size p.chunk_size) value_error
  refuse (p.temporal_cognify && is_some p.graph_model) value_error
  refuse (p.temporal_cognify && has_text p.custom_prompt) value_error
  ok p

-- The characters that `str.strip` removes.
unfoldable pub is_space : ℕ → Bool
is_space c =
    (leb 9 c && leb c 13)
    || (leb 28 c && leb c 32)
    || (leb 0x2000 c && leb c 0x200A)
    || (contains c (0x85 ∷ 0xA0 ∷ 0x1680 ∷ 0x2028 ∷ 0x2029 ∷ 0x202F ∷ 0x205F ∷ 0x3000 ∷ []))

-- `not text.strip()`
unfoldable pub is_blank : Text → Bool
unfolding is_space
is_blank = all is_space
