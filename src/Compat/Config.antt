-- ===== src/Compat/Config.antt =====
-- What the code reads of Cognee's configuration objects in src/cogindex/_compat.py, checked.
use cogindex.Base.{
  ℕ, suc, Bool, Text, is_empty, if◌then◌else◌, Result, ok, err, type_error, foreign,
}

-- What `getattr(config, field)` gives; `absent` raises, `negative n` is -(n + 1), and `unfit` is any
-- value of another type.
pub data Attr : Type 0 where
  absent nothing unfit : Attr
  str : Text → Attr
  whole negative : ℕ → Attr
  flag : Bool → Attr

-- The number of the class AttributeError
abbrev pub attribute_error : ℕ
attribute_error = 0

unfoldable pub required_str : Attr → Result Text
required_str absent = err (foreign attribute_error)
required_str (str s) = if is_empty s then err type_error else ok s
required_str _ = err type_error

unfoldable pub positive_int : Attr → Result ℕ
positive_int absent = err (foreign attribute_error)
positive_int (whole (suc n)) = ok (suc n)
positive_int _ = err type_error
