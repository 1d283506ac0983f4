-- ===== src/Identity/Value.antt =====
-- The Python values that reach `json.dumps`.
use cogindex.Base.{Bool, true, false, Text}

-- A mapping's key: a text, or something else.
pub data Key : Type 0 where
  text_key : Text → Key
  other_key : Key

abbrev pub not_text : Key → Bool
not_text (text_key t) = false
not_text other_key = true

-- `num` holds a finite number by its text, `nan` is a float that is not finite, and `other` is a
-- value that JSON has no form for.
mutual
  pub data Json : Type 0 where
    null nan other : Json
    flag : Bool → Json
    num text : Text → Json
    arr : Items → Json
    obj : Fields → Json

  pub data Items : Type 0 where
    nil : Items
    cons : Json → Items → Items

  pub data Fields : Type 0 where
    end : Fields
    field : Key → Json → Fields → Fields
