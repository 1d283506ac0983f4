-- ===== src/Compat/Args/Clean.antt =====
-- The kinds of the keys in canonical model arguments.
use cogindex.Base.{
  Bool, true, false, Option, none, some, Text, ◌≡◌, refl, sym, ◌∙◌, ap, Result, ok, >>=-eq-ok,
  ok-injective,
}
use mathlib.Core.Path.{subst}
use cogindex.Identity.Value.{
  Json, Items, Fields, text_key, other_key, nil, cons, end, field, null, nan, other, flag, num,
  text, arr, obj,
}
use cogindex.Compat.Args.{
  TextTests, ArgKind, generation, nested, excluded, model_arg_kind, generation_value,
  generation_items, generation_fields_of, by_kind, keep_field, keep_item, or_omit_fields,
  or_omit_items, url_checked, or_empty, model_arg_value, model_arg_items, model_arg_fields,
  canonical_model_args,
}

module _ (T : TextTests) where
  -- Every key of the mappings, down to the payloads of generation arguments, is classified, and
  -- none is excluded; no text outside those payloads is a URL.
  mutual
    pub data IsClean : Json → Type 0 where
      clean_null : IsClean null
      clean_flag : (b : Bool) → IsClean (flag b)
      clean_num : (t : Text) → IsClean (num t)
      clean_text : (t : Text) → T.is_url t ≡ false → IsClean (text t)
      clean_arr : (xs : Items) → AreClean xs → IsClean (arr xs)
      clean_obj : (fs : Fields) → HasCleanFields fs → IsClean (obj fs)

    pub data AreClean : Items → Type 0 where
      clean_nil : AreClean nil
      clean_cons : (x : Json) (xs : Items) → IsClean x → AreClean xs → AreClean (cons x xs)

    pub data HasCleanFields : Fields → Type 0 where
      clean_end : HasCleanFields end
      clean_nested :
          (k : Text) (v : Json) (fs : Fields)
          → model_arg_kind T k ≡ ok nested
          → IsClean v
          → HasCleanFields fs
          → HasCleanFields (field (text_key k) v fs)
      clean_payload :
          (k : Text) (v : Json) (fs : Fields)
          → model_arg_kind T k ≡ ok generation
          → generation_value T v ≡ ok v
          → HasCleanFields fs
          → HasCleanFields (field (text_key k) v fs)

  -- A payload that is accepted is kept as it is.
  mutual
    unfolding generation_value

    payload_same : (v w : Json) → generation_value T v ≡ ok w → w ≡ v
    payload_same null w h = sym (ok-injective _ _ h)
    payload_same nan w h = absurd (cc h)
    payload_same other w h = absurd (cc h)
    payload_same (flag b) w h = sym (ok-injective _ _ h)
    payload_same (num t) w h = sym (ok-injective _ _ h)
    payload_same (text t) w h = sym (ok-injective _ _ h)
    payload_same (arr xs) w h =
        let (ys, e, f) = >>=-eq-ok (generation_items T xs) _ h in
        sym (ok-injective _ _ f) ∙ ap arr (items_same xs ys e)
    payload_same (obj fs) w h =
        let (gs, e, f) = >>=-eq-ok (generation_fields_of T fs) _ h in
        sym (ok-injective _ _ f) ∙ ap obj (fields_same fs gs e)

    items_same : (xs ys : Items) → generation_items T xs ≡ ok ys → ys ≡ xs
    items_same nil ys h = sym (ok-injective _ _ h)
    items_same (cons x xs) ys h =
        let (z, e, f) = >>=-eq-ok (generation_value T x) _ h in
        let (zs, e1, f1) = >>=-eq-ok (generation_items T xs) _ f in
        sym (ok-injective _ _ f1) ∙ rw (payload_same x z e, items_same xs zs e1) refl

    fields_same : (fs gs : Fields) → generation_fields_of T fs ≡ ok gs → gs ≡ fs
    fields_same end gs h = sym (ok-injective _ _ h)
    fields_same (field other_key v fs) gs h = absurd (cc h)
    fields_same (field (text_key k) v fs) gs h =
        let (w, e, f) = >>=-eq-ok (generation_value T v) _ h in
        let (hs, e1, f1) = >>=-eq-ok (generation_fields_of T fs) _ f in
        sym (ok-injective _ _ f1) ∙ rw (payload_same v w e, fields_same fs hs e1) refl

  generation_value_again : (v w : Json) → generation_value T v ≡ ok w → generation_value T w ≡ ok w
  generation_value_again v w h = rw (payload_same v w h) (rw (payload_same v w h) at h)

  -- What is not omitted is clean.
  abbrev Cleaned : Option Json → Type 0
  Cleaned none = Unit
  Cleaned (some v) = IsClean v

  url-Cleaned :
      (b : Bool) (t : Text)
      → T.is_url t ≡ b
      → (o : Option Json) → url_checked T b t ≡ ok o
      → Cleaned o
  url-Cleaned true t e o h = absurd (cc h)
  url-Cleaned false t e o h = subst Cleaned (ok-injective _ _ h) (clean_text t e)

  items-Cleaned : (r : Items × Bool) → AreClean r.0 → Cleaned (or_omit_items T r)
  items-Cleaned (nil, true) c = tt
  items-Cleaned (nil, false) c = clean_arr nil c
  items-Cleaned (cons x xs, b) c = clean_arr (cons x xs) c

  fields-Cleaned : (r : Fields × Bool) → HasCleanFields r.0 → Cleaned (or_omit_fields T r)
  fields-Cleaned (end, true) c = tt
  fields-Cleaned (end, false) c = clean_obj end c
  fields-Cleaned (field k v fs, b) c = clean_obj (field k v fs) c

  kept_item :
      (o : Option Json) (r : Items × Bool) → Cleaned o → AreClean r.0 → AreClean (keep_item T o r).0
  kept_item none r c d = d
  kept_item (some v) r c d = clean_cons v r.0 c d

  kept_field :
      (k : Text) (kind : ArgKind) (opaque : Result Json) (inner : Result (Option Json))
      (o : Option Json) (r : Fields × Bool)
      → model_arg_kind T k ≡ ok kind
      → by_kind T kind opaque inner ≡ ok o
      → ((v : Option Json) → inner ≡ ok v → Cleaned v)
      → ((w : Json) → opaque ≡ ok w → generation_value T w ≡ ok w)
      → HasCleanFields r.0
      → HasCleanFields (keep_field T k o r).0
  kept_field k excluded opaque inner o r e h c same d =
      subst (λ o. HasCleanFields (keep_field T k o r).0) (ok-injective _ _ h) d
  kept_field k generation opaque inner o r e h c same d =
      let (w, f, g) = >>=-eq-ok opaque _ h in
      subst (λ o. HasCleanFields (keep_field T k o r).0) (ok-injective _ _ g)
        (clean_payload k w r.0 e (same w f) d)
  kept_field k nested opaque inner none r e h c same d = d
  kept_field k nested opaque inner (some w) r e h c same d = clean_nested k w r.0 e (c (some w) h) d

  mutual
    unfolding model_arg_value

    value-Cleaned : (v : Json) (o : Option Json) → model_arg_value T v ≡ ok o → Cleaned o
    value-Cleaned null o h = subst Cleaned (ok-injective _ _ h) clean_null
    value-Cleaned nan o h = absurd (cc h)
    value-Cleaned other o h = absurd (cc h)
    value-Cleaned (flag b) o h = subst Cleaned (ok-injective _ _ h) (clean_flag b)
    value-Cleaned (num t) o h = subst Cleaned (ok-injective _ _ h) (clean_num t)
    value-Cleaned (text t) o h = url-Cleaned (T.is_url t) t refl o h
    value-Cleaned (arr xs) o h =
        let (r, e, f) = >>=-eq-ok (model_arg_items T xs) _ h in
        subst Cleaned (ok-injective _ _ f) (items-Cleaned r (items-AreClean xs r e))
    value-Cleaned (obj fs) o h =
        let (r, e, f) = >>=-eq-ok (model_arg_fields T fs) _ h in
        subst Cleaned (ok-injective _ _ f) (fields-Cleaned r (fields-HasCleanFields fs r e))

    items-AreClean : (xs : Items) (r : Items × Bool) → model_arg_items T xs ≡ ok r → AreClean r.0
    items-AreClean nil r h = subst (λ r. AreClean r.0) (ok-injective _ _ h) clean_nil
    items-AreClean (cons x xs) r h =
        let (y, e, f) = >>=-eq-ok (model_arg_value T x) _ h in
        let (ys, e1, f1) = >>=-eq-ok (model_arg_items T xs) _ f in
        subst (λ r. AreClean r.0) (ok-injective _ _ f1)
          (kept_item y ys (value-Cleaned x y e) (items-AreClean xs ys e1))

    fields-HasCleanFields :
        (fs : Fields) (r : Fields × Bool) → model_arg_fields T fs ≡ ok r → HasCleanFields r.0
    fields-HasCleanFields end r h = subst (λ r. HasCleanFields r.0) (ok-injective _ _ h) clean_end
    fields-HasCleanFields (field other_key v fs) r h = absurd (cc h)
    fields-HasCleanFields (field (text_key k) v fs) r h =
        let (kind, e, f) = >>=-eq-ok (model_arg_kind T k) _ h in
        let (w, e1, f1) =
          >>=-eq-ok (by_kind T kind (generation_value T v) (model_arg_value T v)) _ f in
        let (gs, e2, f2) = >>=-eq-ok (model_arg_fields T fs) _ f1 in
        subst (λ r. HasCleanFields r.0) (ok-injective _ _ f2)
          (kept_field k kind (generation_value T v) (model_arg_value T v) w gs e e1
            (value-Cleaned v) (generation_value_again v) (fields-HasCleanFields fs gs e2))

  Cleaned-or_empty : (o : Option Json) → Cleaned o → IsClean (or_empty T o)
  Cleaned-or_empty none c = clean_obj end clean_end
  Cleaned-or_empty (some v) c = c

  -- If canonical model arguments are returned, then every key in them, down to the payloads of
  -- generation arguments, is classified as a generation or nested argument, and no text outside
  -- those payloads is a URL.
  pub canonical_model_args-IsClean :
      (args : Option Json) (v : Json) → canonical_model_args T args ≡ ok v → IsClean v
  unfolding canonical_model_args
  canonical_model_args-IsClean none v h =
      subst IsClean (ok-injective _ _ h) (clean_obj end clean_end)
  canonical_model_args-IsClean (some (obj fs)) v h =
      let (o, e, f) = >>=-eq-ok (model_arg_value T (obj fs)) _ h in
      subst IsClean (ok-injective _ _ f) (Cleaned-or_empty o (value-Cleaned (obj fs) o e))
  canonical_model_args-IsClean (some null) v h = absurd (cc h)
  canonical_model_args-IsClean (some nan) v h = absurd (cc h)
  canonical_model_args-IsClean (some other) v h = absurd (cc h)
  canonical_model_args-IsClean (some (flag b)) v h = absurd (cc h)
  canonical_model_args-IsClean (some (num t)) v h = absurd (cc h)
  canonical_model_args-IsClean (some (text t)) v h = absurd (cc h)
  canonical_model_args-IsClean (some (arr xs)) v h = absurd (cc h)
