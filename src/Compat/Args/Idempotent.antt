-- ===== src/Compat/Args/Idempotent.antt =====
-- Canonical model arguments are their own canonical form.
use cogindex.Base.{
  Bool, true, false, Option, none, some, ◌≡◌, refl, sym, ◌∙◌, ap, ok, >>=-eq-ok, ok-injective,
}
use cogindex.Identity.Value.{
  Json, Items, Fields, nil, cons, end, field, null, nan, other, flag, num, text, arr, obj,
}
use cogindex.Compat.Args.{
  TextTests, or_omit_fields, or_omit_items, or_empty, model_arg_value, model_arg_items,
  model_arg_fields, canonical_model_args,
}
use cogindex.Compat.Args.Clean.{
  IsClean, clean_null, clean_flag, clean_num, clean_text, clean_arr, clean_obj, AreClean, clean_nil,
  clean_cons, HasCleanFields, clean_end, clean_nested, clean_payload, canonical_model_args-IsClean,
}

module _ (T : TextTests) where
  items_kept : (xs : Items) → or_omit_items T (xs, false) ≡ some (arr xs)
  items_kept nil = refl
  items_kept (cons x xs) = refl

  fields_kept : (fs : Fields) → or_omit_fields T (fs, false) ≡ some (obj fs)
  fields_kept end = refl
  fields_kept (field k v fs) = refl

  mutual
    unfolding model_arg_value

    value_again : (v : Json) → IsClean T v → model_arg_value T v ≡ ok (some v)
    value_again v clean_null = refl
    value_again v (clean_flag b) = refl
    value_again v (clean_num t) = refl
    value_again v (clean_text t e) = rw e refl
    value_again v (clean_arr xs c) = rw (items_again xs c, items_kept xs) refl
    value_again v (clean_obj fs c) = rw (fields_again fs c, fields_kept fs) refl

    items_again : (xs : Items) → AreClean T xs → model_arg_items T xs ≡ ok (xs, false)
    items_again xs clean_nil = refl
    items_again xs (clean_cons y ys c d) = rw (value_again y c, items_again ys d) refl

    fields_again : (fs : Fields) → HasCleanFields T fs → model_arg_fields T fs ≡ ok (fs, false)
    fields_again fs clean_end = refl
    fields_again fs (clean_nested k v gs e c d) = rw (e, value_again v c, fields_again gs d) refl
    fields_again fs (clean_payload k v gs e g d) = rw (e, g, fields_again gs d) refl

  again_obj :
      (v : Json) → IsClean T v → (fs : Fields) → v ≡ obj fs → canonical_model_args T (some v) ≡ ok v
  unfolding canonical_model_args
  again_obj v c fs e = rw e (rw (value_again (obj fs) (rw e at c)) refl)

  mapping_left : (r : Fields × Bool) → (fs : Fields) × (or_empty T (or_omit_fields T r) ≡ obj fs)
  mapping_left (end, true) = (end, refl)
  mapping_left (end, false) = (end, refl)
  mapping_left (field k v fs, b) = (field k v fs, refl)

  is_mapping :
      (args : Option Json) (v : Json)
      → canonical_model_args T args ≡ ok v
      → (fs : Fields) × (v ≡ obj fs)
  unfolding canonical_model_args model_arg_value
  is_mapping none v h = (end, sym (ok-injective _ _ h))
  is_mapping (some (obj fs)) v h =
      let (o, e, f) = >>=-eq-ok (model_arg_value T (obj fs)) _ h in
      let (r, e1, f1) = >>=-eq-ok (model_arg_fields T fs) _ e in
      let (gs, g) = mapping_left r in
      (gs, sym (ok-injective _ _ f) ∙ (ap (or_empty T) (sym (ok-injective _ _ f1)) ∙ g))
  is_mapping (some null) v h = absurd (cc h)
  is_mapping (some nan) v h = absurd (cc h)
  is_mapping (some other) v h = absurd (cc h)
  is_mapping (some (flag b)) v h = absurd (cc h)
  is_mapping (some (num t)) v h = absurd (cc h)
  is_mapping (some (text t)) v h = absurd (cc h)
  is_mapping (some (arr xs)) v h = absurd (cc h)

  -- The canonical form of canonical model arguments is those arguments: nothing more is left out,
  -- changed or refused.
  pub canonical_model_args-canonical_model_args :
      (args : Option Json) (v : Json)
      → canonical_model_args T args ≡ ok v
      → canonical_model_args T (some v) ≡ ok v
  canonical_model_args-canonical_model_args args v h =
      let (fs, e) = is_mapping args v h in
      again_obj v (canonical_model_args-IsClean T args v h) fs e
