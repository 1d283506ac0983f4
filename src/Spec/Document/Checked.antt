-- ===== src/Spec/Document/Checked.antt =====
-- What the checks of CogneeDocumentSpec let through.
use cogindex.Base.{
  suc, ◌+◌, ◌≤◌, List, [], ◌∷◌, Bool, true, false, ◌||◌, not, Option, none, some, Text, map, length,
  any, contains, list_eq, nat_eq, ◌==◌, ==_sound, ==_refl, ◌≡◌, refl, sym, ap, arith, ok, PyError,
  >>=-eq-ok, ok-injective, refuse, Bool-cases, inl, inr, ◌∙◌,
}
use mathlib.Core.Path.{subst}
use cogindex.Base.Sets
use cogindex.Identity.{validate_json_object_keys, validate_fields, validate_items}
use cogindex.Identity.Value.{
  Json, Items, Fields, null, nan, other, flag, num, text, arr, obj, nil, cons, end, field, text_key,
  other_key,
}
use cogindex.Spec.Profile.{is_blank}
use cogindex.Spec.Document.{
  NodeSetArg, bare, entries, WeightArg, boolean, not_finite, finite, all_texts, check_nodes,
  check_weight,
}

-- Every mapping in a value has only texts as keys.
mutual
  pub data HasTextKeys : Json → Type 0 where
    keys_null : HasTextKeys null
    keys_nan : HasTextKeys nan
    keys_other : HasTextKeys other
    keys_flag : (b : Bool) → HasTextKeys (flag b)
    keys_num : (t : Text) → HasTextKeys (num t)
    keys_text : (t : Text) → HasTextKeys (text t)
    keys_arr : (xs : Items) → AreTextKeyed xs → HasTextKeys (arr xs)
    keys_obj : (fs : Fields) → AreTextFields fs → HasTextKeys (obj fs)

  pub data AreTextKeyed : Items → Type 0 where
    keys_nil : AreTextKeyed nil
    keys_cons : (x : Json) (xs : Items) → HasTextKeys x → AreTextKeyed xs → AreTextKeyed (cons x xs)

  pub data AreTextFields : Fields → Type 0 where
    keys_end : AreTextFields end
    keys_field :
        (k : Text) (v : Json) (fs : Fields)
        → HasTextKeys v
        → AreTextFields fs
        → AreTextFields (field (text_key k) v fs)

mutual
  unfolding validate_json_object_keys

  pub validate_json_object_keys-HasTextKeys :
      (v : Json) → validate_json_object_keys v ≡ ok tt → HasTextKeys v
  validate_json_object_keys-HasTextKeys null h = keys_null
  validate_json_object_keys-HasTextKeys nan h = keys_nan
  validate_json_object_keys-HasTextKeys other h = keys_other
  validate_json_object_keys-HasTextKeys (flag b) h = keys_flag b
  validate_json_object_keys-HasTextKeys (num t) h = keys_num t
  validate_json_object_keys-HasTextKeys (text t) h = keys_text t
  validate_json_object_keys-HasTextKeys (arr xs) h = keys_arr xs (items_keyed xs h)
  validate_json_object_keys-HasTextKeys (obj fs) h = keys_obj fs (fields_keyed fs h)

  items_keyed : (xs : Items) → validate_items xs ≡ ok tt → AreTextKeyed xs
  items_keyed nil h = keys_nil
  items_keyed (cons x xs) h =
      let (u, e, f) = >>=-eq-ok (validate_json_object_keys x) _ h in
      keys_cons x xs (validate_json_object_keys-HasTextKeys x e) (items_keyed xs f)

  fields_keyed : (fs : Fields) → validate_fields fs ≡ ok tt → AreTextFields fs
  fields_keyed end h = keys_end
  fields_keyed (field other_key v fs) h = absurd (cc h)
  fields_keyed (field (text_key k) v fs) h =
      let (u, e, f) = >>=-eq-ok (validate_json_object_keys v) _ h in
      keys_field k v fs (validate_json_object_keys-HasTextKeys v e) (fields_keyed fs f)

-- Nodes that are not blank, have no NUL, and are all different
abbrev pub AreNodes : List Text → Type 0
AreNodes [] = Unit
AreNodes (n ∷ ns) =
    (is_blank n ≡ false) × (contains 0 n ≡ false) × (contains n ns ≡ false) × AreNodes ns

-- A node set as it is passed, and as it is kept
abbrev pub IsNodeSet : Option NodeSetArg → Option (List Text) → Type 0
IsNodeSet none none = Unit
IsNodeSet (some (entries es)) (some nodes) = (es ≡ map some nodes) × AreNodes nodes
IsNodeSet _ _ = ⊥

abbrev pub IsWeight : Option WeightArg → Option Text → Type 0
IsWeight none none = Unit
IsWeight (some (finite t)) (some w) = w ≡ t
IsWeight _ _ = ⊥

all_texts_lem : (es : List (Option Text)) (ts : List Text) → all_texts es ≡ ok ts → es ≡ map some ts
unfolding all_texts
all_texts_lem [] ts h = rw (sym (ok-injective _ _ h)) refl
all_texts_lem (none ∷ es) ts h = absurd (cc h)
all_texts_lem (some t ∷ es) ts h =
    let (more, e, f) = >>=-eq-ok (all_texts es) _ h in
    rw (sym (ok-injective _ _ f), all_texts_lem es more e) refl

-- No entry is in the set or before itself.
abbrev Fresh : List Text → List Text → Type 0
Fresh [] s = Unit
Fresh (x ∷ xs) s = (contains x s ≡ false) × Fresh xs (x ∷ s)

length-add : (x : Text) (s : List Text) → length (Sets.add x s) ≤ suc (length s)
unfolding Sets.add
length-add x s = ground arith

add_known : (x : Text) (s : List Text) → contains x s ≡ true → Sets.add x s ≡ s
unfolding Sets.add
add_known x s p = rw (p) refl

add_new : (x : Text) (s : List Text) → contains x s ≡ false → Sets.add x s ≡ x ∷ s
unfolding Sets.add
add_new x s p = rw (p) refl

length-update : (xs s : List Text) → length (Sets.update xs s) ≤ length xs + length s
unfolding Sets.update
length-update [] s = ground arith
length-update (x ∷ xs) s =
    let more = length-update xs (Sets.add x s) in let one = length-add x s in omega arith

update-Fresh : (xs s : List Text) → length (Sets.update xs s) ≡ length xs + length s → Fresh xs s
unfolding Sets.update
update-Fresh [] s h = tt
update-Fresh (x ∷ xs) s h = elim (Bool-cases (contains x s)) [
  | inl p ↦
      let few = length-update xs s in
      let same : length (Sets.update xs s) ≡ suc (length xs) + length s =
        ap (λ t. length (Sets.update xs t)) (sym (add_known x s p)) ∙ h in
      absurd (omega arith)
  | inr p ↦
      let grown : length (Sets.update xs (x ∷ s)) ≡ suc (length xs) + length s =
        ap (λ t. length (Sets.update xs t)) (sym (add_new x s p)) ∙ h in
      (p, update-Fresh xs (x ∷ s) (omega arith))
]

Fresh-apart :
    (y : Text) (xs s : List Text) → contains y s ≡ true → Fresh xs s → contains y xs ≡ false
Fresh-apart y [] s c f = refl
Fresh-apart y (x ∷ xs) s c (new, f) = elim (Bool-cases (y == x)) [
  | inl p ↦ absurd (cc (rw (==_sound y x p) at c, new))
  | inr p ↦ rw (p) (Fresh-apart y xs (x ∷ s) (rw (p) c) f)
]

AreNodes-of :
    (ns s : List Text)
    → Fresh ns s
    → any (λ node. is_blank node || contains 0 node) ns ≡ false
    → AreNodes ns
AreNodes-of [] s f h = tt
AreNodes-of (n ∷ ns) s (new, f) h =
    let later : any (λ node. is_blank node || contains 0 node) ns ≡ false = ground arith in
    (
      ground arith,
      ground arith,
      Fresh-apart n ns (n ∷ s) (rw (==_refl n) refl) f,
      AreNodes-of ns (n ∷ s) f later,
    )

refused : (b : Bool) (e : PyError) {u : Unit {0}} → refuse b e ≡ ok u → b ≡ false
refused true e h = absurd (cc h)
refused false e h = refl

same_length :
    (ns : List Text)
    → not (length (Sets.update ns []) == length ns) ≡ false
    → length (Sets.update ns []) ≡ length ns + 0
same_length ns h =
    let equal : (length (Sets.update ns []) == length ns) ≡ true = ground arith in
    let same = ==_sound (length (Sets.update ns [])) (length ns) equal in omega arith

pub check_nodes-IsNodeSet :
    (given : Option NodeSetArg) (kept : Option (List Text))
    → check_nodes given ≡ ok kept
    → IsNodeSet given kept
unfolding check_nodes
check_nodes-IsNodeSet none none h = tt
check_nodes-IsNodeSet none (some ns) h = absurd (cc h)
check_nodes-IsNodeSet (some bare) kept h = absurd (cc h)
check_nodes-IsNodeSet (some (entries es)) kept h =
    let (nodes, e, h1) = >>=-eq-ok (all_texts es) _ h in
    let (u, e1, h2) =
      >>=-eq-ok (refuse (any (λ node. is_blank node || contains 0 node) nodes) _) _ h1 in
    let (v, e2, h3) =
      >>=-eq-ok (refuse (not (length (Sets.update nodes []) == length nodes)) _) _ h2 in
    let length_same =
      same_length nodes (refused (not (length (Sets.update nodes []) == length nodes)) _ e2) in
    subst (IsNodeSet (some (entries es))) (ok-injective _ _ h3) (
      all_texts_lem es nodes e,
      AreNodes-of nodes [] (update-Fresh nodes [] length_same)
          (refused (any (λ node. is_blank node || contains 0 node) nodes) _ e1),
    )

pub check_weight-IsWeight :
    (given : Option WeightArg) (kept : Option Text)
    → check_weight given ≡ ok kept
    → IsWeight given kept
unfolding check_weight
check_weight-IsWeight none none h = tt
check_weight-IsWeight none (some w) h = absurd (cc h)
check_weight-IsWeight (some boolean) kept h = absurd (cc h)
check_weight-IsWeight (some not_finite) kept h = absurd (cc h)
check_weight-IsWeight (some (finite t)) none h = absurd (cc h)
check_weight-IsWeight (some (finite t)) (some w) h = ground arith
