-- ===== src/Verify/Indexed.antt =====
-- The dicts of expected and stored documents that verify_dataset compares: what is in the lists is in
-- them, and the other way round.
use cogindex.Base.{
  List, [], ◌∷◌, Option, none, some, list_eq, nat_eq, ◌==◌, ==_sound, ==_refl, ◌≡◌, ◌⊎◌, refl, sym,
  ap, Text, ok, >>=-eq-ok, ok-injective, Bool-cases, inl, inr, ◌∙◌,
}
use mathlib.Core.Path.{subst}
use cogindex.Base.Dict
use cogindex.Base.Dict.{Dict, get-put}
use cogindex.Identity.{Primitives, Uuid, document_data_id, normalize_external_key}
use cogindex.Runtime.{StoredDocument}
use cogindex.Verify.{
  ExpectedDocument, Expected, Stored, expect_new, store_new, index_expected, index_stored,
}

abbrev pub Among : {A : Type 0} → A → List A → Type 0
Among a [] = ⊥
Among a (x ∷ xs) = (a ≡ x) ⊎ Among a xs

-- A new entry of a dict: it is there, the old ones are too, and nothing else is.
module _ {V : Type 0} (u : Uuid) (v : V) (d : Dict Uuid V) (fresh : Dict.get u d ≡ none) where
  put-new : Dict.get u (Dict.put u v d) ≡ some v
  put-new = get-put u u v d ∙ rw (==_refl u) refl

  put-old : (w : Uuid) (x : V) → Dict.get w d ≡ some x → Dict.get w (Dict.put u v d) ≡ some x
  put-old w x h = elim (Bool-cases (w == u)) [
    | inl q ↦ absurd (cc (rw (==_sound w u q) at h, fresh))
    | inr q ↦ get-put u w v d ∙ rw (q) h
  ]

  put-only :
      (w : Uuid) (x : V)
      → Dict.get w (Dict.put u v d) ≡ some x
      → ((w ≡ u) × (x ≡ v)) ⊎ (Dict.get w d ≡ some x)
  put-only w x h = elim (Bool-cases (w == u)) [
    | inl q ↦ inl (==_sound w u q, some_of (sym (get-put u w v d ∙ rw (q) refl) ∙ h))
    | inr q ↦ inr (sym (get-put u w v d ∙ rw (q) refl) ∙ h)
  ]
    where
      some_of : some v ≡ some x → x ≡ v
      some_of e = cc

expect_new-fresh :
    (o : Option ExpectedDocument) (u : Uuid) (item : ExpectedDocument) (known more : Expected)
    → expect_new o u item known ≡ ok more
    → (o ≡ none) × (more ≡ Dict.put u item known)
unfolding expect_new
expect_new-fresh none u item known more h = (refl, sym (ok-injective _ _ h))
expect_new-fresh (some p) u item known more h = absurd (cc h)

store_new-fresh :
    (o : Option StoredDocument) (d : StoredDocument) (known more : Stored)
    → store_new o d known ≡ ok more
    → (o ≡ none) × (more ≡ Dict.put d.data_id d known)
unfolding store_new
store_new-fresh none d known more h = (refl, sym (ok-injective _ _ h))
store_new-fresh (some p) d known more h = absurd (cc h)

-- What a list of stored documents comes to
pub record IsStored (documents : List StoredDocument) (known all : Stored) : Type 0 where
  pub kept : (u : Uuid) (d : StoredDocument) → Dict.get u known ≡ some d → Dict.get u all ≡ some d
  pub listed : (d : StoredDocument) → Among d documents → Dict.get d.data_id all ≡ some d
  pub only :
      (u : Uuid) (d : StoredDocument)
      → Dict.get u all ≡ some d
      → (Dict.get u known ≡ some d) ⊎ (Among d documents × (d.data_id ≡ u))

pub index_stored-IsStored :
    (documents : List StoredDocument) (known all : Stored)
    → index_stored documents known ≡ ok all
    → IsStored documents known all
unfolding index_stored
index_stored-IsStored [] known all h =
    subst (IsStored [] known) (ok-injective _ _ h)
      (record { kept = λ u d e. e; listed = λ d m. absurd m; only = λ u d e. inl e })
index_stored-IsStored (x ∷ rest) known all h =
    let (more, e, h1) = >>=-eq-ok (store_new (Dict.get x.data_id known) x known) _ h in
    let (fresh, put) = store_new-fresh (Dict.get x.data_id known) x known more e in
    let later = index_stored-IsStored rest (Dict.put x.data_id x known) all (rw put at h1) in
    record {
      kept = λ u d e. later.kept u d (put-old x.data_id x known fresh u d e);
      listed = λ d m. elim m [
        | inl same ↦ rw same (later.kept x.data_id x (put-new x.data_id x known fresh))
        | inr among ↦ later.listed d among
      ];
      only = λ u d e. elim (later.only u d e) [
        | inr (among, is_id) ↦ inr (inr among, is_id)
        | inl held ↦ elim (put-only x.data_id x known fresh u d held) [
          | inl (is_id, same) ↦ inr (inl same, ap (λ y. y.data_id) same ∙ sym is_id)
          | inr older ↦ inl older
        ]
      ];
    }

module _ (P : Primitives) (runtime_key scope tenant name : Text) where
  -- The identity of an expected document: that of its normalized key
  abbrev pub Identified : ExpectedDocument → Uuid → Type 0
  Identified item u =
      (key : Text) × (normalize_external_key P item.external_key ≡ ok key)
      × (document_data_id P runtime_key scope tenant name key ≡ ok u)

  pub record IsExpected (items : List ExpectedDocument) (known all : Expected) : Type 0 where
    pub kept :
        (u : Uuid) (e : ExpectedDocument) → Dict.get u known ≡ some e → Dict.get u all ≡ some e
    pub listed :
        (e : ExpectedDocument)
        → Among e items
        → (u : Uuid) × Identified e u × (Dict.get u all ≡ some e)
    pub only :
        (u : Uuid) (e : ExpectedDocument)
        → Dict.get u all ≡ some e
        → (Dict.get u known ≡ some e) ⊎ (Among e items × Identified e u)

  pub index_expected-IsExpected :
      (items : List ExpectedDocument) (known all : Expected)
      → index_expected P runtime_key scope tenant name items known ≡ ok all
      → IsExpected items known all
  unfolding index_expected
  index_expected-IsExpected [] known all h =
      subst (IsExpected [] known) (ok-injective _ _ h)
        (record { kept = λ u e q. q; listed = λ e m. absurd m; only = λ u e q. inl q })
  index_expected-IsExpected (x ∷ rest) known all h =
      let (key, normal, h1) = >>=-eq-ok (normalize_external_key P x.external_key) _ h in
      let (v, derived, h2) =
        >>=-eq-ok (document_data_id P runtime_key scope tenant name key) _ h1 in
      let (more, e, h3) = >>=-eq-ok (expect_new (Dict.get v known) v x known) _ h2 in
      let (fresh, put) = expect_new-fresh (Dict.get v known) v x known more e in
      let later = index_expected-IsExpected rest (Dict.put v x known) all (rw put at h3) in
      record {
        kept = λ u d q. later.kept u d (put-old v x known fresh u d q);
        listed = λ d m. elim m [
          | inl same ↦ rw same (v, (key, normal, derived), later.kept v x (put-new v x known fresh))
          | inr among ↦ later.listed d among
        ];
        only = λ u d q. elim (later.only u d q) [
          | inr (among, its) ↦ inr (inr among, its)
          | inl held ↦ elim (put-only v x known fresh u d held) [
            | inl (is_id, same) ↦ inr (inl same, rw (same, is_id) (key, normal, derived))
            | inr older ↦ inl older
          ]
        ];
      }
