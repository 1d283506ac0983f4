-- ===== src/Identity/Distinct.antt =====
-- Document identities of `document_data_id`: what two equal identities have in common.
use cogindex.Base.{◌≡◌, List, [], ◌∷◌, Text, ok}
use cogindex.Base.{sym, ◌∙◌, arith, nat_eq}
use cogindex.Identity.{
  Primitives, Uuid, cogindex_namespace, document_data_id, normalize_external_key,
  identity_schema_version,
}
use cogindex.Identity.Decimal.{decimal}
use cogindex.Identity.Join.{canonical_join, canonical_join-injective}

-- UUID5 gives different names different UUIDs in one namespace.
abbrev pub NamesApart : Primitives → Type 0
NamesApart P = (space : Uuid) (s t : Text) → P.uuid5 space s ≡ P.uuid5 space t → s ≡ t

abbrev pub segments : Text → Text → Text → Text → Text → List Text
segments runtime_key scope tenant name key =
    decimal identity_schema_version ∷ runtime_key ∷ scope ∷ tenant ∷ name ∷ key ∷ []

module _ (P : Primitives) where
  -- A derived identity is the UUID5 of the six joined segments, the key normalized.
  pub document_data_id-ok :
      (runtime_key scope tenant name key : Text) (u : Uuid)
      → document_data_id P runtime_key scope tenant name key ≡ ok u
      → (normal : Text) × (normalize_external_key P key ≡ ok normal)
        × (u
            ≡ P.uuid5
                (cogindex_namespace P)
                (canonical_join (segments runtime_key scope tenant name normal)))
  unfolding document_data_id
  document_data_id-ok runtime_key scope tenant name key u h =
      (P.nfc key, ground arith, ground arith)

  -- If UUID5 tells different names apart, then coordinates and keys with one identity have the same
  -- runtime key, scope, tenant and dataset, and keys with one normal form.
  pub document_data_id-injective :
      NamesApart P
      → (rk rk' scope scope' tenant tenant' name name' key key' : Text) (u : Uuid)
      → document_data_id P rk scope tenant name key ≡ ok u
      → document_data_id P rk' scope' tenant' name' key' ≡ ok u
      → (rk ≡ rk')
        × (scope ≡ scope')
        × (tenant ≡ tenant')
        × (name ≡ name')
        × (P.nfc key ≡ P.nfc key')
  unfolding normalize_external_key
  document_data_id-injective apart rk rk' scope scope' tenant tenant' name name' key key' u h h' =
      let (n, e, p) = document_data_id-ok rk scope tenant name key u h in
      let (n', e', p') = document_data_id-ok rk' scope' tenant' name' key' u h' in
      let joined : segments rk scope tenant name n ≡ segments rk' scope' tenant' name' n' =
        canonical_join-injective (segments rk scope tenant name n)
          (segments rk' scope' tenant' name' n') (apart (cogindex_namespace P) _ _ (sym p ∙ p')) in
      ground arith
