-- ===== src/Engine/Sync/Site.antt =====
-- The keys of one dataset: their identities, and what a round decides for each.
use cogindex.Base.{
  [], Bool, ◌||◌, Option, some, Text, list_eq, nat_eq, ◌≡◌, refl, sym, ◌∙◌, arith, contains,
  is_some, text_leb, ok, Option-cases, inl, inr,
}
use cogindex.Base.Dict
use cogindex.Base.Dict.{contains-keys_lem}
use cogindex.Base.Sets
use cogindex.Base.Sets.{contains-sorted, contains-update}
use cogindex.Identity.{
  Primitives, Uuid, cogindex_namespace, normalize_external_key, document_data_id,
}
use cogindex.Identity.Distinct.{NamesApart, segments}
use cogindex.Identity.Join.{canonical_join, canonical_join-injective}
use cogindex.Spec.Document.{CogneeDocumentSpec}
use cogindex.Target.Statediff.{Diff}
use cogindex.Target.Reconcile.{DocumentHandler, Output, decide, handler_data_id, reconcile}
use cogindex.Engine.Entry.{TrackEntry, previous, missing}
use cogindex.Engine.Outputs.{outputs_of, reconcile_keys-outputs_of}
use cogindex.Engine.Round.{Declared, Tracking, round_keys, reconcile_key, reconcile_round}

module _ (P : Primitives) (handler : DocumentHandler) where
  -- The identity of a normalized key.
  abbrev pub id_at : Text → Uuid
  id_at k = P.uuid5 (cogindex_namespace P) (
      canonical_join (
        segments handler.runtime_key handler.handle.identity_scope handler.handle.tenant
          handler.handle.name k))

  pub id_at-injective : NamesApart P → (j k : Text) → id_at j ≡ id_at k → j ≡ k
  id_at-injective apart j k h =
      let joined : segments handler.runtime_key handler.handle.identity_scope handler.handle.tenant
            handler.handle.name j
          ≡ segments handler.runtime_key handler.handle.identity_scope handler.handle.tenant
              handler.handle.name k =
        canonical_join-injective _ _ (apart (cogindex_namespace P) _ _ h) in
      ground arith

  -- A key as the handler keeps it, whose identity can be derived.
  abbrev pub IsKey : Text → Type 0
  IsKey k =
      (normalize_external_key P k ≡ ok k)
      × (document_data_id P handler.runtime_key handler.handle.identity_scope handler.handle.tenant
            handler.handle.name k
          ≡ ok (id_at k))

  module _ (diff : Diff) (declared : Declared) (tracking : Tracking) where
    abbrev pub decided_at : Text → Option Output
    decided_at k =
        decide P diff handler k (id_at k) (Dict.get k declared) (previous (Dict.get k tracking))
          (missing (Dict.get k tracking))

    abbrev pub listed : Text → Bool
    listed k = contains k (round_keys declared tracking)

    pub listed_lem :
        (k : Text) → listed k ≡ is_some (Dict.get k declared) || is_some (Dict.get k tracking)
    unfolding round_keys
    listed_lem k = ground (
      arith,
      contains-sorted text_leb k
          (Sets.update (Dict.keys tracking) (Sets.update (Dict.keys declared) [])),
      contains-update k (Dict.keys tracking) (Sets.update (Dict.keys declared) []),
      contains-update k (Dict.keys declared) [],
      contains-keys_lem k declared,
      contains-keys_lem k tracking,
    )

    reconcile_key-IsKey :
        (k : Text) → IsKey k → reconcile_key P diff handler declared tracking k ≡ ok (decided_at k)
    unfolding reconcile_key reconcile handler_data_id
    reconcile_key-IsKey k (normal, derived) = rw (normal, derived) refl

    -- A round over good keys returns the outputs that are decided.
    pub reconcile_round-outputs_of :
        ((k : Text) (s : CogneeDocumentSpec) → Dict.get k declared ≡ some s → IsKey k)
        → ((k : Text) (e : TrackEntry) → Dict.get k tracking ≡ some e → IsKey k)
        → reconcile_round P diff handler declared tracking
          ≡ ok (outputs_of decided_at (round_keys declared tracking))
    unfolding reconcile_round
    reconcile_round-outputs_of named known =
        reconcile_keys-outputs_of P diff handler declared tracking decided_at
          (round_keys declared tracking)
          λ k m. reconcile_key-IsKey k (elim (Option-cases (Dict.get k declared)) [
            | inr (s, q) ↦ named k s q
            | inl q ↦ elim (Option-cases (Dict.get k tracking)) [
              | inr (e, r) ↦ known k e r
              | inl r ↦ absurd (cc (sym m ∙ listed_lem k, q, r))
            ]
          ])
