-- ===== src/Target/Apply.antt =====
-- `DocumentHandler._apply`: what a batch does, and in which order.
pub mod Marks
pub mod Plan
pub mod Net
use cogindex.Base.{
  ℕ, List, [], ◌∷◌, Bool, true, false, Option, none, some, is_empty, nat_eq, list_eq, Text, Result,
  ok, err, runtime_error, ◌>>=◌, if◌then◌else◌,
}
use cogindex.Base.Dict
use cogindex.Base.Dict.{Dict}
use cogindex.Base.Exec
use cogindex.Base.Exec.{Exec}
use cogindex.Base.Sets
use cogindex.Identity.{Uuid}
use cogindex.Runtime.{CogneeRuntime, DatasetHandle, DocumentPayload}
use cogindex.Spec.Profile.{CognifyProfile}
use cogindex.Target.Reconcile.{
  DocumentOp, upsert, replace, recreate, update_metadata, delete, DocumentAction, DocumentHandler,
  ordered,
}

-- The variables of the loop over the actions.
pub record Batch : Type 0 where
  pub delete_ids : List Uuid
  pub purge_ids : List Uuid
  pub recreate_ids : List Uuid
  pub payloads : Dict Uuid DocumentPayload
  pub needs_cognify : Bool

abbrev pub empty_batch : Batch
empty_batch = record {
  delete_ids = [];
  purge_ids = [];
  recreate_ids = [];
  payloads = [];
  needs_cognify = false;
}

unfoldable pub collect_write : DocumentOp → Uuid → DocumentPayload → Batch → Batch
unfolding Dict.put Sets.add
collect_write op u p b =
    let c = record b { payloads = Dict.put u p b.payloads } in
    elim op [
      | replace ↦ record c { purge_ids = Sets.add u b.purge_ids; needs_cognify = true }
      | recreate ↦ record c { recreate_ids = Sets.add u b.recreate_ids; needs_cognify = true }
      | upsert ↦ record c { needs_cognify = true }
      | update_metadata ↦ c
      | delete ↦ c
    ]

unfoldable pub collect_op : DocumentOp → Uuid → Option DocumentPayload → Batch → Result Batch
unfolding collect_write
collect_op delete u payload b = ok (record b { delete_ids = Sets.add u b.delete_ids })
collect_op op u none b = err runtime_error
collect_op op u (some p) b = ok (collect_write op u p b)

unfoldable pub collect_one : DocumentAction → Batch → Result Batch
unfolding collect_op Sets.update
collect_one a b =
    collect_op a.op a.data_id a.payload
      (record b { delete_ids = Sets.update a.stale_data_ids b.delete_ids })

unfoldable pub collect : List DocumentAction → Batch → Result Batch
unfolding collect_one
collect [] b = ok b
collect (a ∷ rest) b = collect_one a b >>= collect rest

-- No identity that is written is deleted, except to be recreated.
unfoldable pub settle : Batch → Batch
unfolding Sets.minus Sets.update Dict.keys
settle b = record b {
  delete_ids = Sets.update b.recreate_ids (Sets.minus b.delete_ids (Dict.keys b.payloads));
  purge_ids = Sets.minus b.purge_ids b.recreate_ids;
}

abbrev pub kept : Option DocumentPayload → List DocumentPayload → List DocumentPayload
kept none ps = ps
kept (some p) ps = p ∷ ps

-- `[payloads[data_id] for data_id in ids]`
unfoldable pub payloads_of : Dict Uuid DocumentPayload → List Uuid → List DocumentPayload
unfolding Dict.get
payloads_of d [] = []
payloads_of d (u ∷ rest) = kept (Dict.get u d) (payloads_of d rest)

module _ {S : Type 0} (runtime : CogneeRuntime S) where
  -- The end of a `with` block: the lock is released whether the body returned or raised.
  abbrev pub leave : {A : Type 0} → DatasetHandle → Result A → Exec S A
  leave handle r s =
      let released = runtime.release handle s in
      elim released.0 [ ok _ ↦ (r, released.1) | err e ↦ (err e, released.1) ]

  abbrev pub with_lock : {A : Type 0} → DatasetHandle → Exec S A → Exec S A
  with_lock handle body s =
      let entered = runtime.acquire handle s in
      elim entered.0 [
        | err e ↦ (err e, entered.1)
        | ok _ ↦ let r = body entered.1 in leave handle r.0 r.1
      ]

  unfoldable pub delete_phase : DatasetHandle → List Uuid → Exec S (Unit {0})
  delete_phase handle [] = Exec.pure tt
  delete_phase handle (u ∷ us) = runtime.delete_documents handle (ordered (u ∷ us))

  unfoldable pub purge_phase : DatasetHandle → List Uuid → Exec S (Unit {0})
  purge_phase handle [] = Exec.pure tt
  purge_phase handle (u ∷ us) = runtime.purge_document_memory handle (ordered (u ∷ us))

  unfoldable pub add_phase : DatasetHandle → Dict Uuid DocumentPayload → Exec S DatasetHandle
  unfolding payloads_of Dict.keys
  add_phase handle [] = Exec.pure handle
  add_phase handle (e ∷ d) =
      runtime.add_documents handle (payloads_of (e ∷ d) (ordered (Dict.keys (e ∷ d))))

  unfoldable pub cognify_phase : DatasetHandle → CognifyProfile → Bool → Exec S (Unit {0})
  cognify_phase handle profile false = Exec.pure tt
  cognify_phase handle profile true = runtime.cognify_dataset handle profile

  unfoldable pub run_phases : DatasetHandle → CognifyProfile → Batch → Exec S (Unit {0})
  unfolding delete_phase purge_phase add_phase cognify_phase
  run_phases handle profile b = Exec.◌>>=◌ (delete_phase handle b.delete_ids) λ _.
      Exec.◌>>=◌ (purge_phase handle b.purge_ids) λ _.
        Exec.◌>>=◌ (add_phase handle b.payloads)
          λ handle'. cognify_phase handle' profile b.needs_cognify

  unfoldable pub apply : DocumentHandler → List DocumentAction → Exec S (Unit {0})
  unfolding collect settle run_phases
  apply handler actions s = elim (collect actions empty_batch) [
    | err e ↦ (err e, s)
    | ok b ↦ with_lock handler.handle (run_phases handler.handle handler.profile (settle b)) s
  ]
