-- ===== src/Target/Apply/Net.antt =====
-- What the batch of any list of actions does to one identity, stale identities and several actions
-- of one identity included.
use mathlib.Core.Path.{subst}
use cogindex.Base.{
  List, [], ◌∷◌, Bool, true, ◌||◌, ◌&&◌, not, Option, none, some, list_eq, nat_eq, ◌==◌, ◌≡◌, refl,
  arith, any, contains, is_some, ok, >>=-eq-ok, ok-injective, ◌∙◌, ap, if◌then◌else◌,
}
use cogindex.Base.Dict
use cogindex.Base.Dict.{Dict, get-put, contains-keys_lem}
use cogindex.Base.Sets.{contains-add, contains-update, contains-minus}
use cogindex.Base.Sets
use cogindex.Identity.{Uuid}
use cogindex.Runtime.{DocumentPayload}
use cogindex.Target.Reconcile.{DocumentOp, delete, DocumentAction}
use cogindex.Target.Apply.{
  Batch, empty_batch, collect_write, collect_op, collect_one, collect, settle,
}
use cogindex.Target.Apply.Marks.{is_delete, is_recreate, is_replace, is_cognify}

-- What one action asks of the identity
abbrev pub drops : Uuid → DocumentAction → Bool
drops u a = contains u a.stale_data_ids || (u == a.data_id && is_delete a.op)

abbrev pub renews : Uuid → DocumentAction → Bool
renews u a = u == a.data_id && is_recreate a.op

abbrev pub clears : Uuid → DocumentAction → Bool
clears u a = u == a.data_id && is_replace a.op

abbrev pub writes : Uuid → DocumentAction → Bool
writes u a = u == a.data_id && not (is_delete a.op)

-- The payload of the last write
unfoldable pub last_write :
    Uuid → List DocumentAction → Option DocumentPayload → Option DocumentPayload
last_write u [] old = old
last_write u (a ∷ rest) old = last_write u rest (if writes u a then a.payload else old)

-- One round of the loop
record Step (u : Uuid) (a : DocumentAction) (b c : Batch) : Type 0 where
  dropped : contains u c.delete_ids ≡ (if drops u a then true else contains u b.delete_ids)
  renewed : contains u c.recreate_ids ≡ (if renews u a then true else contains u b.recreate_ids)
  cleared : contains u c.purge_ids ≡ (if clears u a then true else contains u b.purge_ids)
  payload : Dict.get u c.payloads ≡ (if writes u a then a.payload else Dict.get u b.payloads)
  cognify : c.needs_cognify ≡ (if is_cognify a.op then true else b.needs_cognify)

module _ (u : Uuid) where
  collect_op-Step :
      (a : DocumentAction) (op : DocumentOp) (p : Option DocumentPayload) (b c : Batch)
      → a.op ≡ op
      → a.payload ≡ p
      → collect_op op a.data_id p
          (record b { delete_ids = Sets.update a.stale_data_ids b.delete_ids })
        ≡ ok c
      → Step u a b c
  unfolding collect_op collect_write
  collect_op-Step a delete p b c eop ep e = subst (Step u a b) (ok-injective _ _ e) (record {
    dropped = rw (eop) (
        ground (
          arith,
          contains-update u a.stale_data_ids b.delete_ids,
          contains-add u a.data_id (Sets.update a.stale_data_ids b.delete_ids),
        ));
    renewed = ground arith;
    cleared = ground arith;
    payload = ground arith;
    cognify = ground arith;
  })
  collect_op-Step a op none b c eop ep e = absurd (cc e)
  collect_op-Step a op (some p) b c eop ep e = subst (Step u a b) (ok-injective _ _ e) (record {
    dropped = ground (arith, contains-update u a.stale_data_ids b.delete_ids);
    renewed = ground (arith, contains-add u a.data_id b.recreate_ids);
    cleared = ground (arith, contains-add u a.data_id b.purge_ids);
    payload = ground (arith, get-put a.data_id u p b.payloads);
    cognify = ground arith;
  })

  collect_one-Step : (a : DocumentAction) (b c : Batch) → collect_one a b ≡ ok c → Step u a b c
  unfolding collect_one
  collect_one-Step a b c e = collect_op-Step a a.op a.payload b c refl refl e

  -- The loop over a list of actions
  record Loop (actions : List DocumentAction) (b c : Batch) : Type 0 where
    dropped :
        contains u c.delete_ids ≡ (if any (drops u) actions then true else contains u b.delete_ids)
    renewed :
        contains u c.recreate_ids
        ≡ (if any (renews u) actions then true else contains u b.recreate_ids)
    cleared :
        contains u c.purge_ids ≡ (if any (clears u) actions then true else contains u b.purge_ids)
    payload : Dict.get u c.payloads ≡ last_write u actions (Dict.get u b.payloads)
    cognify :
        c.needs_cognify ≡ (if any (λ a. is_cognify a.op) actions then true else b.needs_cognify)

  collect-Loop :
      (actions : List DocumentAction) (b c : Batch) → collect actions b ≡ ok c → Loop actions b c
  unfolding collect last_write
  collect-Loop [] b c e =
      subst (Loop [] b) (ok-injective _ _ e)
        (record { dropped = refl; renewed = refl; cleared = refl; payload = refl; cognify = refl })
  collect-Loop (a ∷ rest) b c e =
      let (d, first, later) = >>=-eq-ok (collect_one a b) (collect rest) e in
      let one = collect_one-Step a b d first in
      let more = collect-Loop rest d c later in
      record {
        dropped = ground (arith, one.dropped, more.dropped);
        renewed = ground (arith, one.renewed, more.renewed);
        cleared = ground (arith, one.cleared, more.cleared);
        payload = more.payload ∙ ap (last_write u rest) one.payload;
        cognify = ground (arith, one.cognify, more.cognify);
      }

-- The batch that is applied deletes what is recreated, and what is dropped and not written; it
-- purges what is replaced and not recreated.
pub record IsNet (u : Uuid) (actions : List DocumentAction) (b : Batch) : Type 0 where
  pub deleted :
      contains u b.delete_ids
      ≡ any (renews u) actions
        || (any (drops u) actions && not (is_some (last_write u actions none)))
  pub purged : contains u b.purge_ids ≡ any (clears u) actions && not (any (renews u) actions)
  pub payload : Dict.get u b.payloads ≡ last_write u actions none
  pub cognify : b.needs_cognify ≡ any (λ a. is_cognify a.op) actions

-- If the loop over any actions returns, then in the settled batch an identity is deleted exactly if
-- one of its actions is a recreate, or one is a delete or has it as stale and none writes it; it is
-- purged exactly if one is a replace and none is a recreate; its payload is that of its last write;
-- and the batch cognifies exactly if one of all actions is a create, a replace or a recreate.
pub settle-IsNet :
    (actions : List DocumentAction) (b : Batch)
    → collect actions empty_batch ≡ ok b
    → (u : Uuid) → IsNet u actions (settle b)
unfolding settle Dict.get
settle-IsNet actions b e u =
    let all = collect-Loop u actions empty_batch b e in
    record {
      deleted = ground (
        arith,
        all.dropped,
        all.renewed,
        all.payload,
        contains-update u b.recreate_ids (Sets.minus b.delete_ids (Dict.keys b.payloads)),
        contains-minus u b.delete_ids (Dict.keys b.payloads),
        contains-keys_lem u b.payloads,
      );
      purged =
          ground (arith, all.renewed, all.cleared, contains-minus u b.purge_ids b.recreate_ids);
      payload = all.payload;
      cognify = ground (arith, all.cognify);
    }
