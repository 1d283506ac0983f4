-- ===== src/Target/Apply/Marks.antt =====
-- What the batch of a list of actions does to one identity: what its action asks for.
use mathlib.Core.Path.{subst}
use cogindex.Base.{
  List, [], ◌∷◌, Bool, true, false, ◌||◌, Option, none, some, list_eq, nat_eq, ◌==◌, ==_sound, ◌≡◌,
  refl, sym, arith, any, contains, is_some, ok, >>=-eq-ok, ok-injective, ◌⊎◌, ◌∙◌, ap,
  if◌then◌else◌, Bool-cases, inl, inr,
}
use cogindex.Base.Dict
use cogindex.Base.Dict.{Dict, get-put, contains-keys_lem}
use cogindex.Base.Sets.{contains-add, contains-update, contains-minus}
use cogindex.Base.Sets
use cogindex.Identity.{Uuid}
use cogindex.Runtime.{DocumentPayload}
use cogindex.Target.Reconcile.{
  DocumentOp, upsert, replace, recreate, update_metadata, delete, DocumentAction,
}
use cogindex.Target.Apply.{
  Batch, empty_batch, collect_write, collect_op, collect_one, collect, settle,
}

abbrev pub is_delete : DocumentOp → Bool
is_delete delete = true
is_delete upsert = false
is_delete replace = false
is_delete recreate = false
is_delete update_metadata = false

abbrev pub is_recreate : DocumentOp → Bool
is_recreate recreate = true
is_recreate upsert = false
is_recreate replace = false
is_recreate delete = false
is_recreate update_metadata = false

abbrev pub is_replace : DocumentOp → Bool
is_replace replace = true
is_replace upsert = false
is_replace recreate = false
is_replace delete = false
is_replace update_metadata = false

abbrev pub is_cognify : DocumentOp → Bool
is_cognify replace = true
is_cognify upsert = true
is_cognify recreate = true
is_cognify delete = false
is_cognify update_metadata = false

abbrev pub written_of : DocumentOp → Option DocumentPayload → Option DocumentPayload
written_of delete p = none
written_of upsert p = p
written_of replace p = p
written_of recreate p = p
written_of update_metadata p = p

-- What an optional action of an identity asks for.
abbrev pub deletes : Option DocumentAction → Bool
deletes none = false
deletes (some a) = is_delete a.op

abbrev pub recreates : Option DocumentAction → Bool
recreates none = false
recreates (some a) = is_recreate a.op

abbrev pub replaces : Option DocumentAction → Bool
replaces none = false
replaces (some a) = is_replace a.op

abbrev pub cognifies : Option DocumentAction → Bool
cognifies none = false
cognifies (some a) = is_cognify a.op

abbrev pub written : Option DocumentAction → Option DocumentPayload
written none = none
written (some a) = written_of a.op a.payload

-- The variables of the loop hold, of the identity, what the action asks for.
pub record At (u : Uuid) (b : Batch) (o : Option DocumentAction) : Type 0 where
  pub deleted : contains u b.delete_ids ≡ deletes o
  pub recreated : contains u b.recreate_ids ≡ recreates o
  pub purged : contains u b.purge_ids ≡ replaces o
  pub payload : Dict.get u b.payloads ≡ written o
  pub cognify : cognifies o ≡ true → b.needs_cognify ≡ true

pub At-empty : (u : Uuid) → At u empty_batch none
unfolding Dict.get
At-empty u = record {
  deleted = refl;
  recreated = refl;
  purged = refl;
  payload = refl;
  cognify = λ h. absurd (cc h);
}

module _ (u : Uuid) where
  collect_write-other :
      (op : DocumentOp) (v : Uuid) (p : DocumentPayload) (b : Batch) (o : Option DocumentAction)
      → (u == v) ≡ false
      → At u b o
      → At u (collect_write op v p b) o
  unfolding collect_write
  collect_write-other op v p b o other h = record {
    deleted = ground (arith, h.deleted);
    recreated = ground (arith, h.recreated, contains-add u v b.recreate_ids);
    purged = ground (arith, h.purged, contains-add u v b.purge_ids);
    payload = ground (arith, h.payload, get-put v u p b.payloads);
    cognify = λ c. ground (arith, h.cognify c);
  }

  collect_op-other :
      (op : DocumentOp) (v : Uuid) (p : Option DocumentPayload) (b b' : Batch)
      (o : Option DocumentAction)
      → (u == v) ≡ false
      → collect_op op v p b ≡ ok b'
      → At u b o
      → At u b' o
  unfolding collect_op
  collect_op-other delete v p b b' o other e h =
      subst (λ c. At u c o) (ok-injective _ _ e)
        (record {
          deleted = ground (arith, h.deleted, contains-add u v b.delete_ids);
          recreated = h.recreated;
          purged = h.purged;
          payload = h.payload;
          cognify = h.cognify;
        })
  collect_op-other op v none b b' o other e h = absurd (cc e)
  collect_op-other op v (some p) b b' o other e h =
      subst (λ c. At u c o) (ok-injective _ _ e) (collect_write-other op v p b o other h)

  -- An identity that the batch has no mark of, or those of the action itself
  collect_op_self :
      (a : DocumentAction) (op : DocumentOp) (p : Option DocumentPayload) (b b' : Batch)
      (o : Option DocumentAction)
      → a.op ≡ op
      → a.payload ≡ p
      → (o ≡ none) ⊎ (o ≡ some a)
      → collect_op op u p b ≡ ok b'
      → At u b o
      → At u b' (some a)
  unfolding collect_op collect_write
  collect_op_self a delete p b b' o eop ep eo e h =
      subst (λ c. At u c (some a)) (ok-injective _ _ e)
        (record {
          deleted = ground (arith, contains-add u u b.delete_ids);
          recreated = ground (arith, h.recreated);
          purged = ground (arith, h.purged);
          payload = ground (arith, h.payload);
          cognify = λ c. ground arith;
        })
  collect_op_self a op none b b' o eop ep eo e h = absurd (cc e)
  collect_op_self a op (some p) b b' o eop ep eo e h =
      subst (λ c. At u c (some a)) (ok-injective _ _ e)
        (record {
          deleted = ground (arith, h.deleted);
          recreated = ground (arith, h.recreated, contains-add u u b.recreate_ids);
          purged = ground (arith, h.purged, contains-add u u b.purge_ids);
          payload = ground (arith, h.payload, get-put u u p b.payloads);
          cognify = λ c. ground arith;
        })

  collect_one-plain :
      (a : DocumentAction) (b : Batch)
      → a.stale_data_ids ≡ []
      → collect_one a b ≡ collect_op a.op a.data_id a.payload b
  unfolding collect_one Sets.update
  collect_one-plain a b e = rw e

  -- Every action of the identity is `o`, and no action has other identities to delete.
  abbrev pub Fit : Option DocumentAction → List DocumentAction → Type 0
  Fit o [] = Unit
  Fit o (a ∷ rest) = (a.stale_data_ids ≡ []) × ((u == a.data_id) ≡ true → o ≡ some a) × Fit o rest

  abbrev pub occurs : List DocumentAction → Bool
  occurs = any (λ a. u == a.data_id)

  -- The marks after the loop are those of the identity's action, or of none if it has none.
  pub collect-At :
      (o : Option DocumentAction) (actions : List DocumentAction) (b b' : Batch)
      (m : Option DocumentAction)
      → Fit o actions
      → (m ≡ none) ⊎ (m ≡ o)
      → At u b m
      → collect actions b ≡ ok b'
      → At u b' (if occurs actions then o else m)
  unfolding collect
  collect-At o [] b b' m fit em h e = subst (λ c. At u c m) (ok-injective _ _ e) h
  collect-At o (a ∷ rest) b b' m (plain, mine, fit) em h e =
      let (c, first, later) = >>=-eq-ok (collect_one a b) (collect rest) e in
      let first' = sym (collect_one-plain a b plain) ∙ first in
      elim (Bool-cases (u == a.data_id)) [
        | inl same ↦
            let h' =
              collect_op_self a a.op a.payload b c m refl refl (own (mine same) em)
                (ap (λ v. collect_op a.op v a.payload b) (==_sound u a.data_id same) ∙ first') h in
            rw same (
              both (mine same)
                (collect-At o rest c b' o fit (inr refl) (rw (← mine same) at h') later))
        | inr other ↦ rw other (
            collect-At o rest c b' m fit em
              (collect_op-other a.op a.data_id a.payload b c m other first' h) later)
      ]
    where
      own : o ≡ some a → (m ≡ none) ⊎ (m ≡ o) → (m ≡ none) ⊎ (m ≡ some a)
      own p (inl q) = inl q
      own p (inr q) = inr (q ∙ p)

      both : o ≡ some a → At u b' (if occurs rest then o else o) → At u b' o
      both p h = elim (Bool-cases (occurs rest)) [ inl r ↦ rw r at h | inr r ↦ rw r at h ]

-- After the loop: a written identity is deleted only to be recreated, and a recreated one is not
-- purged as well.
pub record Settled (u : Uuid) (b : Batch) (o : Option DocumentAction) : Type 0 where
  pub deleted : contains u b.delete_ids ≡ deletes o || recreates o
  pub purged : contains u b.purge_ids ≡ replaces o
  pub payload : Dict.get u b.payloads ≡ written o
  pub cognify : cognifies o ≡ true → b.needs_cognify ≡ true

deleted_marks :
    (u : Uuid) (b : Batch) (o : Option DocumentAction) {all left named : Bool}
    → At u b o
    → all ≡ (if contains u b.recreate_ids then true else left)
    → left ≡ (if named then false else contains u b.delete_ids)
    → named ≡ is_some (Dict.get u b.payloads)
    → all ≡ deletes o || recreates o
deleted_marks u b none h e f g = ground (arith, h.deleted, h.recreated, h.payload)
deleted_marks u b (some a) h e f g = ground (arith, h.deleted, h.recreated, h.payload)

pub settle-Settled :
    (u : Uuid) (b : Batch) (o : Option DocumentAction) → At u b o → Settled u (settle b) o
unfolding settle
settle-Settled u b o h = record {
  deleted =
      deleted_marks u b o h
        (contains-update u b.recreate_ids (Sets.minus b.delete_ids (Dict.keys b.payloads)))
        (contains-minus u b.delete_ids (Dict.keys b.payloads)) (contains-keys_lem u b.payloads);
  purged =
      purged_marks o (contains-minus u b.purge_ids b.recreate_ids ∙ rw (h.recreated, h.purged));
  payload = h.payload;
  cognify = h.cognify;
}
  where
    purged_marks :
        {c : Bool} (o : Option DocumentAction)
        → c ≡ (if recreates o then false else replaces o)
        → c ≡ replaces o
    purged_marks none e = e
    purged_marks (some a) e = ground arith
