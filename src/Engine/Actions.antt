-- ===== src/Engine/Actions.antt =====
-- The actions of a round: each identity has the action of its key, and no other.
use mathlib.Core.Path.{subst}
use cogindex.Base.{
  List, [], ◌∷◌, Bool, true, false, ◌&&◌, Option, none, some, Text, list_eq, nat_eq, ◌==◌, ==_refl,
  ==_sound, ◌≡◌, refl, sym, ◌∙◌, ap, arith, contains, is_some, ok, if◌then◌else◌, Bool-cases, inl,
  inr,
}
use cogindex.Base.Dict
use cogindex.Base.Dict.{get-put}
use cogindex.Identity.{Uuid}
use cogindex.Runtime.{DocumentPayload}
use cogindex.Target.Reconcile.{
  DocumentOp, delete, upsert, replace, recreate, update_metadata, Output,
}
use cogindex.Target.Apply.{Batch, empty_batch, collect, settle}
use cogindex.Target.Apply.Marks.{written, written_of, Fit, occurs, Settled}
use cogindex.Target.Apply.Plan.{plan-Settled}
use cogindex.Testing.Effects.Adding.{AreNamed}
use cogindex.Engine.Round.{keep_output, actions_of}
use cogindex.Engine.Outputs.{outputs_of, only_if, action_of}

-- The action of an output is one of the identity, deletes no other, and its payload is named.
pub record IsOutput (u : Uuid) (out : Output) : Type 0 where
  pub plain : out.action.stale_data_ids ≡ []
  pub own : out.action.data_id ≡ u
  pub named : (p : DocumentPayload) → out.action.payload ≡ some p → p.data_id ≡ u

module _ (id : Text → Uuid) (apart : (j k : Text) → id j ≡ id k → j ≡ k) (f : Text → Option Output)
    (good : (k : Text) (out : Output) → f k ≡ some out → IsOutput (id k) out) where
  id_test : (k j : Text) → (id k == id j) ≡ (k == j)
  id_test k j = elim (Bool-cases (k == j)) [
    | inl e ↦ rw (e, ← ==_sound k j e) (==_refl (id k))
    | inr e ↦ elim (Bool-cases (id k == id j)) [
      | inr d ↦ d ∙ sym e
      | inl d ↦
          let same = apart k j (==_sound (id k) (id j) d) in absurd (cc (rw same at e, ==_refl j))
    ]
  ]

  Fit-one :
      (k j : Text) (o : Option Output) (rest : List (Text × Output))
      → f j ≡ o
      → Fit (id k) (action_of (f k)) (actions_of rest)
      → Fit (id k) (action_of (f k)) (actions_of (keep_output j o rest))
  Fit-one k j none rest e fit = fit
  Fit-one k j (some out) rest e fit =
      let g = good j out e in
      (
        g.plain,
        (λ h.
            let same = ==_sound k j (sym (id_test k j) ∙ (ap (λ u. id k == u) (sym g.own) ∙ h)) in
            ap action_of (ap f same ∙ e)),
        fit,
      )

  pub Fit-outputs_of :
      (k : Text) (ks : List Text) → Fit (id k) (action_of (f k)) (actions_of (outputs_of f ks))
  Fit-outputs_of k [] = tt
  Fit-outputs_of k (j ∷ ks) = Fit-one k j (f j) (outputs_of f ks) refl (Fit-outputs_of k ks)

  occurs_one :
      (k j : Text) (o : Option Output) (rest : List (Text × Output))
      → f j ≡ o
      → occurs (id k) (actions_of (keep_output j o rest))
        ≡ (if (k == j) && is_some o then true else occurs (id k) (actions_of rest))
  occurs_one k j none rest e = ground arith
  occurs_one k j (some out) rest e =
      ground (arith, id_test k j, ap (λ u. id k == u) (good j out e).own)

  occurs-outputs_of :
      (k : Text) (ks : List Text)
      → occurs (id k) (actions_of (outputs_of f ks)) ≡ contains k ks && is_some (f k)
  occurs-outputs_of k [] = refl
  occurs-outputs_of k (j ∷ ks) = elim (Bool-cases (k == j)) [
    | inl e ↦
        occurs_one k j (f j) (outputs_of f ks) refl
        ∙ ground (arith, occurs-outputs_of k ks, ap (λ i. is_some (f i)) (==_sound k j e))
    | inr e ↦ occurs_one k j (f j) (outputs_of f ks) refl ∙ ground (arith, occurs-outputs_of k ks)
  ]

  -- An identity with an action is that of a key.
  occurs_key :
      (u : Uuid) (ks : List Text)
      → occurs u (actions_of (outputs_of f ks)) ≡ true
      → (k : Text) × (u ≡ id k)
  occurs_key u [] h = absurd (cc h)
  occurs_key u (j ∷ ks) h = go (f j) refl (occurs_key u ks) h
    where
      go :
          (o : Option Output)
          → f j ≡ o
          → (occurs u (actions_of (outputs_of f ks)) ≡ true → (k : Text) × (u ≡ id k))
          → occurs u (actions_of (keep_output j o (outputs_of f ks))) ≡ true
          → (k : Text) × (u ≡ id k)
      go none e later h = later h
      go (some out) e later h = elim (Bool-cases (u == out.action.data_id)) [
        | inl same ↦ (j, ==_sound u out.action.data_id same ∙ (good j out e).own)
        | inr other ↦ later (rw other at h)
      ]

  Fit-other :
      (u : Uuid) (ks : List Text)
      → occurs u (actions_of (outputs_of f ks)) ≡ false
      → Fit u none (actions_of (outputs_of f ks))
  Fit-other u [] h = tt
  Fit-other u (j ∷ ks) h = go (f j) refl (Fit-other u ks) h
    where
      go :
          (o : Option Output)
          → f j ≡ o
          → (occurs u (actions_of (outputs_of f ks)) ≡ false
              → Fit u none (actions_of (outputs_of f ks)))
          → occurs u (actions_of (keep_output j o (outputs_of f ks))) ≡ false
          → Fit u none (actions_of (keep_output j o (outputs_of f ks)))
      go none e later h = later h
      go (some out) e later h = elim (Bool-cases (u == out.action.data_id)) [
        | inl same ↦ absurd (cc (rw same at h))
        | inr other ↦
            ((good j out e).plain, (λ same. absurd (cc (same, other))), later (rw other at h))
      ]

  written-named :
      (k : Text) (o : Option Output) (p : DocumentPayload)
      → ((out : Output) → o ≡ some out → IsOutput (id k) out)
      → written (action_of o) ≡ some p
      → p.data_id ≡ id k
  written-named k none p g h = absurd (cc h)
  written-named k (some out) p g h = go out.action.op h
    where
      go : (op : DocumentOp) → written_of op out.action.payload ≡ some p → p.data_id ≡ id k
      go delete h = absurd (cc h)
      go upsert h = (g out refl).named p h
      go replace h = (g out refl).named p h
      go recreate h = (g out refl).named p h
      go update_metadata h = (g out refl).named p h

  module _ (ks : List Text) (b : Batch)
      (e : collect (actions_of (outputs_of f ks)) empty_batch ≡ ok b) where
    -- The planned batch of a key's identity is what the key's output asks for.
    pub planned-Settled :
        (k : Text) → Settled (id k) (settle b) (action_of (only_if (contains k ks) (f k)))
    planned-Settled k = subst (Settled (id k) (settle b)) (one (contains k ks) (f k)) (
        rw (occurs-outputs_of k ks) at (
          plan-Settled (id k) (action_of (f k)) (actions_of (outputs_of f ks)) b
            (Fit-outputs_of k ks) e))
      where
        one :
            (c : Bool) (o : Option Output)
            → (if c && is_some o then action_of o else none) ≡ action_of (only_if c o)
        one true none = refl
        one true (some out) = refl
        one false none = refl
        one false (some out) = refl

    pub planned_other :
        (u : Uuid) → occurs u (actions_of (outputs_of f ks)) ≡ false → Settled u (settle b) none
    planned_other u h =
        rw h at (plan-Settled u none (actions_of (outputs_of f ks)) b (Fit-other u ks h) e)

    -- A payload of the batch is that of a key, under its own identity.
    pub planned_key :
        (u : Uuid) (p : DocumentPayload)
        → Dict.get u (settle b).payloads ≡ some p
        → (k : Text) × (u ≡ id k) × (p.data_id ≡ u)
    planned_key u p h = elim (Bool-cases (occurs u (actions_of (outputs_of f ks)))) [
      | inr other ↦ absurd (cc ((planned_other u other).payload, h))
      | inl here ↦
          let (k, same) = occurs_key u ks here in
          (
            k,
            same,
            written-named k (only_if (contains k ks) (f k)) p (kept (contains k ks) (f k) (good k))
                  (sym (planned-Settled k).payload
                    ∙ (ap (λ v. Dict.get v (settle b).payloads) (sym same) ∙ h))
                ∙ sym same,
          )
    ]
      where
        kept :
            {u : Uuid} (c : Bool) (o : Option Output)
            → ((out : Output) → o ≡ some out → IsOutput u out)
            → (out : Output) → only_if c o ≡ some out
            → IsOutput u out
        kept true o g out q = g out q
        kept false o g out q = absurd (cc q)

    pub planned-AreNamed : AreNamed (settle b).payloads
    planned-AreNamed u p h = let (k, same, named) = planned_key u p h in named
