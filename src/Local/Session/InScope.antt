-- ===== src/Local/Session/InScope.antt =====
-- A runtime that is bound to a scope stays bound to it, and writes only as a user of that scope.
use cogindex.Base.{
  List, [], ◌∷◌, Bool, true, false, Option, none, some, Text, list_eq, nat_eq, ◌==◌, ==_sound, ◌≡◌,
  sym, ◌∙◌, Result, ok, err, Bool-cases, inl, inr, ==_refl,
}
use mathlib.Core.Path.{subst}
use mathlib.Core.Option.{some-injective}
use cogindex.Base.Exec.{Exec}
use cogindex.Runtime.{DatasetHandle}
use cogindex.Spec.Profile.{CognifyProfile}
use cogindex.Testing.Effects.Outcome.{EndsAs}
use cogindex.Local.Checks.{Roots}
use cogindex.Local.Scope.{User}
use cogindex.Local.Groups.{GroupKey}
use cogindex.Local.Sdk.{Cognee}
use cogindex.Local.Binding.{Local}
use cogindex.Local.Operations.{local_runtime, local_release}
use cogindex.Local.Frame.{IsCall, IsFrame, resolve-IsFrame}
use cogindex.Local.Frame.Writing.{add-IsFrame, cognify-IsFrame}
use cogindex.Local.Frame.Removing.{forget-IsFrame, teardown-IsFrame, list-IsFrame, acquire-IsFrame}
use cogindex.Local.Session.{
  Method, resolve_dataset, add_documents, purge_document_memory, delete_documents, cognify_dataset,
  teardown_dataset, list_documents, lock, unlock, after, after_all,
}
use cogindex.Local.Session.Refused.{IsForeign, other_scope, Refused, methods-Refused}

module _ {S : Type 0} (sdk : Cognee S) (repr_leb : GroupKey → GroupKey → Bool) (scope : Text) where
  -- Every call that the runtime makes as a user of the scope, on any dataset, keeps the property.
  pub record IsCallSafe (Q : S → Type 0) : Type 1 where
    pub safe :
        (name : Text) {A : Type 0} (m : Exec S A) (s : S)
        → IsCall sdk scope name A m
        → Q s
        → Q (m s).1

  -- The runtime is bound to the scope, has its roots and its user, and wraps a state with the
  -- property.
  pub record IsBound (roots : Roots) (user : Option User) (Q : S → Type 0) (l : Local S)
      : Type 0 where
    pub scoped : l.resolved_identity_scope ≡ some scope
    pub rooted : l.roots ≡ roots
    pub owned : l.user ≡ user
    pub held : Q l.sdk

  module _ (roots : Roots) (user : Option User) (Q : S → Type 0) (safe : IsCallSafe Q) where
    abbrev J : Local S → Type 0
    J = IsBound roots user Q

    frame : (name : Text) → IsFrame sdk scope name J
    frame name = record {
      called = λ m l c j. record {
        scoped = j.scoped;
        rooted = j.rooted;
        owned = j.owned;
        held = safe.safe name m l.sdk c j.held;
      };
      marked =
          λ l j. record { scoped = j.scoped; rooted = j.rooted; owned = j.owned; held = j.held };
      bound = λ l s n j. absurd (cc (sym n ∙ j.scoped));
    }

    kept : {A : Type 0} (r : Result A × Local S) → EndsAs (λ _. J) J r → J r.1
    kept (ok a, l) j = j
    kept (err e, l) j = j

    unchanged :
        {A : Type 0} (h : DatasetHandle) (l : Local S) (r : Result A × Local S)
        → J l
        → Refused sdk h l r
        → J r.1
    unchanged h l r j (e, q) = rw q j

    -- A method of a handle: with the runtime's scope it keeps the property, otherwise it is refused.
    for_handle :
        {A : Type 0} (h : DatasetHandle) (l : Local S) (r : Result A × Local S)
        → J l
        → (IsFrame sdk h.identity_scope h.name J → EndsAs (λ _. J) J r)
        → (IsForeign sdk h l → Refused sdk h l r)
        → J r.1
    for_handle h l r j keeps refused = elim (Bool-cases (scope == h.identity_scope)) [
      | inl q ↦ kept r (
          keeps (
            subst (λ s. IsFrame sdk s h.name J) (==_sound scope h.identity_scope q) (frame h.name)))
      | inr q ↦ unchanged h l r j (
          refused (
            other_scope λ e.
              let same : scope ≡ h.identity_scope = some-injective _ _ (sym j.scoped ∙ e) in
              absurd (cc (rw (← same) at q, ==_refl scope))))
    ]

    abbrev ignored : CognifyProfile
    ignored = record {
      graph_model = none;
      chunker = none;
      chunk_size = none;
      custom_prompt = none;
      temporal_cognify = false;
    }

    after-IsBound : (m : Method) (l : Local S) → J l → J (after (local_runtime sdk repr_leb) m l)
    unfolding local_release
    after-IsBound (resolve_dataset name tenant) l j =
        kept _ (resolve-IsFrame sdk scope name J (frame name) name tenant l j)
    after-IsBound (add_documents h payloads) l j =
        for_handle h l _ j (λ f. add-IsFrame sdk h J f repr_leb payloads l j)
          (λ n. (methods-Refused sdk h l n repr_leb payloads true [] ignored).0)
    after-IsBound (purge_document_memory h ids) l j =
        for_handle h l _ j (λ f. forget-IsFrame sdk h J f true ids l j)
          (λ n. (methods-Refused sdk h l n repr_leb [] true ids ignored).1)
    after-IsBound (delete_documents h ids) l j =
        for_handle h l _ j (λ f. forget-IsFrame sdk h J f false ids l j)
          (λ n. (methods-Refused sdk h l n repr_leb [] false ids ignored).1)
    after-IsBound (cognify_dataset h profile) l j =
        for_handle h l _ j (λ f. cognify-IsFrame sdk h J f profile l j)
          (λ n. (methods-Refused sdk h l n repr_leb [] true [] profile).2)
    after-IsBound (teardown_dataset h) l j =
        for_handle h l _ j (λ f. teardown-IsFrame sdk h J f l j)
          (λ n. (methods-Refused sdk h l n repr_leb [] true [] ignored).3)
    after-IsBound (list_documents h) l j =
        for_handle h l _ j (λ f. list-IsFrame sdk h J f l j)
          (λ n. (methods-Refused sdk h l n repr_leb [] true [] ignored).4)
    after-IsBound (lock h) l j =
        for_handle h l _ j (λ f. acquire-IsFrame sdk h J f l j)
          (λ n. (methods-Refused sdk h l n repr_leb [] true [] ignored).5)
    after-IsBound (unlock h) l j = (frame h.name).called (sdk.release _) l (IsCall.unlocked _) j

    -- If the calls of Cognee that are made as a user of a scope keep a property of Cognee's state,
    -- and the runtime is bound to the scope, then after any sequence of methods with any arguments,
    -- whichever of them raise, the runtime is bound to the same scope, has the same roots and the
    -- same configured user, and Cognee's state has the property.
    pub after_all-IsBound :
        (ms : List Method) (l : Local S)
        → IsBound roots user Q l
        → IsBound roots user Q (after_all (local_runtime sdk repr_leb) ms l)
    unfolding after_all
    after_all-IsBound [] l j = j
    after_all-IsBound (m ∷ ms) l j = after_all-IsBound ms _ (after-IsBound m l j)
