-- ===== src/Testing/Effects/Writes.antt =====
-- The effect of add_documents and cognify_dataset on each document.
use mathlib.Core.Option
use cogindex.Base.{
  List, [], ◌∷◌, true, Option, none, some, list_eq, nat_eq, pair_eq, ==_refl, ◌≡◌, refl, sym, ◌∙◌,
  ap, inl, inr, arith, contains, Result, ok, err, Text, Option-cases,
}
use cogindex.Base.Dict
use cogindex.Base.Dict.{Dict, get-put, contains-keys-some, contains-keys-none}
use cogindex.Identity.{Primitives, Uuid}
use cogindex.Runtime.{DatasetHandle, DocumentPayload}
use cogindex.Spec.Profile.{CognifyProfile}
use cogindex.Target.Apply.{payloads_of}
use cogindex.Target.Reconcile.{ordered}
use cogindex.Testing.Documents.{FakeDocument, FakeDataset, Documents, add_loop, cognified}
use cogindex.Testing.Faults.{
  Fake, Fault, add_documents, cognify_dataset, called, next_fault, log_call,
}
use cogindex.Testing.Fake.{
  find_dataset, validate_handle, fake_add, add_checked, finish_add, store_added, add_result,
  stop_at, ensure_dataset, new_dataset, fake_cognify, cognify_documents,
}
use cogindex.Testing.Effects.Adding.{
  Payloads, AreNamed, Come, Added, Partly, ids_of, add_loop-Partly, add_loop-Added,
  payloads_of-Come, contains-payloads_of,
}
use cogindex.Testing.Effects.Outcome.{EndsAs, Ends-continue, Ends-weaken}
use cogindex.Testing.Effects.Operations.{
  doc_at-log_call, validate-Ends, fire-Ends, Is-next_fault, view_of-changed, contains-ordered,
}
use cogindex.Testing.Effects.Pointwise.{
  View, view_of, doc_at, Is, added_at, added_from, cognified_at, get-modify,
}

view-doc_at :
    (h : DatasetHandle) (s : Fake) (u : Uuid) → view_of (find_dataset h s) u ≡ doc_at h s u
unfolding doc_at
view-doc_at h s u = refl

doc_at-store_added :
    (h : DatasetHandle) (ds : FakeDataset) (docs : Documents) (applied : List Text) (s : Fake)
    (u : Uuid)
    → doc_at h (store_added h ds docs applied s) u ≡ Dict.get u docs
unfolding doc_at store_added
doc_at-store_added h ds docs applied s u = rw (get-put, ==_refl)

module _ (P : Primitives) where
  -- Some documents have been added, the others are as they were.
  abbrev pub PartlyAdded : Payloads → View → View → Type 0
  PartlyAdded d g g' = (u : Uuid) → Partly P d u (g u) (g' u)

  get-ensure :
      (h : DatasetHandle) (o : Option FakeDataset) (u : Uuid)
      → Dict.get u (ensure_dataset P h o).documents ≡ view_of o u
  unfolding ensure_dataset new_dataset Dict.get
  get-ensure h none u = refl
  get-ensure h (some ds) u = refl

  all-Added :
      (d : Payloads) (named : AreNamed d) (u : Uuid) (o o' : Option FakeDocument)
      → Partly P d u o o'
      → (contains u (ids_of (payloads_of d (ordered (Dict.keys d)))) ≡ true → Added P d u o o')
      → o' ≡ added_from P (Dict.get u d) o
  all-Added d named u o o' p h = elim (Option-cases (Dict.get u d)) [
    | inl gone ↦ rw gone (unchanged p gone)
    | inr (q, e) ↦
        let (q', e', r) = h (
          contains-payloads_of d named u q e (ordered (Dict.keys d))
            (contains-ordered u (Dict.keys d) ∙ contains-keys-some u q d e)) in
        rw e' r
  ]
    where
      unchanged : Partly P d u o o' → Dict.get u d ≡ none → o' ≡ o
      unchanged (inl e) gone = e
      unchanged (inr (q, e, r)) gone = absurd (cc (e, gone))

  module _ (h : DatasetHandle) (g : View) (d : Payloads) (named : AreNamed d) where
    abbrev pub wanted : List DocumentPayload
    wanted = payloads_of d (ordered (Dict.keys d))

    abbrev pub AddReturned : DatasetHandle → Fake → Type 0
    AddReturned h' s =
        (i : Option Uuid) × (h' ≡ record h { dataset_id = i }) × Is h (added_at P d g) s

    abbrev pub AddRaised : Fake → Type 0
    AddRaised s = (g' : View) × PartlyAdded d g g' × Is h g' s

    add_result-Ends :
        (ds : FakeDataset) (outcome : Result (Unit {0})) (t : Fake)
        → (outcome ≡ ok tt → Is h (added_at P d g) t)
        → AddRaised t
        → EndsAs AddReturned AddRaised (add_result h ds outcome t)
    add_result-Ends ds (ok tt) t all some_of = (some ds.dataset_id, refl, all refl)
    add_result-Ends ds (err e) t all some_of = some_of

    finish_add-Ends :
        (fault : Option Fault) (s : Fake)
        → Is h g s
        → EndsAs AddReturned AddRaised (finish_add P h wanted fault s)
    unfolding finish_add
    finish_add-Ends fault s i =
        add_result-Ends ds done.0 (store_added h ds done.1 done.2 s)
          (λ ended u.
            doc_at-store_added h ds done.1 done.2 s u
            ∙ all-Added d named u (g u) (Dict.get u done.1) (partly u) (λ m.
              rw before at
                (add_loop-Added P d u (stop_at fault) 0 wanted ds.documents [] come ended m)))
          ((λ u. Dict.get u done.1), partly, doc_at-store_added h ds done.1 done.2 s)
      where
        ds : FakeDataset
        ds = ensure_dataset P h (find_dataset h s)

        done : Result (Unit {0}) × Documents × List Text
        done = add_loop P (stop_at fault) 0 wanted ds.documents []

        come : Come d wanted
        come = payloads_of-Come d named (ordered (Dict.keys d))

        before : (u : Uuid) → Dict.get u ds.documents ≡ g u
        before u = get-ensure h (find_dataset h s) u ∙ (view-doc_at h s u ∙ i u)

        partly : (u : Uuid) → Partly P d u (g u) (Dict.get u done.1)
        partly u =
            rw before at (add_loop-Partly P d u (stop_at fault) 0 wanted ds.documents [] come)

    nothing_wanted : [] ≡ wanted → (u : Uuid) → added_from P (Dict.get u d) (g u) ≡ g u
    nothing_wanted e u = elim (Option-cases (Dict.get u d)) [
      | inl gone ↦ rw gone
      | inr (q, f) ↦
          let there =
            contains-payloads_of d named u q f (ordered (Dict.keys d))
              (contains-ordered u (Dict.keys d) ∙ contains-keys-some u q d f) in
          absurd (cc (rw (← e) at there))
    ]

    add_checked-Ends :
        (ps : List DocumentPayload) (s : Fake)
        → ps ≡ wanted
        → Is h g s
        → EndsAs AddReturned AddRaised (add_checked P h ps s)
    unfolding add_checked
    add_checked-Ends [] s e i = (h.dataset_id, refl, λ u. i u ∙ sym (nothing_wanted e u))
    add_checked-Ends (p ∷ ps) s e i = rw e (
        finish_add-Ends (next_fault add_documents s).0 (next_fault add_documents s).1
          (Is-next_fault h g add_documents s i))

    -- If the payloads stand under their own identities, then add_documents returns the handle up to
    -- its dataset's identity with all of them added, or raises with some of them added and the
    -- other documents as they were.
    pub add-Ends : (s : Fake) → Is h g s → EndsAs AddReturned AddRaised (fake_add P h wanted s)
    unfolding fake_add
    add-Ends s i =
        Ends-continue (λ _. Is h g) AddRaised _ (validate_handle h s).0 _ _
          (Ends-weaken (λ _. Is h g) (λ _. Is h g) (Is h g) _ _ _ (validate-Ends h g s i) (λ _ j. j)
            (λ j. (g, (λ u. inl refl), j)))
          λ _ t j. add_checked-Ends wanted t refl j

  cognified_twice :
      (profile : CognifyProfile) (x : FakeDocument)
      → cognified P profile (cognified P profile x) ≡ cognified P profile x
  unfolding cognified
  cognified_twice profile x = ground arith

  get-cognify_documents :
      (profile : CognifyProfile) (u : Uuid) (docs : Documents)
      → Dict.get u (cognify_documents P profile docs)
        ≡ Option.map (cognified P profile) (Dict.get u docs)
  unfolding cognify_documents
  get-cognify_documents profile u docs =
      get-modify (cognified P profile) (cognified_twice profile) u (ordered (Dict.keys docs)) docs
      ∙ (elim (Option-cases (Dict.get u docs)) [
        | inl gone ↦ rw gone (ground arith)
        | inr (x, e) ↦ rw (contains-ordered u (Dict.keys docs), contains-keys-some u x docs e) refl
      ])

  -- cognify_dataset returns with every document cognified, or raises with every document as it was.
  pub cognify-Ends :
      (h : DatasetHandle) (g : View) (profile : CognifyProfile) (s : Fake)
      → Is h g s
      → EndsAs (λ _. Is h (cognified_at P true profile g)) (Is h g) (fake_cognify P h profile s)
  unfolding fake_cognify
  cognify-Ends h g profile s i =
      Ends-continue (λ _. Is h g) (Is h g) _ (validate_handle h s).0 _ _ (validate-Ends h g s i)
        λ _ t j.
          Ends-continue (λ _. Is h g) (Is h g) _ _ _ _
            (fire-Ends h g cognify_dataset (log_call (called cognify_dataset) h.name [] t)
              (rw doc_at-log_call j))
            λ _ v k u.
              view_of-changed h (cognify_documents P profile) (find_dataset h v) v u
                (Option.map (cognified P profile)) refl refl (get-cognify_documents profile u)
              ∙ ap (Option.map (cognified P profile)) (k u)
