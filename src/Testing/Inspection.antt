-- ===== src/Testing/Inspection.antt =====
-- The inspection helpers of FakeCogneeRuntime.
use cogindex.Base.{
  List, [], ◌∷◌, Bool, true, false, ◌&&◌, ◌||◌, not, Option, none, some, list_eq, nat_eq, pair_eq,
  ◌==◌, ◌≡◌, sym, ◌∙◌, arith, Text, text_leb, all, contains, if◌then◌else◌, Bool-cases, inl, inr,
}
use mathlib.Core.Path.{subst}
use mathlib.Core.Option.{some-injective}
use cogindex.Base.Dict
use cogindex.Base.Sets
use cogindex.Base.Sets.{contains-sorted}
use cogindex.Identity.{Primitives, Uuid, fingerprint_content}
use cogindex.Spec.Profile.{CognifyProfile}
use cogindex.Testing.Documents.{FakeDocument, FakeDataset, Documents}
use cogindex.Testing.Faults.{Fake}

unfoldable pub dataset : Text → Text → Fake → Option FakeDataset
unfolding Dict.get
dataset tenant name s = Dict.get (tenant, name) s.datasets

abbrev pub document_of : Uuid → Option FakeDataset → Option FakeDocument
document_of data_id none = none
document_of data_id (some ds) = Dict.get data_id ds.documents

unfoldable pub document : Text → Text → Uuid → Fake → Option FakeDocument
unfolding dataset
document tenant name data_id s = document_of data_id (dataset tenant name s)

-- `fragments == {fp}`, as sets
unfoldable pub only : Text → List Text → Bool
only fp fragments = contains fp fragments && all (λ f. f == fp) fragments

-- `same` compares a profile with the document's: Python compares their classes by identity.
module _ (P : Primitives) (same : CognifyProfile → Option CognifyProfile → Bool) where
  abbrev pub other_profile : Option CognifyProfile → FakeDocument → Bool
  other_profile none d = false
  other_profile (some p) d = not (same p d.derived_profile)

  unfoldable pub is_unconverged : Option CognifyProfile → FakeDocument → Bool
  unfolding only fingerprint_content
  is_unconverged profile d =
      not d.cognify_complete
      || not (only (fingerprint_content P d.payload.content) d.derived_fragments)
      || other_profile profile d

  unfoldable pub unconverged_ids : Option CognifyProfile → Documents → List Uuid
  unfolding is_unconverged
  unconverged_ids profile [] = []
  unconverged_ids profile ((u, d) ∷ rest) =
      let more = unconverged_ids profile rest in if is_unconverged profile d then u ∷ more else more

  abbrev pub unconverged_of : Option CognifyProfile → Option FakeDataset → List Uuid
  unconverged_of profile none = []
  unconverged_of profile (some ds) = Sets.sorted text_leb (unconverged_ids profile ds.documents)

  unfoldable pub unconverged_documents : Text → Text → Option CognifyProfile → Fake → List Uuid
  unfolding dataset unconverged_ids Sets.sorted text_leb
  unconverged_documents tenant name profile s = unconverged_of profile (dataset tenant name s)

  contains-unconverged_ids :
      (profile : Option CognifyProfile) (u : Uuid) (d : FakeDocument) (docs : Documents)
      → Dict.get u docs ≡ some d
      → is_unconverged profile d ≡ true
      → contains u (unconverged_ids profile docs) ≡ true
  unfolding unconverged_ids Dict.get
  contains-unconverged_ids profile u d [] h w = absurd (cc h)
  contains-unconverged_ids profile u d ((v, x) ∷ rest) h w = elim (Bool-cases (u == v)) [
    | inl e ↦
        let w' =
          subst (λ y. is_unconverged profile y ≡ true) (sym (some-injective x d (rw e at h))) w in
        rw (w', e)
    | inr e ↦
        let more = contains-unconverged_ids profile u d rest (rw e at h) w in
        elim (Bool-cases (is_unconverged profile x)) [ inl y ↦ rw (y, e) more | inr y ↦ rw y more ]
  ]

  contains-unconverged_of :
      (profile : Option CognifyProfile) (u : Uuid) (d : FakeDocument) (o : Option FakeDataset)
      → document_of u o ≡ some d
      → is_unconverged profile d ≡ true
      → contains u (unconverged_of profile o) ≡ true
  contains-unconverged_of profile u d none h w = absurd (cc h)
  contains-unconverged_of profile u d (some ds) h w =
      contains-sorted text_leb u (unconverged_ids profile ds.documents)
      ∙ contains-unconverged_ids profile u d ds.documents h w

  -- If no document of a dataset is reported as unconverged, then every document of it is complete,
  -- has the derivatives of its content alone, and has the given profile, if one is given.
  pub unconverged_documents-none :
      (tenant name : Text) (profile : Option CognifyProfile) (s : Fake)
      → unconverged_documents tenant name profile s ≡ []
      → (u : Uuid) (d : FakeDocument) → document tenant name u s ≡ some d
      → (d.cognify_complete ≡ true)
        × (only (fingerprint_content P d.payload.content) d.derived_fragments ≡ true)
        × (other_profile profile d ≡ false)
  unfolding unconverged_documents document is_unconverged
  unconverged_documents-none tenant name profile s clean u d h =
      elim (Bool-cases (is_unconverged profile d)) [
        | inl w ↦
            let there = contains-unconverged_of profile u d (dataset tenant name s) h w in
            absurd (cc (rw clean at there))
        | inr w ↦ ground (arith)
      ]
