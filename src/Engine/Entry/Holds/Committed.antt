-- ===== src/Engine/Entry/Holds/Committed.antt =====
-- Commit: the entry of the desired record alone.
use mathlib.Core.Path.{subst}
use mathlib.Core.Option.{some-injective}
use cogindex.Base.{
  [], ◌∷◌, true, Option, Text, list_eq, nat_eq, ◌==◌, ==_refl, ◌≡◌, refl, sym, ◌∙◌, arith, all,
}
use cogindex.Identity.{Primitives, Uuid}
use cogindex.Records.{DocumentRecord, record_eq}
use cogindex.Spec.Profile.{CognifyProfile}
use cogindex.Testing.Documents.{FakeDocument}
use cogindex.Engine.Entry.{committed, records}
use cogindex.Engine.Entry.Holds.Agree.{
  agrees, agrees-sym, Holds, IsConverged, IsBuilt-agrees, Weighed,
}

head-agrees : (r d : DocumentRecord) → all (agrees r) (d ∷ []) ≡ true → agrees r d ≡ true
head-agrees r d h = ground arith

-- If the document is the converged one of a record of its identity, then the entry that commit
-- writes for the record holds of the document.
pub Holds-committed :
    (P : Primitives) (profile_of : Text → CognifyProfile) (u : Uuid) (d : DocumentRecord)
    (o : Option FakeDocument)
    → (d.data_id == u) ≡ true
    → IsConverged P profile_of d o
    → Holds P profile_of u (committed d) o
unfolding committed records
Holds-committed P profile_of u d o own c = record {
  nonempty = refl;
  ids = rw own;
  weighed = λ x p. (
    d,
    rw (==_refl d),
    subst (λ y. Weighed P d y.payload) (some-injective _ _ (sym c.present ∙ p)) c.built.weight,
  );
  settled = λ r m a. (
    c.document,
    c.present,
    IsBuilt-agrees P profile_of d r c.document (agrees-sym r d (head-agrees r d a)) c.built,
    (d, rw (==_refl d), c.labelled),
  );
}
