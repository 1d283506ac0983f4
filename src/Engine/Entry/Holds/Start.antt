-- ===== src/Engine/Entry/Holds/Start.antt =====
-- Precommit: the entry that holds the intended state besides the previous ones still holds of the
-- stored document, and asks nothing of it if the intended write is to clear derivatives.
use cogindex.Base.{
  List, [], ◌∷◌, true, false, Option, none, some, Text, list_eq, nat_eq, ◌==◌, ◌≡◌, ◌⊎◌, refl,
  arith, all, any, contains, is_empty, is_some, Bool-cases, inl, inr,
}
use cogindex.Base.Lists.{all-contains, any-witness, not_all-witness}
use cogindex.Identity.{Primitives, Uuid}
use cogindex.Records.{DocumentRecord, record_eq}
use cogindex.Spec.Profile.{CognifyProfile}
use cogindex.Target.Statediff.{DiffAction}
use cogindex.Target.Reconcile.{replace, recreate, classify_write, same_derivatives, other_weight}
use cogindex.Testing.Documents.{FakeDocument}
use cogindex.Engine.Entry.{TrackEntry, records, previous, missing, append_new, extend, or_new}
use cogindex.Engine.Entry.States.{
  append_new-keeps, append_new_self, append_new-absent, append_new-none, append_new-all,
  append_new-all-none, append_new-all_back,
}
use cogindex.Engine.Entry.Holds.Agree.{agrees, agrees-common, Holds, Tracks}
use cogindex.Engine.Entry.Holds.Closed.{IsUnsettled}

-- A state that may be missing stays so.
missing-extend :
    (i : Option DocumentRecord) (e : Option TrackEntry)
    → missing e ≡ true
    → missing (some (extend i e)) ≡ true
unfolding missing extend
missing-extend i none h = refl
missing-extend i (some e) h = ground (arith, append_new-absent i e.possible_states)

missing-extend-none : (e : Option TrackEntry) → missing (some (extend none e)) ≡ true
unfolding missing extend
missing-extend-none e = ground (arith, append_new-none (or_new e).possible_states)

pub IsUnsettled-of_missing :
    (i : Option DocumentRecord) (e : Option TrackEntry)
    → missing e ≡ true
    → IsUnsettled (extend i e)
IsUnsettled-of_missing i e h r m a = cc (missing-extend i e h)

-- An intended deletion
pub IsUnsettled-of_delete : (e : Option TrackEntry) → IsUnsettled (extend none e)
IsUnsettled-of_delete e r m a = cc (missing-extend-none e)

contains-extend :
    (i : Option DocumentRecord) (e : Option TrackEntry) (r : DocumentRecord)
    → contains r (previous e) ≡ true
    → contains r (records (extend i e).possible_states) ≡ true
unfolding previous extend
contains-extend i none r h = absurd (cc)
contains-extend i (some e) r h = append_new-keeps r i e.possible_states h

pub contains-extend_self :
    (r : DocumentRecord) (e : Option TrackEntry)
    → contains r (records (extend (some r) e).possible_states) ≡ true
unfolding extend
contains-extend_self r e = append_new_self r (or_new e).possible_states

-- A previous record that differs from the desired one in more than the label
IsUnsettled-of_differing :
    (desired r : DocumentRecord) (e : Option TrackEntry)
    → contains r (previous e) ≡ true
    → agrees r desired ≡ false
    → IsUnsettled (extend (some desired) e)
IsUnsettled-of_differing desired r e member differ s m a =
    let first = all-contains (agrees s) r _ a (contains-extend (some desired) e r member) in
    let second = all-contains (agrees s) desired _ a (contains-extend_self desired e) in
    cc (agrees-common s r desired first second)

other_weight-agrees :
    (desired r : DocumentRecord) → other_weight desired r ≡ true → agrees r desired ≡ false
unfolding agrees
other_weight-agrees desired r h = ground arith

same_derivatives-agrees :
    (desired r : DocumentRecord) → same_derivatives desired r ≡ false → agrees r desired ≡ false
unfolding agrees
same_derivatives-agrees desired r h = ground arith

contains-nonempty :
    (r : DocumentRecord) (xs : List DocumentRecord) → contains r xs ≡ true → is_empty xs ≡ false
contains-nonempty r [] h = cc
contains-nonempty r (x ∷ xs) h = refl

nonempty-member :
    (xs : List DocumentRecord) → is_empty xs ≡ false → (r : DocumentRecord) × (contains r xs ≡ true)
nonempty-member [] h = absurd (cc)
nonempty-member (x ∷ xs) h = (x, ground arith)

impossible :
    (a : DiffAction) (desired : DocumentRecord) (e : Option TrackEntry)
    → any (other_weight desired) (previous e) ≡ false
    → missing e ≡ false
    → all (same_derivatives desired) (previous e) ≡ true
    → (classify_write a desired (previous e) (missing e) ≡ recreate)
      ⊎ (classify_write a desired (previous e) (missing e) ≡ replace)
    → ⊥
unfolding classify_write
impossible a desired e w m s op = ground arith

-- If a write is classified as a replace or a recreate, then the entry with the desired record
-- besides the previous ones asks nothing of derivatives: it may be missing, or its records do not
-- all agree with one.
pub IsUnsettled-of_classified :
    (a : DiffAction) (desired : DocumentRecord) (e : Option TrackEntry)
    → (classify_write a desired (previous e) (missing e) ≡ recreate)
      ⊎ (classify_write a desired (previous e) (missing e) ≡ replace)
    → IsUnsettled (extend (some desired) e)
IsUnsettled-of_classified a desired e op =
    elim (Bool-cases (any (other_weight desired) (previous e))) [
      | inl w ↦
          let (r, member, t) = any-witness (other_weight desired) (previous e) w in
          IsUnsettled-of_differing desired r e member (other_weight-agrees desired r t)
      | inr w ↦ elim (Bool-cases (missing e)) [
        | inl m ↦ IsUnsettled-of_missing (some desired) e m
        | inr m ↦ elim (Bool-cases (all (same_derivatives desired) (previous e))) [
          | inl s ↦ absurd (impossible a desired e w m s op)
          | inr s ↦
              let (r, member, t) = not_all-witness (same_derivatives desired) (previous e) s in
              IsUnsettled-of_differing desired r e member (same_derivatives-agrees desired r t)
        ]
      ]
    ]

module _ (P : Primitives) (profile_of : Text → CognifyProfile) (u : Uuid) where
  extend-ids :
      (i : Option DocumentRecord) (e : TrackEntry)
      → ((r : DocumentRecord) → i ≡ some r → (r.data_id == u) ≡ true)
      → all (λ r. r.data_id == u) (records e.possible_states) ≡ true
      → all (λ r. r.data_id == u) (records (append_new i e.possible_states)) ≡ true
  extend-ids none e own h = append_new-all-none (λ r. r.data_id == u) e.possible_states h
  extend-ids (some r) e own h =
      append_new-all (λ r. r.data_id == u) r e.possible_states h (own r refl)

  no-ids : all (λ r. r.data_id == u) (records []) ≡ true
  unfolding records
  no-ids = refl

  -- If an entry holds of the stored document, or there is neither entry nor document, then the
  -- entry with an intended state besides the previous ones holds of the document too. The intended
  -- record has the identity, and a key without an entry has an intended record.
  pub Holds-extend :
      (i : Option DocumentRecord) (e : Option TrackEntry) (o : Option FakeDocument)
      → ((r : DocumentRecord) → i ≡ some r → (r.data_id == u) ≡ true)
      → (e ≡ none → is_some i ≡ true)
      → Tracks P profile_of u e o
      → Holds P profile_of u (extend i e) o
  unfolding extend missing
  Holds-extend none none o own fresh t = absurd (cc (fresh refl))
  Holds-extend (some r) none o own fresh t = record {
    nonempty = contains-nonempty r _ (append_new_self r []);
    ids = extend-ids (some r) (or_new none) own no-ids;
    weighed = λ d p. absurd (cc (t, p));
    settled = λ s m a. absurd (IsUnsettled-of_missing (some r) none refl s m a);
  }
  Holds-extend i (some e) o own fresh h = record {
    nonempty =
        let (r, c) = nonempty-member _ h.nonempty in
        contains-nonempty r _ (append_new-keeps r i e.possible_states c);
    ids = extend-ids i e own h.ids;
    weighed =
        λ d p. let (r, c, w) = h.weighed d p in (r, append_new-keeps r i e.possible_states c, w);
    settled = λ r m a. elim (Bool-cases (missing (some e))) [
      | inl gone ↦ absurd (IsUnsettled-of_missing i (some e) gone r m a)
      | inr there ↦
          let back = append_new-all_back (agrees r) i e.possible_states a in
          let (d, p, b, (l, c, lab)) = h.settled r there back in
          (d, p, b, (l, append_new-keeps l i e.possible_states c, lab))
    ];
  }
