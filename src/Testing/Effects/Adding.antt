-- ===== src/Testing/Effects/Adding.antt =====
-- The loop of add_documents: each document is as it was or has been added, and all have been when
-- the loop ends.
use cogindex.Base.{
  ℕ, suc, List, [], ◌∷◌, true, false, Option, none, some, list_eq, nat_eq, ◌==◌, ==_refl, ==_sound,
  ◌≡◌, refl, sym, ◌∙◌, ap, ◌⊎◌, inl, inr, arith, contains, map, Text, PyError, ok, leb, Bool-cases,
  Option-cases, if◌then◌else◌,
}
use cogindex.Base.Dict
use cogindex.Base.Dict.{Dict, get-put, contains-keys-some}
use cogindex.Identity.{Primitives, Uuid}
use cogindex.Runtime.{DocumentPayload}
use cogindex.Target.Apply.{payloads_of}
use cogindex.Testing.Documents.{
  FakeDocument, Documents, fresh_document, rewritten, added, add_one, add_loop,
}

abbrev pub Payloads : Type 0
Payloads = Dict Uuid DocumentPayload

-- Payloads are kept under their own identities.
abbrev pub AreNamed : Payloads → Type 0
AreNamed d = (u : Uuid) (p : DocumentPayload) → Dict.get u d ≡ some p → p.data_id ≡ u

abbrev pub ids_of : List DocumentPayload → List Uuid
ids_of = map (λ p. p.data_id)

-- Each payload of the list is the dictionary's of its identity.
abbrev pub Come : Payloads → List DocumentPayload → Type 0
Come d [] = Unit
Come d (p ∷ ps) = (Dict.get p.data_id d ≡ some p) × Come d ps

module _ (P : Primitives) where
  added_twice :
      (o : Option FakeDocument) (p : DocumentPayload) → added P (some (added P o p)) p ≡ added P o p
  unfolding added rewritten fresh_document
  added_twice none p = ground arith
  added_twice (some d) p = ground arith

  get-add_one :
      (docs : Documents) (p : DocumentPayload) (u : Uuid)
      → Dict.get u (add_one P docs p)
        ≡ (if u == p.data_id then some (added P (Dict.get u docs) p) else Dict.get u docs)
  unfolding add_one
  get-add_one docs p u = rw get-put (ground arith)

  module _ (d : Payloads) (u : Uuid) where
    abbrev pub Added : Option FakeDocument → Option FakeDocument → Type 0
    Added o o' = (p : DocumentPayload) × (Dict.get u d ≡ some p) × (o' ≡ some (added P o p))

    abbrev pub Partly : Option FakeDocument → Option FakeDocument → Type 0
    Partly o o' = (o' ≡ o) ⊎ Added o o'

    -- A payload of the identity, and what the rest of the loop does after it
    Added-here :
        (docs : Documents) (p : DocumentPayload) (o' : Option FakeDocument)
        → Dict.get p.data_id d ≡ some p
        → (u == p.data_id) ≡ true
        → Partly (Dict.get u (add_one P docs p)) o'
        → Added (Dict.get u docs) o'
    Added-here docs p o' e same (inl q) =
        (p, rw (==_sound u p.data_id same) e, q ∙ (get-add_one docs p u ∙ rw same))
    Added-here docs p o' e same (inr (p', e', q)) = (
      p,
      rw (==_sound u p.data_id same) e,
      ground (
        arith,
        get-add_one docs p u,
        ap (λ v. Dict.get v d) (==_sound u p.data_id same),
        added_twice (Dict.get u docs) p,
      ),
    )

    Partly-step :
        (docs : Documents) (p : DocumentPayload) (o' : Option FakeDocument)
        → Dict.get p.data_id d ≡ some p
        → Partly (Dict.get u (add_one P docs p)) o'
        → Partly (Dict.get u docs) o'
    Partly-step docs p o' e h = elim (Bool-cases (u == p.data_id)) [
      | inr other ↦ rw (get-add_one, other) at h
      | inl same ↦ inr (Added-here docs p o' e same h)
    ]

    pub add_loop-Partly :
        (stop : Option (ℕ × PyError)) (index : ℕ) (ps : List DocumentPayload) (docs : Documents)
        (applied : List Text)
        → Come d ps
        → Partly (Dict.get u docs) (Dict.get u (add_loop P stop index ps docs applied).1)
    unfolding add_loop
    add_loop-Partly stop index [] docs applied c = inl refl
    add_loop-Partly none index (p ∷ ps) docs applied (e, c) =
        Partly-step docs p _ e (add_loop-Partly none (suc index) ps (add_one P docs p) _ c)
    add_loop-Partly (some (limit, x)) index (p ∷ ps) docs applied (e, c) =
        elim (Bool-cases (leb limit index)) [
          | inl stop ↦ rw stop (inl refl)
          | inr more ↦ rw more (
              Partly-step docs p _ e
                (add_loop-Partly (some (limit, x)) (suc index) ps (add_one P docs p) _ c))
        ]

    Added-later :
        (docs : Documents) (p : DocumentPayload) (o' : Option FakeDocument)
        → (u == p.data_id) ≡ false
        → Added (Dict.get u (add_one P docs p)) o'
        → Added (Dict.get u docs) o'
    Added-later docs p o' other (q, e, r) = (q, e, ground (arith, get-add_one docs p u))

    pub add_loop-Added :
        (stop : Option (ℕ × PyError)) (index : ℕ) (ps : List DocumentPayload) (docs : Documents)
        (applied : List Text)
        → Come d ps
        → (add_loop P stop index ps docs applied).0 ≡ ok tt
        → contains u (ids_of ps) ≡ true
        → Added (Dict.get u docs) (Dict.get u (add_loop P stop index ps docs applied).1)
    unfolding add_loop
    add_loop-Added stop index [] docs applied c done m = absurd (cc m)
    add_loop-Added none index (p ∷ ps) docs applied (e, c) done m =
        elim (Bool-cases (u == p.data_id)) [
          | inl same ↦
              Added-here docs p _ e same
                (add_loop-Partly none (suc index) ps (add_one P docs p) _ c)
          | inr other ↦
              Added-later docs p _ other
                (add_loop-Added none (suc index) ps (add_one P docs p) _ c done (rw other at m))
        ]
    add_loop-Added (some (limit, x)) index (p ∷ ps) docs applied (e, c) done m =
        elim (Bool-cases (leb limit index)) [
          | inl stop ↦ absurd (cc (rw stop at done))
          | inr more ↦ rw more (elim (Bool-cases (u == p.data_id)) [
            | inl same ↦
                Added-here docs p _ e same
                  (add_loop-Partly (some (limit, x)) (suc index) ps (add_one P docs p) _ c)
            | inr other ↦ Added-later docs p _ other (
                add_loop-Added (some (limit, x)) (suc index) ps (add_one P docs p) _ c
                  (rw more at done) (rw other at m))
          ])
        ]

-- The payloads of a list of identities
pub payloads_of-Come : (d : Payloads) → AreNamed d → (us : List Uuid) → Come d (payloads_of d us)
unfolding payloads_of
payloads_of-Come d named [] = tt
payloads_of-Come d named (u ∷ us) = elim (Option-cases (Dict.get u d)) [
  | inl e ↦ rw e (payloads_of-Come d named us)
  | inr (p, e) ↦ rw e (ap (λ v. Dict.get v d) (named u p e) ∙ e, payloads_of-Come d named us)
]

pub contains-payloads_of :
    (d : Payloads)
    → AreNamed d
    → (u : Uuid) (p : DocumentPayload) → Dict.get u d ≡ some p
    → (us : List Uuid) → contains u us ≡ true
    → contains u (ids_of (payloads_of d us)) ≡ true
unfolding payloads_of
contains-payloads_of d named u p e [] m = cc
contains-payloads_of d named u p e (v ∷ us) m = elim (Bool-cases (u == v)) [
  | inl same ↦
      let e' : Dict.get v d ≡ some p = ap (λ w. Dict.get w d) (sym (==_sound u v same)) ∙ e in
      rw e' (rw (named u p e, ==_refl u))
  | inr other ↦
      let rest = contains-payloads_of d named u p e us (rw other at m) in
      elim (Option-cases (Dict.get v d)) [
        | inl gone ↦ rw gone rest
        | inr (q, f) ↦ rw f (ground arith)
      ]
]
