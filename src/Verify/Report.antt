-- ===== src/Verify/Report.antt =====
-- What a comparison without issues says of the dicts that are compared.
use cogindex.Base.{
  ◌++◌, List, [], ◌∷◌, true, false, Option, none, some, list_eq, nat_eq, option_eq, ◌==◌, ==_sound,
  ◌≡◌, refl, arith, contains, ok, ok-injective, >>=-eq-ok, Bool-cases, inl, inr, is_empty, text_leb,
  Text, ap, ◌∙◌,
}
use cogindex.Base.Dict
use cogindex.Base.Dict.{contains-keys-none, contains-keys-some}
use cogindex.Base.Sets.{contains-sorted, contains-update}
use cogindex.Base.Sets
use cogindex.Identity.{Uuid}
use cogindex.Runtime.{StoredDocument}
use cogindex.Verify.{
  ExpectedDocument, VerificationReport, Expected, Stored, issues_at, issues_of, union_ids, compare,
  report_ok,
}

-- An identity is stored exactly if it is expected, and then complete with the expected label.
abbrev pub Matches : Option ExpectedDocument → Option StoredDocument → Type 0
Matches none none = Unit
Matches none (some a) = ⊥
Matches (some e) none = ⊥
Matches (some e) (some a) = (a.cognify_complete ≡ true) × (a.label ≡ e.label)

issues_at-Matches :
    (u : Uuid) (e : Option ExpectedDocument) (a : Option StoredDocument)
    → issues_at u e a ≡ ok []
    → Matches e a
unfolding issues_at
issues_at-Matches u none none h = tt
issues_at-Matches u none (some a) h = cc
issues_at-Matches u (some e) none h = cc
issues_at-Matches u (some e) (some a) h = elim (Bool-cases a.cognify_complete) [
  | inr p ↦ absurd (cc (rw p at h))
  | inl p ↦ elim (Bool-cases (a.label == e.label)) [
    | inr q ↦ absurd (cc (rw (p, q) at h))
    | inl q ↦ (p, ==_sound a.label e.label q)
  ]
]

no_more : {A : Type 0} (xs ys : List A) → xs ++ ys ≡ [] → (xs ≡ []) × (ys ≡ [])
no_more [] ys h = (refl, h)
no_more (x ∷ xs) ys h = cc

issues_of-Matches :
    (expected : Expected) (stored : Stored) (us : List Uuid)
    → issues_of expected stored us ≡ ok []
    → (u : Uuid) → contains u us ≡ true
    → Matches (Dict.get u expected) (Dict.get u stored)
unfolding issues_of
issues_of-Matches expected stored [] h u m = absurd (cc m)
issues_of-Matches expected stored (v ∷ us) h u m =
    let (here, e1, h1) = >>=-eq-ok (issues_at v (Dict.get v expected) (Dict.get v stored)) _ h in
    let (more, e2, h2) = >>=-eq-ok (issues_of expected stored us) _ h1 in
    let (p, q) = no_more here more (ok-injective _ _ h2) in
    elim (Bool-cases (u == v)) [
      | inl same ↦ rw (==_sound u v same) (issues_at-Matches v _ _ (rw p at e1))
      | inr other ↦ issues_of-Matches expected stored us (rw q at e2) u (rw other at m)
    ]

contains-union_ids :
    (expected : Expected) (stored : Stored) (u : Uuid)
    → contains u (union_ids expected stored) ≡ false
    → (Dict.get u expected ≡ none) × (Dict.get u stored ≡ none)
unfolding union_ids
contains-union_ids expected stored u h =
    let both : (contains u (Dict.keys expected) ≡ false) × (contains u (Dict.keys stored) ≡ false) =
      ground (
        arith,
        contains-sorted text_leb u
            (Sets.update (Dict.keys stored) (Sets.update (Dict.keys expected) [])),
        contains-update u (Dict.keys stored) (Sets.update (Dict.keys expected) []),
        contains-update u (Dict.keys expected) [],
      ) in
    (contains-keys-none u expected both.0, contains-keys-none u stored both.1)

-- If the comparison reports no issue, then every identity that is expected is stored, cognified
-- and with the expected label, and every identity that is not expected is not stored.
pub compare-Matches :
    (name tenant : Text) (expected : Expected) (stored : Stored) (report : VerificationReport)
    → compare name tenant expected stored ≡ ok report
    → report_ok report ≡ true
    → (u : Uuid) → Matches (Dict.get u expected) (Dict.get u stored)
unfolding compare report_ok
compare-Matches name tenant expected stored report h good u =
    let (issues, e, e') = >>=-eq-ok (issues_of expected stored (union_ids expected stored)) _ h in
    let clean = empty_list issues (ap (λ r. is_empty r.issues) (ok-injective _ _ e') ∙ good) in
    elim (Bool-cases (contains u (union_ids expected stored))) [
      | inl listed ↦
          issues_of-Matches expected stored (union_ids expected stored) (rw clean at e) u listed
      | inr other ↦
          let (gone, gone') = contains-union_ids expected stored u other in rw (gone, gone') tt
    ]
  where
    empty_list : {A : Type 0} (xs : List A) → is_empty xs ≡ true → xs ≡ []
    empty_list [] p = refl
    empty_list (x ∷ xs) p = cc
