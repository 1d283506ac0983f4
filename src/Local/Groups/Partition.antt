-- ===== src/Local/Groups/Partition.antt =====
-- The groups of add_documents are the payloads by node set and weight, in their order.
use cogindex.Base.{
  List, [], ◌∷◌, ◌++◌, Bool, true, false, Option, none, some, list_eq, nat_eq, option_eq, pair_eq,
  ◌==◌, ==_refl, ==_sound, ◌≡◌, ◌⊎◌, refl, sym, ◌∙◌, ap, arith, contains, is_some, if◌then◌else◌,
  Bool-cases, inl, inr,
}
use cogindex.Base.Dict
use cogindex.Base.Dict.{Dict, get-put, contains-keys_lem}
use cogindex.Base.Sets
use cogindex.Runtime.{DocumentPayload}
use cogindex.Local.Groups.{
  GroupKey, key_of, Groups, Group, value_of, grown, append_to, group_all, sorted_groups,
}

-- No key twice
abbrev pub IsUnique : {V : Type 0} → Dict GroupKey V → Type 0
IsUnique [] = Unit
IsUnique ((k, v) ∷ d) = (contains k (Dict.keys d) ≡ false) × IsUnique d

-- The payloads whose keys have a value, in their order
unfoldable pub with_value : GroupKey → List DocumentPayload → List DocumentPayload
with_value v [] = []
with_value v (p ∷ ps) =
    let rest = with_value v ps in if v == value_of (key_of p) then p ∷ rest else rest

-- The group of some payloads, with the key of the first: `none` for no payloads
abbrev pub group_for : List DocumentPayload → Option Group
group_for [] = none
group_for (p ∷ ps) = some (key_of p, p ∷ ps)

append_assoc : (xs ys zs : List DocumentPayload) → (xs ++ ys) ++ zs ≡ xs ++ (ys ++ zs)
append_assoc [] ys zs = refl
append_assoc (x ∷ xs) ys zs = ap (λ t. x ∷ t) (append_assoc xs ys zs)

append_nil : (xs : List DocumentPayload) → xs ++ [] ≡ xs
append_nil [] = refl
append_nil (x ∷ xs) = ap (λ t. x ∷ t) (append_nil xs)

module _ (v : GroupKey) where
  get-append_to :
      (p : DocumentPayload) (groups : Groups)
      → Dict.get v (append_to p groups) ≡ (
          if v == value_of (key_of p)
          then some (grown p (Dict.get v groups))
          else Dict.get v groups)
  unfolding append_to
  get-append_to p groups =
      get-put (value_of (key_of p)) v (grown p (Dict.get (value_of (key_of p)) groups)) groups
      ∙ (elim (Bool-cases (v == value_of (key_of p))) [
        | inl q ↦ rw (q, ==_sound v (value_of (key_of p)) q) refl
        | inr q ↦ rw q refl
      ])

  with_value-snoc :
      (done : List DocumentPayload) (p : DocumentPayload)
      → with_value v (done ++ p ∷ [])
        ≡ (if v == value_of (key_of p) then with_value v done ++ p ∷ [] else with_value v done)
  unfolding with_value
  with_value-snoc [] p = elim (Bool-cases (v == value_of (key_of p))) [
    | inl q ↦ rw q refl
    | inr q ↦ rw q refl
  ]
  with_value-snoc (x ∷ done) p = elim (Bool-cases (v == value_of (key_of p))) [
    | inl q ↦ rw (with_value-snoc done p, q) (one (v == value_of (key_of x)))
    | inr q ↦ rw (with_value-snoc done p, q) refl
  ]
    where
      one :
          (b : Bool)
          → (if b then x ∷ (with_value v done ++ p ∷ []) else with_value v done ++ p ∷ [])
            ≡ (if b then x ∷ with_value v done else with_value v done) ++ p ∷ []
      one true = refl
      one false = refl

  grown-group_for :
      (ps : List DocumentPayload) (p : DocumentPayload)
      → some (grown p (group_for ps)) ≡ group_for (ps ++ p ∷ [])
  grown-group_for [] p = refl
  grown-group_for (x ∷ ps) p = refl

  get-group_all :
      (ps done : List DocumentPayload) (groups : Groups)
      → Dict.get v groups ≡ group_for (with_value v done)
      → Dict.get v (group_all ps groups) ≡ group_for (with_value v (done ++ ps))
  unfolding group_all
  get-group_all [] done groups h =
      h ∙ ap (λ xs. group_for (with_value v xs)) (sym (append_nil done))
  get-group_all (p ∷ ps) done groups h =
      get-group_all ps (done ++ p ∷ []) (append_to p groups) next
      ∙ ap (λ xs. group_for (with_value v xs)) (append_assoc done (p ∷ []) ps)
    where
      next : Dict.get v (append_to p groups) ≡ group_for (with_value v (done ++ p ∷ []))
      next = get-append_to p groups ∙ (elim (Bool-cases (v == value_of (key_of p))) [
        | inl q ↦ rw (q, with_value-snoc done p, q, h) (grown-group_for (with_value v done) p)
        | inr q ↦ rw (q, with_value-snoc done p, q) h
      ])

module _ {V : Type 0} where
  keys-put :
      (j k : GroupKey) (v : V) (d : Dict GroupKey V)
      → contains j (Dict.keys (Dict.put k v d))
        ≡ (if j == k then true else contains j (Dict.keys d))
  keys-put j k v d =
      contains-keys_lem j (Dict.put k v d)
      ∙ (ap is_some (get-put k j v d) ∙ (elim (Bool-cases (j == k)) [
        | inl q ↦ rw q refl
        | inr q ↦ rw q (sym (contains-keys_lem j d))
      ]))

  put-IsUnique :
      (k : GroupKey) (v : V) (d : Dict GroupKey V) → IsUnique d → IsUnique (Dict.put k v d)
  unfolding Dict.put Dict.keys
  put-IsUnique k v [] u = (refl, tt)
  put-IsUnique k v ((j, w) ∷ d) (fresh, u) = elim (Bool-cases (k == j)) [
    | inl q ↦ rw q (fresh, u)
    | inr q ↦
        rw q (keys-put j k v d ∙ rw (other (Bool-cases (j == k)) q) fresh, put-IsUnique k v d u)
  ]
    where
      other : ((j == k) ≡ true) ⊎ ((j == k) ≡ false) → (k == j) ≡ false → (j == k) ≡ false
      other (inr r) q = r
      other (inl r) q = absurd (cc (rw (==_sound j k r) at q, ==_refl k))

  module _ (before : GroupKey × V → GroupKey × V → Bool) where
    get-insert_in :
        (k j : GroupKey) (v : V) (d : Dict GroupKey V)
        → contains j (Dict.keys d) ≡ false
        → Dict.get k (Sets.insert_in before (j, v) d) ≡ (if k == j then some v else Dict.get k d)
    unfolding Sets.insert_in Dict.get Dict.keys
    get-insert_in k j v [] h = refl
    get-insert_in k j v ((i, w) ∷ d) h =
        let apart : (j == i) ≡ false = ground arith in
        let rest : contains j (Dict.keys d) ≡ false = ground arith in
        elim (Bool-cases (before (j, v) (i, w))) [
          | inl b ↦ rw b refl
          | inr b ↦
              rw (b, get-insert_in k j v d rest)
                (elim (Bool-cases (k == j)) [
                  | inr q ↦ rw q refl
                  | inl q ↦ rw (q, ==_sound k j q, apart) refl
                ])
        ]

    keys-insert_in :
        (k j : GroupKey) (v : V) (d : Dict GroupKey V)
        → contains k (Dict.keys (Sets.insert_in before (j, v) d))
          ≡ (if k == j then true else contains k (Dict.keys d))
    unfolding Sets.insert_in Dict.keys
    keys-insert_in k j v [] = refl
    keys-insert_in k j v ((i, w) ∷ d) = elim (Bool-cases (before (j, v) (i, w))) [
      | inl b ↦ rw b refl
      | inr b ↦ rw (b, keys-insert_in k j v d) (swap (k == i) (k == j) (contains k (Dict.keys d)))
    ]
      where
        swap :
            (a b c : Bool)
            → (if a then true else if b then true else c)
              ≡ (if b then true else if a then true else c)
        swap true true c = refl
        swap true false c = refl
        swap false true c = refl
        swap false false c = refl

    insert_in-IsUnique :
        (j : GroupKey) (v : V) (d : Dict GroupKey V)
        → contains j (Dict.keys d) ≡ false
        → IsUnique d
        → IsUnique (Sets.insert_in before (j, v) d)
    unfolding Sets.insert_in Dict.keys
    insert_in-IsUnique j v [] h u = (refl, tt)
    insert_in-IsUnique j v ((i, w) ∷ d) h (fresh, u) =
        let apart : (j == i) ≡ false = ground arith in
        let rest : contains j (Dict.keys d) ≡ false = ground arith in
        elim (Bool-cases (before (j, v) (i, w))) [
          | inl b ↦ rw b (h, (fresh, u))
          | inr b ↦
              rw b (
                keys-insert_in i j v d ∙ rw (flip i j apart) fresh,
                insert_in-IsUnique j v d rest u,
              )
        ]
      where
        flip : (i j : GroupKey) → (j == i) ≡ false → (i == j) ≡ false
        flip i j q = elim (Bool-cases (i == j)) [
          | inr r ↦ r
          | inl r ↦ absurd (cc (rw (==_sound i j r) at q, ==_refl j))
        ]

    sorted-IsUnique :
        (d : Dict GroupKey V)
        → IsUnique d
        → IsUnique (Sets.sorted before d)
          × ((k : GroupKey) → Dict.get k (Sets.sorted before d) ≡ Dict.get k d)
    unfolding Sets.sorted Dict.get Dict.keys
    sorted-IsUnique [] u = (tt, λ k. refl)
    sorted-IsUnique ((j, v) ∷ d) (fresh, u) =
        let (unique, same) = sorted-IsUnique d u in
        let new : contains j (Dict.keys (Sets.sorted before d)) ≡ false =
          contains-keys_lem j (Sets.sorted before d)
          ∙ (ap is_some (same j) ∙ (sym (contains-keys_lem j d) ∙ fresh)) in
        (
          insert_in-IsUnique j v (Sets.sorted before d) new unique,
          λ k. get-insert_in k j v (Sets.sorted before d) new ∙ rw same refl,
        )

group_all-IsUnique :
    (ps : List DocumentPayload) (groups : Groups) → IsUnique groups → IsUnique (group_all ps groups)
unfolding group_all append_to
group_all-IsUnique [] groups u = u
group_all-IsUnique (p ∷ ps) groups u =
    group_all-IsUnique ps (append_to p groups) (put-IsUnique (value_of (key_of p)) _ groups u)

-- Whatever the order of the keys' `repr`, the groups have keys of different values, and the group
-- of a node set and of the value of a weight holds exactly the payloads with them, in their order,
-- under the key of the first; there is no group without payloads.
pub sorted_groups-IsUnique :
    (repr_leb : GroupKey → GroupKey → Bool) (payloads : List DocumentPayload)
    → IsUnique (sorted_groups repr_leb payloads)
      × ((v : GroupKey)
          → Dict.get v (sorted_groups repr_leb payloads) ≡ group_for (with_value v payloads))
unfolding sorted_groups Dict.get with_value
sorted_groups-IsUnique repr_leb payloads =
    let (unique, same) =
      sorted-IsUnique (λ a b. repr_leb a.1.0 b.1.0) (group_all payloads [])
        (group_all-IsUnique payloads [] tt) in
    (unique, λ v. same v ∙ get-group_all v payloads [] [] refl)
