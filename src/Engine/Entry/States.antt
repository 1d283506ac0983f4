-- ===== src/Engine/Entry/States.antt =====
-- What `append_new` does to the possible states.
use cogindex.Base.{
  List, [], ◌∷◌, ◌++◌, Bool, true, Option, none, some, ==_refl, any, all, contains, ◌≡◌, refl,
  arith, Bool-cases, inl, inr,
}
use cogindex.Records.{DocumentRecord, record_eq}
use cogindex.Engine.Entry.{
  TrackEntry, records, any_absent, same_tracking_state, append_new, extend, or_new,
}

abbrev States : Type 0
States = List (Option DocumentRecord)

records-append :
    (r : DocumentRecord) (states : States) (intended : Option DocumentRecord)
    → contains r (records states) ≡ true
    → contains r (records (states ++ intended ∷ [])) ≡ true
unfolding records
records-append r [] i h = absurd (cc)
records-append r (none ∷ states) i h = records-append r states i h
records-append r (some s ∷ states) i h = ground (arith, records-append r states i)

records-append_self :
    (r : DocumentRecord) (states : States) → contains r (records (states ++ some r ∷ [])) ≡ true
unfolding records
records-append_self r [] = ground arith
records-append_self r (none ∷ states) = records-append_self r states
records-append_self r (some s ∷ states) = ground (arith, records-append_self r states)

records-same :
    (r : DocumentRecord) (states : States)
    → any (λ state. same_tracking_state state (some r)) states ≡ true
    → contains r (records states) ≡ true
unfolding records same_tracking_state
records-same r [] h = cc
records-same r (none ∷ states) h = records-same r states h
records-same r (some s ∷ states) h = ground (arith, records-same r states)

absent-same :
    (states : States)
    → any (λ state. same_tracking_state state none) states ≡ true
    → any_absent states ≡ true
unfolding any_absent same_tracking_state
absent-same [] h = cc
absent-same (none ∷ states) h = refl
absent-same (some s ∷ states) h = absent-same states h

absent-append :
    (states : States) (intended : Option DocumentRecord)
    → any_absent states ≡ true
    → any_absent (states ++ intended ∷ []) ≡ true
unfolding any_absent
absent-append [] i h = absurd (cc)
absent-append (none ∷ states) i h = refl
absent-append (some s ∷ states) i h = absent-append states i h

absent-append_none : (states : States) → any_absent (states ++ none ∷ []) ≡ true
unfolding any_absent
absent-append_none [] = refl
absent-append_none (none ∷ states) = refl
absent-append_none (some s ∷ states) = absent-append_none states

module _ (test : DocumentRecord → Bool) where
  all-append :
      (states : States) (r : DocumentRecord)
      → all test (records states) ≡ true
      → test r ≡ true
      → all test (records (states ++ some r ∷ [])) ≡ true
  unfolding records
  all-append [] r h t = ground arith
  all-append (none ∷ states) r h t = all-append states r h t
  all-append (some s ∷ states) r h t = ground (arith, all-append states r)

  all-append_none :
      (states : States)
      → all test (records states) ≡ true
      → all test (records (states ++ none ∷ [])) ≡ true
  unfolding records
  all-append_none [] h = refl
  all-append_none (none ∷ states) h = all-append_none states h
  all-append_none (some s ∷ states) h = ground (arith, all-append_none states)

  all-prefix :
      (states : States) (i : Option DocumentRecord)
      → all test (records (states ++ i ∷ [])) ≡ true
      → all test (records states) ≡ true
  unfolding records
  all-prefix [] i h = refl
  all-prefix (none ∷ states) i h = all-prefix states i h
  all-prefix (some s ∷ states) i h = ground (arith, all-prefix states i)

-- The same facts of `append_new`, which adds a state only if it is not there.
pub append_new-keeps :
    (r : DocumentRecord) (i : Option DocumentRecord) (states : States)
    → contains r (records states) ≡ true
    → contains r (records (append_new i states)) ≡ true
unfolding append_new
append_new-keeps r i states h = elim (Bool-cases (any (λ s. same_tracking_state s i) states)) [
  | inl p ↦ rw p h
  | inr p ↦ rw p (records-append r states i h)
]

pub append_new_self :
    (r : DocumentRecord) (states : States)
    → contains r (records (append_new (some r) states)) ≡ true
unfolding append_new
append_new_self r states = elim (Bool-cases (any (λ s. same_tracking_state s (some r)) states)) [
  | inl p ↦ rw p (records-same r states p)
  | inr p ↦ rw p (records-append_self r states)
]

pub append_new-absent :
    (i : Option DocumentRecord) (states : States)
    → any_absent states ≡ true
    → any_absent (append_new i states) ≡ true
unfolding append_new
append_new-absent i states h = elim (Bool-cases (any (λ s. same_tracking_state s i) states)) [
  | inl p ↦ rw p h
  | inr p ↦ rw p (absent-append states i h)
]

pub append_new-none : (states : States) → any_absent (append_new none states) ≡ true
unfolding append_new
append_new-none states = elim (Bool-cases (any (λ s. same_tracking_state s none) states)) [
  | inl p ↦ rw p (absent-same states p)
  | inr p ↦ rw p (absent-append_none states)
]

pub append_new-all :
    (test : DocumentRecord → Bool) (r : DocumentRecord) (states : States)
    → all test (records states) ≡ true
    → test r ≡ true
    → all test (records (append_new (some r) states)) ≡ true
unfolding append_new
append_new-all test r states h t =
    elim (Bool-cases (any (λ s. same_tracking_state s (some r)) states)) [
      | inl p ↦ rw p h
      | inr p ↦ rw p (all-append test states r h t)
    ]

pub append_new-all-none :
    (test : DocumentRecord → Bool) (states : States)
    → all test (records states) ≡ true
    → all test (records (append_new none states)) ≡ true
unfolding append_new
append_new-all-none test states h =
    elim (Bool-cases (any (λ s. same_tracking_state s none) states)) [
      | inl p ↦ rw p h
      | inr p ↦ rw p (all-append_none test states h)
    ]

pub append_new-all_back :
    (test : DocumentRecord → Bool) (i : Option DocumentRecord) (states : States)
    → all test (records (append_new i states)) ≡ true
    → all test (records states) ≡ true
unfolding append_new
append_new-all_back test i states h =
    elim (Bool-cases (any (λ s. same_tracking_state s i) states)) [
      | inl p ↦ rw p at h
      | inr p ↦ all-prefix test states i (rw p at h)
    ]

same_refl : (i : Option DocumentRecord) → same_tracking_state i i ≡ true
unfolding same_tracking_state
same_refl none = refl
same_refl (some r) = ==_refl r

any-append_self :
    (i : Option DocumentRecord) (states : States)
    → any (λ s. same_tracking_state s i) (states ++ i ∷ []) ≡ true
any-append_self i [] = rw same_refl
any-append_self i (s ∷ states) = ground (arith, any-append_self i states)

-- A second precommit of one intended state changes nothing.
pub extend_twice :
    (i : Option DocumentRecord) (e : Option TrackEntry) → extend i (some (extend i e)) ≡ extend i e
unfolding extend append_new
extend_twice i e =
    elim (Bool-cases (any (λ s. same_tracking_state s i) (or_new e).possible_states)) [
      | inl p ↦ rw (p, p)
      | inr p ↦ rw (p, any-append_self i (or_new e).possible_states)
    ]
