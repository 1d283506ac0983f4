-- ===== src/Locks/Counted.antt =====
-- The table of locks after any sequence of entries, exits and timeouts.
use cogindex.Base.{
  ℕ, suc, ◌-◌, List, [], ◌∷◌, ◌++◌, true, false, Option, none, some, list_eq, nat_eq, ◌==◌, ◌≡◌,
  refl, arith, Text, contains, length, is_some, if◌then◌else◌, Bool-cases, inl, inr, ap, sym, ◌∙◌,
}
use mathlib.Core.Path.{subst}
use mathlib.Core.Option.{some-injective}
use cogindex.Base.Dict
use cogindex.Base.Dict.{get-put, get-pop}
use cogindex.Locks.{
  LockEntry, Table, or_fresh, acquired, enter, put_back, released, leave_entry, exit, gave_up,
  give_up,
}

-- What a task does to the table.
pub data Event : Type 0 where
  enters gives_up : Text → ℕ → Event
  leaves : Text → Event

unfoldable pub step : Event → Table → Table
unfolding enter exit give_up
step (enters scope task) table = enter scope task table
step (gives_up scope task) table = give_up scope task table
step (leaves scope) table = exit scope table

unfoldable pub run : List Event → Table → Table
unfolding step
run [] table = table
run (e ∷ rest) table = run rest (step e table)

-- Someone holds the lock, and the users are the holder and the waiters.
pub record IsCounted (e : LockEntry) : Type 0 where
  pub held : is_some e.holder ≡ true
  pub counted : e.users ≡ suc (length e.waiters)

-- Every entry of the table is counted; so a scope without users has no entry.
abbrev pub Counted : Table → Type 0
Counted table = (scope : Text) (e : LockEntry) → Dict.get scope table ≡ some e → IsCounted e

length-append : (ws : List ℕ) (w : ℕ) → length (ws ++ w ∷ []) ≡ suc (length ws)
length-append [] w = refl
length-append (v ∷ ws) w = ap suc (length-append ws w)

length-gave_up :
    (task : ℕ) (ws : List ℕ) → contains task ws ≡ true → suc (length (gave_up task ws)) ≡ length ws
unfolding gave_up
length-gave_up task [] h = absurd (cc)
length-gave_up task (w ∷ ws) h = ground (arith, length-gave_up task ws)

Counted-put :
    (scope : Text) (e : LockEntry) (table : Table)
    → IsCounted e
    → Counted table
    → Counted (Dict.put scope e table)
Counted-put scope e table i c other x h = elim (Bool-cases (other == scope)) [
  | inl same ↦ subst IsCounted (some-injective e x (rw (get-put, same) at h)) i
  | inr apart ↦ c other x (rw (get-put, apart) at h)
]

Counted-pop : (scope : Text) (table : Table) → Counted table → Counted (Dict.pop scope table)
Counted-pop scope table c other x h = elim (Bool-cases (other == scope)) [
  | inl same ↦ absurd (cc (rw (get-pop, same) at h))
  | inr apart ↦ c other x (rw (get-pop, apart) at h)
]

Counted-put_back :
    (scope : Text) (e : LockEntry) (table : Table)
    → ((e.users == 0) ≡ false → IsCounted e)
    → Counted table
    → Counted (put_back scope e table)
unfolding put_back
Counted-put_back scope e table i c = elim (Bool-cases (e.users == 0)) [
  | inl gone ↦ rw gone (Counted-pop scope table c)
  | inr used ↦ rw used (Counted-put scope e table (i used) c)
]

IsCounted-acquired :
    (task : ℕ) (o : Option LockEntry)
    → ((e : LockEntry) → o ≡ some e → IsCounted e)
    → IsCounted
        (acquired task (or_fresh o).holder (record (or_fresh o) { users = suc (or_fresh o).users }))
unfolding acquired or_fresh
IsCounted-acquired task none i = record { held = refl; counted = refl }
IsCounted-acquired task (some e) i = go e.holder refl (i e refl)
  where
    go :
        (h : Option ℕ)
        → e.holder ≡ h
        → IsCounted e
        → IsCounted (acquired task h (record e { users = suc e.users }))
    go none p c = absurd (cc (p, c.held))
    go (some t) p c = record {
      held = c.held;
      counted = ap suc c.counted ∙ ap suc (sym (length-append e.waiters task));
    }

IsCounted-leave_entry :
    (e : LockEntry) → IsCounted e → ((leave_entry e).users == 0) ≡ false → IsCounted (leave_entry e)
unfolding leave_entry released
IsCounted-leave_entry e c used = go e.waiters refl used
  where
    go :
        (ws : List ℕ)
        → e.waiters ≡ ws
        → ((released ws e).users - 1 == 0) ≡ false
        → IsCounted (record (released ws e) { users = (released ws e).users - 1 })
    go [] p n = absurd (ground (arith, c.counted))
    go (w ∷ ws) p n = record { held = refl; counted = ground (arith, c.counted) }

IsCounted-gave_up :
    (task : ℕ) (e : LockEntry)
    → contains task e.waiters ≡ true
    → IsCounted e
    → IsCounted (record e { waiters = gave_up task e.waiters; users = e.users - 1 })
IsCounted-gave_up task e waits c = record {
  held = c.held;
  counted = omega (arith, c.counted, length-gave_up task e.waiters waits);
}

-- One event keeps every entry counted.
pub step-Counted : (event : Event) (table : Table) → Counted table → Counted (step event table)
unfolding step
step-Counted (enters scope task) table c =
    unfold enter in
    Counted-put scope _ table (IsCounted-acquired task (Dict.get scope table) (c scope)) c
step-Counted (leaves scope) table c = unfold exit in go (Dict.get scope table) (c scope)
  where
    go :
        (o : Option LockEntry)
        → ((e : LockEntry) → o ≡ some e → IsCounted e)
        → Counted (elim o [ none ↦ table | some e ↦ put_back scope (leave_entry e) table ])
    go none i = c
    go (some e) i =
        Counted-put_back scope (leave_entry e) table (IsCounted-leave_entry e (i e refl)) c
step-Counted (gives_up scope task) table c = unfold give_up in go (Dict.get scope table) (c scope)
  where
    go :
        (o : Option LockEntry)
        → ((e : LockEntry) → o ≡ some e → IsCounted e)
        → Counted (elim o [
          | none ↦ table
          | some e ↦
              if contains task e.waiters
              then put_back scope
                  (record e { waiters = gave_up task e.waiters; users = e.users - 1 })
                  table
              else table
        ])
    go none i = c
    go (some e) i = elim (Bool-cases (contains task e.waiters)) [
      | inl waits ↦
          rw waits
            (Counted-put_back scope _ table (λ used. IsCounted-gave_up task e waits (i e refl)) c)
      | inr other ↦ rw other c
    ]

-- After any sequence of entries, exits and timeouts that starts with an empty table, every entry of
-- the table has a holder, and its number of users is that of the holder and the waiters.
pub run-Counted : (events : List Event) → Counted (run events [])
unfolding run Dict.get
run-Counted events = go events [] (λ scope e h. absurd (empty scope e h))
  where
    empty : (scope : Text) (e : LockEntry) → Dict.get scope [] ≡ some e → ⊥
    empty scope e h = cc h

    go : (events : List Event) (table : Table) → Counted table → Counted (run events table)
    go [] table c = c
    go (event ∷ rest) table c = go rest (step event table) (step-Counted event table c)
