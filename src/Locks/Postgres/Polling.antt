-- ===== src/Locks/Postgres/Polling.antt =====
-- The polling ends: there are no more attempts than ticks until the deadline, and one.
use cogindex.Base.{
  ℕ, zero, suc, ◌+◌, ◌-◌, ◌≤◌, ◌<◌, Bool, true, false, Option, none, some, leb, ◌≡◌, refl, arith,
  Result, ok, err, lock_timeout, is_some, Bool-cases, inl, inr,
}
use cogindex.Base.Exec.{Exec}
use cogindex.Locks.Postgres.{
  Signed, Database, is_due, min, pause, timed, poll, after_poll, with_advisory_lock,
}

-- The clock does not go back, and a sleep takes at least as long as it is asked to.
pub record IsClock {S : Type 0} (db : Database S) : Type 0 where
  pub connecting : (s : S) → db.time s ≤ db.time (db.connect s).1
  pub trying : (conn : ℕ) (key : Signed) (s : S) → db.time s ≤ db.time (db.try_lock conn key s).1
  pub sleeping : (n : ℕ) (s : S) → db.time s + n ≤ db.time (db.sleep n s).1

before : (deadline now : ℕ) → leb deadline now ≡ false → now < deadline
before deadline now h = ground arith

positive_min : (a b : ℕ) → 1 ≤ a → 1 ≤ b → 1 ≤ min a b
positive_min a b ha hb = elim (Bool-cases (leb a b)) [ inl q ↦ rw q ha | inr q ↦ rw q hb ]

module _ {S : Type 0} (db : Database S) (clock : IsClock db) (interval : ℕ)
    (some_time : 1 ≤ interval) (conn : ℕ) (key : Signed) (deadline : ℕ) where
  poll_returns :
      (fuel : ℕ) (s : S)
      → deadline - db.time s < fuel
      → is_some (poll db interval fuel conn key (some deadline) s) ≡ true
  unfolding poll
  poll_returns zero s h = absurd (omega arith)
  poll_returns (suc fuel) s h =
      tried (db.try_lock conn key s).0 (db.try_lock conn key s).1 (clock.trying conn key s)
        (poll_returns fuel)
    where
      slept :
          (r : Result (Unit {0})) (u : S)
          → is_some (poll db interval fuel conn key (some deadline) u) ≡ true
          → is_some {A = Result (Unit {0}) × S} (elim r [
            | err e ↦ some (err e, u)
            | ok _ ↦ poll db interval fuel conn key (some deadline) u
          ])
            ≡ true
      slept (err e) u p = refl
      slept (ok x) u p = p

      rest :
          (due : Bool) (t : S)
          → is_due (some deadline) (db.time t) ≡ due
          → db.time s ≤ db.time t
          → ((u : S)
              → deadline - db.time u < fuel
              → is_some (poll db interval fuel conn key (some deadline) u) ≡ true)
          → is_some {A = Result (Unit {0}) × S} (elim due [
            | true ↦ some (err lock_timeout, t)
            | false ↦
                let slept = db.sleep (pause interval (some deadline) (db.time t)) t in
                elim slept.0 [
                  | err e ↦ some (err e, slept.1)
                  | ok _ ↦ poll db interval fuel conn key (some deadline) slept.1
                ]
          ])
            ≡ true
      rest true t e later again = refl
      rest false t e later again =
          let n = pause interval (some deadline) (db.time t) in
          let early : db.time t < deadline = before deadline (db.time t) e in
          let longer : 1 ≤ n =
            positive_min interval (deadline - db.time t) some_time (omega arith) in
          let after = clock.sleeping n t in
          slept (db.sleep n t).0 (db.sleep n t).1 (again (db.sleep n t).1 (omega arith))

      tried :
          (r : Result Bool) (t : S)
          → db.time s ≤ db.time t
          → ((u : S)
              → deadline - db.time u < fuel
              → is_some (poll db interval fuel conn key (some deadline) u) ≡ true)
          → is_some {A = Result (Unit {0}) × S} (elim r [
            | err e ↦ some (err e, t)
            | ok taken ↦ elim taken [
              | true ↦ some (ok tt, t)
              | false ↦ elim (is_due (some deadline) (db.time t)) [
                | true ↦ some (err lock_timeout, t)
                | false ↦
                    let slept = db.sleep (pause interval (some deadline) (db.time t)) t in
                    elim slept.0 [
                      | err e ↦ some (err e, slept.1)
                      | ok _ ↦ poll db interval fuel conn key (some deadline) slept.1
                    ]
              ]
            ]
          ])
            ≡ true
      tried (err e) t later again = refl
      tried (ok true) t later again = refl
      tried (ok false) t later again = rest (is_due (some deadline) (db.time t)) t refl later again

module _ {S : Type 0} (db : Database S) (clock : IsClock db) (interval : ℕ)
    (some_time : 1 ≤ interval) {A : Type 0} (body : Exec S A) (key : Signed) where
  after_returns :
      (conn : ℕ) (o : Option (Result (Unit {0}) × S))
      → is_some o ≡ true
      → is_some (after_poll db interval body conn key o) ≡ true
  after_returns conn none h = absurd (cc h)
  after_returns conn (some acquired) h = refl

  -- If the clock does not go back, a sleep takes at least as long as it is asked to, and the poll
  -- interval is at least a tick, then waiting for a lock with a timeout ends, whatever the database
  -- answers: with more fuel than the timeout has ticks there is a result.
  pub with_advisory_lock_returns :
      (fuel timeout : ℕ) (s : S)
      → timeout < fuel
      → is_some (with_advisory_lock db interval fuel (some timeout) key body s) ≡ true
  unfolding with_advisory_lock
  with_advisory_lock_returns fuel timeout s h =
      go (db.connect s).0 (db.connect s).1 (clock.connecting s)
    where
      taken :
          (c : Result ℕ) (t : S)
          → db.time s ≤ db.time t
          → is_some {A = Result A × S} (elim c [
            | err e ↦ some (err e, t)
            | ok conn ↦
                after_poll db interval body conn key
                  (poll db interval fuel conn key (some (db.time s + timeout)) t)
          ])
            ≡ true
      taken (err e) t later = refl
      taken (ok conn) t later =
          after_returns conn (poll db interval fuel conn key (some (db.time s + timeout)) t) (
            poll_returns db clock interval some_time conn key (db.time s + timeout) fuel t
              (omega arith))

      go :
          (c : Result ℕ) (t : S)
          → db.time s ≤ db.time t
          → is_some {A = Result A × S} (elim (timed c) [
            | err e ↦ some (err e, t)
            | ok conn ↦
                after_poll db interval body conn key
                  (poll db interval fuel conn key (some (db.time s + timeout)) t)
          ])
            ≡ true
      go c t later = taken (timed c) t later
