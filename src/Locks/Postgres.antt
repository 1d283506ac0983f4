-- ===== src/Locks/Postgres.antt =====
-- src/cogindex/_locks_postgres.py: locks that a PostgreSQL session holds.
-- Times are whole ticks of the event loop's clock.
pub mod Key
pub mod Guarded
pub mod Polling
use cogindex.Base.{
  ℕ, zero, suc, ◌+◌, ◌-◌, ◌*◌, List, [], ◌∷◌, Bool, true, false, not, Option, none, some, Text, leb,
  ltb, nat_eq, list_eq, contains, Result, ok, err, PyError, value_error, lock_timeout,
  timeout_error, refuse, ◌>>=◌, ◌>>◌, if◌then◌else◌,
}
use cogindex.Base.Exec.{Exec}
use cogindex.Identity.Utf8.{utf8}
use cogindex.Spec.Profile.{is_blank}
use cogindex.Locks.{validate_scope, TimeoutArg, check_timeout}

-- A signed integer; `negsuc n` is -(n + 1).
pub data Signed : Type 0 where
  pos negsuc : ℕ → Signed

-- Horner's rule for `int.from_bytes(_, "big")`
unfoldable pub big_endian : ℕ → List ℕ → ℕ
big_endian acc [] = acc
big_endian acc (b ∷ bs) = big_endian (acc * 256 + b) bs

-- The sign of an eight-byte integer: 2 ^ 63 and 2 ^ 64 are written out.
unfoldable pub signed64 : ℕ → Signed
signed64 u = if ltb u 9223372036854775808 then pos u else negsuc (18446744073709551615 - u)

-- `advisory_lock_key`, where `digest8` is `blake2b(_, digest_size=8).digest()`
unfoldable pub advisory_lock_key : (List ℕ → List ℕ) → Text → Result Signed
unfolding validate_scope big_endian signed64 utf8
advisory_lock_key digest8 scope =
    validate_scope scope >>= λ _. ok (signed64 (big_endian 0 (digest8 (utf8 scope))))

-- A poll interval as it is passed, in ticks if it is a finite positive number.
pub data IntervalArg : Type 0 where
  boolean not_finite not_positive : IntervalArg
  positive : ℕ → IntervalArg

unfoldable pub check_interval : IntervalArg → Result ℕ
check_interval boolean = err value_error
check_interval not_finite = err value_error
check_interval not_positive = err value_error
check_interval (positive n) = ok n

unfoldable pub check_dsn : Text → Result (Unit {0})
unfolding is_blank
check_dsn dsn = do refuse (is_blank dsn) value_error; refuse (contains 0 dsn) value_error

-- What the code takes from asyncpg and the event loop, over the state `S` of the database and the
-- clock. A timeout that fires while a call waits makes it raise `timeout_error`.
pub record Database (S : Type 0) : Type 0 where
  pub connect : Exec S ℕ
  -- `SELECT pg_try_advisory_lock($1)`
  pub try_lock : ℕ → Signed → Exec S Bool
  -- `SELECT pg_advisory_unlock($1)`
  pub unlock : ℕ → Signed → Exec S (Unit {0})
  pub close : ℕ → Exec S (Unit {0})
  pub time : S → ℕ
  pub sleep : ℕ → Exec S (Unit {0})

abbrev pub is_due : Option ℕ → ℕ → Bool
is_due none now = false
is_due (some deadline) now = leb deadline now

abbrev pub min : ℕ → ℕ → ℕ
min a b = if leb a b then a else b

-- `min(poll_interval, max(0.0, deadline - now))`; the subtraction stops at 0.
abbrev pub pause : ℕ → Option ℕ → ℕ → ℕ
pause interval none now = interval
pause interval (some deadline) now = min interval (deadline - now)

-- `except TimeoutError`
abbrev pub timed : {A : Type 0} → Result A → Result A
timed (ok a) = ok a
timed (err timeout_error) = err lock_timeout
timed (err e) = err e

module _ {S : Type 0} (db : Database S) (interval : ℕ) where
  -- `_acquire`; `none` says that the fuel was not enough.
  unfoldable pub poll : ℕ → ℕ → Signed → Option ℕ → S → Option (Result (Unit {0}) × S)
  poll zero conn key deadline s = none
  poll (suc fuel) conn key deadline s =
      let tried = db.try_lock conn key s in
      elim tried.0 [
        | err e ↦ some (err e, tried.1)
        | ok taken ↦ elim taken [
          | true ↦ some (ok tt, tried.1)
          | false ↦ elim (is_due deadline (db.time tried.1)) [
            | true ↦ some (err lock_timeout, tried.1)
            | false ↦
                let slept = db.sleep (pause interval deadline (db.time tried.1)) tried.1 in
                elim slept.0 [
                  | err e ↦ some (err e, slept.1)
                  | ok _ ↦ poll fuel conn key deadline slept.1
                ]
          ]
        ]
      ]

  -- The `finally` clause: the error of the unlock comes before that of the close, and both after
  -- the primary one.
  abbrev pub first_error :
      {A : Type 0} → Result A → Result (Unit {0}) → Result (Unit {0}) → Result A
  first_error (err e) unlocked closed = err e
  first_error (ok a) (err e) closed = err e
  first_error (ok a) (ok _) (err e) = err e
  first_error (ok a) (ok _) (ok _) = ok a

  unfoldable pub clean_up : {A : Type 0} → Bool → ℕ → Signed → Result A → S → Result A × S
  clean_up true conn key r s =
      let unlocked = db.unlock conn key s in
      let closed = db.close conn unlocked.1 in (first_error r unlocked.0 closed.0, closed.1)
  clean_up false conn key r s =
      let closed = db.close conn s in (first_error r (ok tt) closed.0, closed.1)

  abbrev pub run_body : {A : Type 0} → Exec S A → ℕ → Signed → Result (Unit {0}) × S → Result A × S
  run_body body conn key acquired = elim (timed acquired.0) [
    | err e ↦ clean_up false conn key (err e) acquired.1
    | ok _ ↦ let done = body acquired.1 in clean_up true conn key done.0 done.1
  ]

  abbrev pub after_poll :
      {A : Type 0} → Exec S A → ℕ → Signed → Option (Result (Unit {0}) × S) → Option (Result A × S)
  after_poll body conn key none = none
  after_poll body conn key (some acquired) = some (run_body body conn key acquired)

  abbrev pub deadline_of : Option ℕ → S → Option ℕ
  deadline_of none s = none
  deadline_of (some timeout) s = some (db.time s + timeout)

  -- `_lock` around a body, for a key: `none` says that the fuel was not enough. The body is one change
  -- of the state, with all that others do to it in the meantime; the session may be lost in it, and
  -- nothing stops the body then.
  unfoldable pub with_advisory_lock :
      {A : Type 0} → ℕ → Option ℕ → Signed → Exec S A → S → Option (Result A × S)
  unfolding poll clean_up
  with_advisory_lock fuel timeout key body s =
      let deadline = deadline_of timeout s in
      let connected = db.connect s in
      elim (timed connected.0) [
        | err e ↦ some (err e, connected.1)
        | ok conn ↦ after_poll body conn key (poll fuel conn key deadline connected.1)
      ]

  -- `lock`: a scope that is refused opens no session.
  unfoldable pub with_scope_lock :
      {A : Type 0} → (List ℕ → List ℕ) → ℕ → Option ℕ → Text → Exec S A → S → Option (Result A × S)
  unfolding advisory_lock_key with_advisory_lock
  with_scope_lock digest8 fuel timeout scope body s = elim (advisory_lock_key digest8 scope) [
    | err e ↦ some (err e, s)
    | ok key ↦ with_advisory_lock fuel timeout key body s
  ]
