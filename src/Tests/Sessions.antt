-- ===== src/Tests/Sessions.antt =====
-- A concrete database whose lock is free from tick 2 on, and the theorems on it.
use cogindex.Base.{
  ℕ, ◌+◌, List, [], ◌∷◌, Bool, true, false, some, codes, leb, ◌≡◌, refl, sym, ap, arith, Result, ok,
  err, runtime_error, is_some, list_eq, nat_eq, if◌then◌else◌,
}
use cogindex.Base.Exec.{Exec}
use cogindex.Identity.Utf8.{utf8}
use cogindex.Locks.Postgres.{Signed, pos, Database, advisory_lock_key, with_advisory_lock}
use cogindex.Locks.Postgres.Key.{IsSigned64, IsDigest8, advisory_lock_key-IsSigned64}
use cogindex.Locks.Postgres.Guarded.{IsSession, GivenBack, with_advisory_lock-GivenBack}
use cogindex.Locks.Postgres.Polling.{IsClock, with_advisory_lock_returns}

record Session : Type 0 where
  now : ℕ
  held : Bool

abbrev attempt : Bool → Session → Result Bool × Session
attempt true s = (ok true, record s { held = true })
attempt false s = (ok false, s)

abbrev database : Database Session
database = record {
  connect = λ s. (ok 7, s);
  try_lock = λ conn key s. attempt (leb 2 s.now) s;
  unlock = λ conn key s. (ok tt, record s { held = false });
  close = λ conn s. (ok tt, record s { held = false });
  time = λ s. s.now;
  sleep = λ n s. (ok tt, record s { now = s.now + n });
}

abbrev Held : ℕ → Signed → Session → Type 0
Held conn key s = s.held ≡ true

abbrev Free : ℕ → Session → Type 0
Free conn s = s.held ≡ false

attempt-held : (b : Bool) (s t : Session) → attempt b s ≡ (ok true, t) → t.held ≡ true
attempt-held true s t h = sym (ap (λ (r : Result Bool × Session). r.1.held) h)
attempt-held false s t h = absurd (cc (ap (λ (r : Result Bool × Session). r.0) h))

database-IsSession : IsSession database Held Free
database-IsSession = record {
  taken = λ conn key s t h. attempt-held (leb 2 s.now) s t h;
  closed = λ conn s t h. sym (ap (λ (r : Result (Unit {0}) × Session). r.1.held) h);
}

attempt-now : (b : Bool) (s : Session) → (attempt b s).1.now ≡ s.now
attempt-now true s = refl
attempt-now false s = refl

database-IsClock : IsClock database
database-IsClock = record {
  connecting = λ s. omega arith;
  trying = λ conn key s. rw (attempt-now (leb 2 s.now) s) (omega arith);
  sleeping = λ n s. omega arith;
}

abbrev start : Session
start = record { now = 0; held = false }

abbrev body : Exec Session ℕ
body s = (ok 5, s)

abbrev careful : Exec Session ℕ
careful s = if s.held then (ok 5, s) else (err runtime_error, s)

with_advisory_lock-GivenBack_example :
    GivenBack database Held Free database-IsSession 1
      (pos 1)
      start
      (with_advisory_lock database 1 4 (some 3) (pos 1) body start)
with_advisory_lock-GivenBack_example =
    with_advisory_lock-GivenBack database Held Free database-IsSession 1 (pos 1) 4 (some 3) body
      start

with_advisory_lock_returns_example :
    is_some (with_advisory_lock database 1 4 (some 3) (pos 1) body start) ≡ true
with_advisory_lock_returns_example =
    with_advisory_lock_returns database database-IsClock 1 (omega arith) body (pos 1) 4 3 start
      (omega arith)

abbrev digest8 : List ℕ → List ℕ
digest8 xs = 0 ∷ 0 ∷ 0 ∷ 0 ∷ 0 ∷ 0 ∷ 0 ∷ 1 ∷ []

digest8-IsDigest8 : IsDigest8 digest8
digest8-IsDigest8 xs = (
  refl,
  (
    omega arith,
    (
      omega arith,
      (omega arith, (omega arith, (omega arith, (omega arith, (omega arith, (omega arith, tt)))))),
    ),
  ),
)

key_lem : advisory_lock_key digest8 (codes "scope") ≡ ok (pos 1)
unfolding advisory_lock_key nat_eq
key_lem = refl

advisory_lock_key-IsSigned64_example :
    IsSigned64 (pos 1)
    × (advisory_lock_key digest8 (codes "other") ≡ ok (pos 1)
        → digest8 (utf8 (codes "scope")) ≡ digest8 (utf8 (codes "other")))
advisory_lock_key-IsSigned64_example =
    advisory_lock_key-IsSigned64 digest8 digest8-IsDigest8 (codes "scope") (codes "other") (pos 1)
      key_lem
