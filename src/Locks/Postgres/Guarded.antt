-- ===== src/Locks/Postgres/Guarded.antt =====
-- When the body under a Postgres lock is started, and what a lock that returns leaves.
use cogindex.Base.{ℕ, Bool, true, false, Option, none, some, ◌≡◌, refl, ap, Result, ok, err}
use cogindex.Base.Exec.{Exec}
use cogindex.Locks.Postgres.{
  Signed, Database, timed, poll, first_error, clean_up, after_poll, deadline_of, with_advisory_lock,
}

-- What PostgreSQL documents: a session whose attempt succeeded holds the lock, and a session that
-- has been closed holds none.
pub record IsSession {S : Type 0} (db : Database S) (Held : ℕ → Signed → S → Type 0)
    (Free : ℕ → S → Type 0) : Type 0 where
  pub taken :
      (conn : ℕ) (key : Signed) (s t : S) → db.try_lock conn key s ≡ (ok true, t) → Held conn key t
  pub closed : (conn : ℕ) (s t : S) → db.close conn s ≡ (ok tt, t) → Free conn t

module _ {S : Type 0} (db : Database S) (Held : ℕ → Signed → S → Type 0) (Free : ℕ → S → Type 0)
    (session : IsSession db Held Free) (interval : ℕ) (key : Signed) where
  -- The lock is held if the polling returned.
  abbrev HeldIf : ℕ → Option (Result (Unit {0}) × S) → Type 0
  HeldIf conn none = Unit
  HeldIf conn (some (err e, t)) = Unit
  HeldIf conn (some (ok x, t)) = Held conn key t

  module _ {A : Type 0} where
    -- Two bodies that agree while the lock is held
    abbrev Agree : Exec S A → Exec S A → Type 0
    Agree body body' = (conn : ℕ) (s : S) → Held conn key s → body s ≡ body' s

    -- The session was opened, and is closed.
    abbrev pub GivenBack : S → Option (Result A × S) → Type 0
    GivenBack s none = Unit
    GivenBack s (some (err e, t)) = Unit
    GivenBack s (some (ok a, t)) = (conn : ℕ) × (timed (db.connect s).0 ≡ ok conn) × Free conn t

    first_error-ok :
        (r : Result A) (u c : Result (Unit {0})) (a : A)
        → first_error db interval r u c ≡ ok a
        → c ≡ ok tt
    first_error-ok (err e) u c a h = absurd (cc h)
    first_error-ok (ok b) (err e) c a h = absurd (cc h)
    first_error-ok (ok b) (ok x) (err e) a h = absurd (cc h)
    first_error-ok (ok b) (ok x) (ok tt) a h = refl

    module _ (s : S) (conn : ℕ) (opened : timed (db.connect s).0 ≡ ok conn) where
      closed_back :
          (r : Result A) (u : Result (Unit {0})) (v : S)
          → GivenBack s
              (some (first_error db interval r u (db.close conn v).0, (db.close conn v).1))
      closed_back r u v =
          go (first_error db interval r u (db.close conn v).0)
            (first_error-ok r u (db.close conn v).0)
        where
          go :
              (q : Result A)
              → ((a : A) → q ≡ ok a → (db.close conn v).0 ≡ ok tt)
              → GivenBack s (some (q, (db.close conn v).1))
          go (err e) back = tt
          go (ok a) back = (
            conn,
            opened,
            session.closed conn v (db.close conn v).1
                (ap (λ r. (r, (db.close conn v).1)) (back a refl)),
          )

      cleaned_back :
          (b : Bool) (r : Result A) (v : S)
          → GivenBack s (some (clean_up db interval b conn key r v))
      unfolding clean_up
      cleaned_back true r v = closed_back r (db.unlock conn key v).0 (db.unlock conn key v).1
      cleaned_back false r v = closed_back r (ok tt) v

      polled_back :
          (body : Exec S A) (o : Option (Result (Unit {0}) × S))
          → GivenBack s (after_poll db interval body conn key o)
      polled_back body none = tt
      polled_back body (some (r, t)) = go (timed r)
        where
          go :
              (q : Result (Unit {0}))
              → GivenBack s (
                  some (elim q [
                    | err e ↦ clean_up db interval false conn key (err e) t
                    | ok _ ↦ let done = body t in clean_up db interval true conn key done.0 done.1
                  ]))
          go (err e) = cleaned_back false (err e) t
          go (ok x) = cleaned_back true (body t).0 (body t).1

    -- If a session that has been closed holds no lock, then a lock whose body and release return has
    -- opened a session that holds no lock any more.
    pub with_advisory_lock-GivenBack :
        (fuel : ℕ) (timeout : Option ℕ) (body : Exec S A) (s : S)
        → GivenBack s (with_advisory_lock db interval fuel timeout key body s)
    unfolding with_advisory_lock
    with_advisory_lock-GivenBack fuel timeout body s = go (timed (db.connect s).0) refl
      where
        go :
            (c : Result ℕ)
            → timed (db.connect s).0 ≡ c
            → GivenBack s (elim c [
              | err e ↦ some (err e, (db.connect s).1)
              | ok conn ↦ after_poll db interval body conn key (
                  poll db interval fuel conn key
                    (deadline_of db interval timeout s)
                    (db.connect s).1)
            ])
        go (err e) q = tt
        go (ok conn) q = polled_back s conn q body _
