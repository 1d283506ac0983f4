-- ===== src/Locks.antt =====
-- InProcessLockProvider of src/cogindex/_locks.py: its table of locks, between two suspensions.
-- A task is a number. An `asyncio.Lock` is its holder and its waiters in order: it is free exactly
-- if it has no holder, and a release hands it to the first waiter.
pub mod Counted
pub mod Postgres
use cogindex.Base.{
  ℕ, suc, zero, ◌-◌, List, [], ◌∷◌, ◌++◌, Bool, true, false, Option, none, some, list_eq, nat_eq,
  ◌==◌, Text, is_empty, contains, Result, value_error, refuse, ◌>>=◌, ◌>>◌, if◌then◌else◌,
}
use cogindex.Base.Dict
use cogindex.Base.Dict.{Dict}

-- `_validate_scope`
unfoldable pub validate_scope : Text → Result (Unit {0})
validate_scope scope = do refuse (is_empty scope) value_error; refuse (contains 0 scope) value_error

-- A timeout as it is passed; a finite positive number is its text.
pub data TimeoutArg : Type 0 where
  boolean not_finite not_positive : TimeoutArg
  positive : Text → TimeoutArg

-- `InProcessLockProvider.__init__`
unfoldable pub check_timeout : Option TimeoutArg → Result (Option Text)
check_timeout none = Result.ok none
check_timeout (some boolean) = Result.err value_error
check_timeout (some not_finite) = Result.err value_error
check_timeout (some not_positive) = Result.err value_error
check_timeout (some (positive t)) = Result.ok (some t)

-- `_LockEntry`
pub record LockEntry : Type 0 where
  pub holder : Option ℕ
  pub waiters : List ℕ
  pub users : ℕ

abbrev pub Table : Type 0
Table = Dict Text LockEntry

abbrev pub fresh_entry : LockEntry
fresh_entry = record { holder = none; waiters = []; users = 0 }

-- `self._locks.setdefault(scope, _LockEntry())`
unfoldable pub or_fresh : Option LockEntry → LockEntry
or_fresh none = fresh_entry
or_fresh (some e) = e

-- The task takes a free lock, or waits for it.
unfoldable pub acquired : ℕ → Option ℕ → LockEntry → LockEntry
acquired task none e = record e { holder = some task }
acquired task (some other) e = record e { waiters = e.waiters ++ task ∷ [] }

unfoldable pub enter : Text → ℕ → Table → Table
unfolding or_fresh acquired Dict.get Dict.put
enter scope task table =
    let e = or_fresh (Dict.get scope table) in
    Dict.put scope (acquired task e.holder (record e { users = suc e.users })) table

-- `lock`: a scope that is refused leaves the table as it is.
unfoldable pub lock : Text → ℕ → Table → Result Table
unfolding validate_scope enter
lock scope task table = validate_scope scope >>= λ _. Result.ok (enter scope task table)

-- `users -= 1` has been done; an entry that nobody uses goes.
unfoldable pub put_back : Text → LockEntry → Table → Table
unfolding Dict.put Dict.pop
put_back scope e table = if e.users == 0 then Dict.pop scope table else Dict.put scope e table

-- `entry.lock.release()`
unfoldable pub released : List ℕ → LockEntry → LockEntry
released [] e = record e { holder = none }
released (task ∷ rest) e = record e { holder = some task; waiters = rest }

-- The holder leaves.
unfoldable pub leave_entry : LockEntry → LockEntry
unfolding released
leave_entry e = let r = released e.waiters e in record r { users = r.users - 1 }

unfoldable pub exit : Text → Table → Table
unfolding leave_entry put_back Dict.get
exit scope table = elim (Dict.get scope table) [
  | none ↦ table
  | some e ↦ put_back scope (leave_entry e) table
]

unfoldable pub gave_up : ℕ → List ℕ → List ℕ
gave_up task [] = []
gave_up task (w ∷ ws) = let rest = gave_up task ws in if w == task then ws else w ∷ rest

-- A waiter's timeout: it leaves without having held the lock.
unfoldable pub give_up : Text → ℕ → Table → Table
unfolding gave_up put_back Dict.get
give_up scope task table = elim (Dict.get scope table) [
  | none ↦ table
  | some e ↦
      if contains task e.waiters
      then put_back scope (record e { waiters = gave_up task e.waiters; users = e.users - 1 }) table
      else table
]
