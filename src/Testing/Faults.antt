-- ===== src/Testing/Faults.antt =====
-- Fault scripts, the log of calls, and the state of a FakeCogneeRuntime.
use cogindex.Base.{
  ℕ, ◌-◌, List, [], ◌∷◌, ◌++◌, Bool, ◌&&◌, Option, none, some, Text, Result, ok, err, PyError,
  value_error, leb, Eq, list_eq, nat_eq, pair_eq, is_empty, contains, is_some, refuse, ◌==◌, not,
  if◌then◌else◌, ◌>>◌,
}
use cogindex.Base.Dict
use cogindex.Base.Dict.{Dict}
use cogindex.Base.Exec.{Exec}
use cogindex.Testing.Documents.{FakeDataset}

-- `_FAULT_OPS`
pub data FaultOp : Type 0 where
  resolve_dataset add_documents purge_document_memory delete_documents : FaultOp
  cognify_dataset teardown_dataset dataset_lock : FaultOp

instance unfoldable pub fault_op_eq : Eq FaultOp
fault_op_eq = record { dec = hlevel }

pub record Fault : Type 0 where
  pub remaining : ℕ
  pub after_items : Option ℕ
  pub exc : PyError
  pub torn : Bool

-- What `calls` records: an operation, or the entry or exit of the lock.
pub data CallOp : Type 0 where
  called : FaultOp → CallOp
  lock_acquire lock_release : CallOp

pub record Call : Type 0 where
  pub op : CallOp
  pub dataset : Text
  pub detail : List Text

pub record Fake : Type 0 where
  pub datasets : Dict (Text × Text) FakeDataset
  pub calls : List Call
  pub identity_scope : Text
  pub faults : Dict FaultOp (List Fault)

-- `FakeCogneeRuntime.__init__`
unfoldable pub new_fake : Text → Result Fake
new_fake identity_scope = do
  refuse (is_empty identity_scope) value_error
  refuse (contains 0 identity_scope) value_error
  ok (record { datasets = []; calls = []; identity_scope = identity_scope; faults = [] })

abbrev pub scripts_of : Option (List Fault) → List Fault
scripts_of none = []
scripts_of (some fs) = fs

-- `inject_fault`; that the operation is known is its type.
unfoldable pub inject_fault : FaultOp → ℕ → Option ℕ → Bool → PyError → Exec Fake (Unit {0})
unfolding Dict.get Dict.put fault_op_eq
inject_fault op times after_items torn exc s =
    if is_some after_items && not (op == add_documents)
    then (err value_error, s)
    else if torn && not (op == delete_documents)
    then (err value_error, s)
    else (
      ok tt,
      record s {
        faults =
            Dict.put op
              (scripts_of (Dict.get op s.faults)
                ++ (record { remaining = times; after_items = after_items; exc = exc; torn = torn })
                  ∷ [])
              s.faults;
      },
    )

unfoldable pub clear_faults : Fake → Fake
clear_faults s = record s { faults = [] }

-- The first script, and the scripts that are left after it has been used once.
unfoldable pub use_fault : List Fault → Option Fault × List Fault
use_fault [] = (none, [])
use_fault (f ∷ rest) =
    let used = record f { remaining = f.remaining - 1 } in
    (some used, if leb f.remaining 1 then rest else used ∷ rest)

-- An operation without scripts leaves the dict of them as it is.
abbrev pub store_scripts :
    FaultOp → List Fault → List Fault → Dict FaultOp (List Fault) → Dict FaultOp (List Fault)
store_scripts op [] left faults = faults
store_scripts op (f ∷ fs) left faults = Dict.put op left faults

-- `_next_fault`
unfoldable pub next_fault : FaultOp → Fake → Option Fault × Fake
unfolding use_fault Dict.get Dict.put fault_op_eq
next_fault op s =
    let scripts = scripts_of (Dict.get op s.faults) in
    let used = use_fault scripts in
    (used.0, record s { faults = store_scripts op scripts used.1 s.faults })

abbrev pub raise_fault : Option Fault → Fake → Result (Unit {0}) × Fake
raise_fault none s = (ok tt, s)
raise_fault (some f) s = (err f.exc, s)

-- `_fire`
unfoldable pub fire : FaultOp → Exec Fake (Unit {0})
unfolding next_fault
fire op s = let next = next_fault op s in raise_fault next.0 next.1

unfoldable pub log_call : CallOp → Text → List Text → Fake → Fake
log_call op dataset detail s = record s {
  calls = s.calls ++ (record { op = op; dataset = dataset; detail = detail }) ∷ [];
}
