-- ===== src/Lib.antt =====
-- cogindex: declarative document targets for Cognee on the CocoIndex engine.
--
-- The engine tells a target handler which documents are declared and which tracking records may
-- describe what is stored; the handler plans an action for each, and a batch of actions is applied
-- to a Cognee deployment under a lock. The library models the package's own logic from the
-- derivation of identities to the application of a batch, the emulator of a deployment with
-- scripted faults, the emulation of the engine's tracking that the tests drive, the runtime over an
-- installed Cognee, and its locks in one process and in a database.
--
-- Base: Python's exceptions, dicts, sets and texts (src/cogindex/_errors.py for the classes of
--   exceptions). A computation is a function from a state to a result and a state, so that what was
--   written before a raise stays written. A text is its list of code points.
-- Identity: src/cogindex/_identity.py. `Join` has canonical_join, `Utf8` the encoding, `Decoding` a
--   reader of what is hashed, `Value` the Python values that reach json.dumps. BLAKE2b, UUID5, NFC
--   and json.dumps are the fields of the parameter `Primitives`; nothing is assumed of them but,
--   where a theorem says so, that UUID5 tells different names of one namespace apart.
-- Records: src/cogindex/_records.py.
-- Spec: src/cogindex/_spec.py. `Profile` is CognifyProfile, `Processing` is ProcessingConfig and
--   processing_config_from_profile, `Document` is CogneeDocumentSpec and document_record_for.
-- Runtime: src/cogindex/_runtime.py. The protocol is a record of operations over a state.
-- Target: src/cogindex/_target.py. `Reconcile` is _classify_write and DocumentHandler.reconcile,
--   `Apply` is DocumentHandler._apply, `Statediff` is what they take from the engine's statediff, a
--   parameter whose documented behaviour is `IsDiff`. `Dataset` is the dataset level,
--   DatasetHandler and its sink, with the public functions.
-- Verify: src/cogindex/_verify.py; `Indexed` is about its dicts and `Whole` about a whole run.
--   Locks: the table of src/cogindex/_locks.py, and in `Postgres` src/cogindex/_locks_postgres.py,
--   over a record of the calls of the database and of the clock.
-- Local: src/cogindex/_runtime_local.py. `Sdk` is the record of the calls of Cognee and of the
--   compatibility layer over a state of theirs. `Checks`, `Scope`, `Results`, `Datasets` and
--   `Groups` are the helpers that call nothing, `Binding` the resolution of a user's scope,
--   `Operations` the methods, `Session` sequences of them, `Frame` what each method may write, and
--   `Live` the registry of the live runtimes of a process.
-- Compat: src/cogindex/_compat.py. `Args` is the canonical form of the arguments of a model,
--   `Dimensions` the check of the embedding dimensions, `Credentials` credentials_present, and
--   `Config` the checks of Cognee's configuration objects. Doctor: src/cogindex/_doctor.py.
-- Testing: src/cogindex/testing.py. `Documents` is the loops over stored documents, `Faults` the
--   fault scripts, `Fake` the operations of FakeCogneeRuntime,
--   `Inspection` its inspection helpers, `Effects` what each does to each
--   document however it ends.
-- Engine: tests/common/engine_model.py. `Entry` is TrackEntry and the change of one entry, `Round`
--   the cycles, `Entry/Holds` what an entry says of the stored document, and `Batch` what a batch
--   does to the documents. `Outputs`, `Actions`, `Decision` and `Allowed` follow one key through a
--   round, `Stages` the views that a batch may leave, `Converged` the document of a declared key,
--   and `Sync` joins them: the invariant of the store and the deployment, and convergence;
--   `Sync/Quiet` is about a second sync and `Sync/Returns` about syncs without faults. `Machine` is
--   ConvergenceMachine of tests/property/test_convergence_machine.py: its rules as steps.
-- Tests: runs and instances of the theorems.
--
-- A check of a Python type is a type of the model; messages of exceptions, logging, timing and deep
-- copies are left out. A finite weight is the text of its float; where add_documents groups by
-- weights they are compared by value, and the two zeros are equal. A text has no lone surrogate,
-- which Python does not encode. Sizes and counts are natural numbers, and nothing wraps but the key
-- of an advisory lock, where the signed 64-bit integer is written out. Times are whole ticks of a
-- clock. Loops are structural recursion on a list, but for the polling of a Postgres lock, which
-- may wait for ever without a timeout: it has fuel, one for each attempt, and every attempt but the
-- last waits for at least a tick, so fuel beyond the ticks of the timeout is enough.
--
-- Not modelled: the rest of src/cogindex/_compat.py (the inspection of the installed Cognee and the
-- inputs that processing is configured with), most of which reads other packages; the texts that
-- the doctor prints; the benchmarks, the examples and the audit tools.
pub mod Base
pub mod Identity
pub mod Records
pub mod Spec
pub mod Runtime
pub mod Target
pub mod Testing
pub mod Doctor
pub mod Engine
pub mod Verify
pub mod Tests
pub mod Locks
pub mod Local
pub mod Compat
