-- ===== src/Local/Session.antt =====
-- Any sequence of calls of a runtime's methods, whatever each of them raises.
pub mod Refused
pub mod InScope
use cogindex.Base.{List, [], ◌∷◌, Bool, true, false, Text, Result, ok, err}
use cogindex.Base.Exec.{Exec}
use cogindex.Identity.{Uuid}
use cogindex.Runtime.{CogneeRuntime, DatasetHandle, DocumentPayload}
use cogindex.Spec.Profile.{CognifyProfile}

-- A method with its arguments; a lock is entered or left.
pub data Method : Type 0 where
  resolve_dataset : Text → Text → Method
  add_documents : DatasetHandle → List DocumentPayload → Method
  purge_document_memory delete_documents : DatasetHandle → List Uuid → Method
  cognify_dataset : DatasetHandle → CognifyProfile → Method
  teardown_dataset list_documents lock unlock : DatasetHandle → Method

module _ {S : Type 0} (runtime : CogneeRuntime S) where
  -- The state that the method leaves, whether it returns or raises.
  abbrev pub after : Method → S → S
  after (resolve_dataset name tenant) s = (runtime.resolve_dataset name tenant s).1
  after (add_documents h payloads) s = (runtime.add_documents h payloads s).1
  after (purge_document_memory h ids) s = (runtime.purge_document_memory h ids s).1
  after (delete_documents h ids) s = (runtime.delete_documents h ids s).1
  after (cognify_dataset h profile) s = (runtime.cognify_dataset h profile s).1
  after (teardown_dataset h) s = (runtime.teardown_dataset h s).1
  after (list_documents h) s = (runtime.list_documents h s).1
  after (lock h) s = (runtime.acquire h s).1
  after (unlock h) s = (runtime.release h s).1

  unfoldable pub after_all : List Method → S → S
  after_all [] s = s
  after_all (m ∷ ms) s = after_all ms (after m s)
