-- ===== src/Runtime.antt =====
-- src/cogindex/_runtime.py: handles, payloads, and what cogindex needs of a Cognee deployment.
use cogindex.Base.{
  List, Bool, Option, Text, Result, ok, value_error, refuse, is_empty, contains, nat_eq, ◌>>◌,
}
use cogindex.Base.Exec.{Exec}
use cogindex.Identity.{Uuid, Content}
use cogindex.Identity.Value.{Fields}
use cogindex.Spec.Profile.{CognifyProfile}

pub record DatasetHandle : Type 0 where
  pub name : Text
  pub tenant : Text
  pub identity_scope : Text
  pub dataset_id : Option Uuid

-- `DatasetHandle.__post_init__`
unfoldable pub check_handle : DatasetHandle → Result DatasetHandle
check_handle h = do
  refuse (is_empty h.identity_scope) value_error
  refuse (contains 0 h.identity_scope) value_error
  ok h

pub record DocumentPayload : Type 0 where
  pub data_id : Uuid
  pub content : Content
  pub label : Option Text
  pub external_metadata : Option Fields
  pub node_set : Option (List Text)
  pub importance_weight : Option Text

pub record StoredDocument : Type 0 where
  pub data_id : Uuid
  pub label : Option Text
  pub external_metadata : Option Fields
  pub cognify_complete : Bool

-- The protocol class, over the state `S` of the deployment. `dataset_lock` is a context manager:
-- `acquire` is its entry and `release` its exit.
pub record CogneeRuntime (S : Type 0) : Type 0 where
  pub resolve_dataset : Text → Text → Exec S DatasetHandle
  pub add_documents : DatasetHandle → List DocumentPayload → Exec S DatasetHandle
  pub purge_document_memory : DatasetHandle → List Uuid → Exec S (Unit {0})
  pub delete_documents : DatasetHandle → List Uuid → Exec S (Unit {0})
  pub cognify_dataset : DatasetHandle → CognifyProfile → Exec S (Unit {0})
  pub teardown_dataset : DatasetHandle → Exec S (Unit {0})
  pub list_documents : DatasetHandle → Exec S (List StoredDocument)
  pub acquire : DatasetHandle → Exec S (Unit {0})
  pub release : DatasetHandle → Exec S (Unit {0})
