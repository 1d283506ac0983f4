-- ===== src/Local/Sdk.antt =====
-- What the runtime takes from Cognee and from _compat.py, over the state `S` of the process and of
-- Cognee's databases.
use cogindex.Base.{ℕ, List, ◌++◌, Bool, Option, Text, codes, PyError}
use cogindex.Base.Dict.{Dict}
use cogindex.Base.Exec.{Exec}
use cogindex.Identity.{Uuid, Content, text_content, bytes_content}
use cogindex.Identity.Utf8.{utf8}
use cogindex.Identity.Value.{Fields}
use cogindex.Runtime.{DocumentPayload}
use cogindex.Spec.Profile.{CognifyProfile, PyClass}
use cogindex.Local.Checks.{Roots}
use cogindex.Local.Scope.{User}
use cogindex.Local.Datasets.{Dataset}
use cogindex.Local.Results.{PipelineResult}

-- Cognee's DataItem, its data an upload: the bytes of the stream and the file name.
pub record DataItem : Type 0 where
  pub file : List ℕ
  pub filename : Text
  pub label : Option Text
  pub external_metadata : Option Fields
  pub data_id : Uuid

-- The keyword arguments of `cognee.add`
pub record AddOptions : Type 0 where
  pub incremental_loading : Bool
  pub data_cache : Bool
  pub node_set : Option (List Text)
  pub importance_weight : Option Text
  pub dataset_id : Option Uuid
  pub user : User

-- The keyword arguments of `cognee.cognify`
pub record CognifyOptions : Type 0 where
  pub graph_model : Option PyClass
  pub chunker : Option PyClass
  pub chunk_size : Option ℕ
  pub custom_prompt : Option Text
  pub temporal_cognify : Bool
  pub user : User

-- The keyword arguments of `cognee.forget` for one document
pub record ForgetOptions : Type 0 where
  pub data_id : Uuid
  pub dataset_id : Uuid
  pub memory_only : Bool
  pub user : User

-- A row of `datasets.list_data`; metadata that is no dict is none, as is a status that is None.
pub record DataRow : Type 0 where
  pub id : Uuid
  pub label : Option Text
  pub external_metadata : Option Fields
  pub pipeline_status : Dict Text (Dict Text Text)

pub record Cognee (S : Type 0) : Type 0 where
  -- the effective storage roots, none if they cannot be read
  pub storage_roots : S → Option Roots
  pub configure_storage : Roots → Exec S (Unit {0})
  pub ensure_local_sdk_mode : Exec S (Unit {0})
  pub ensure_databases_ready : Exec S (Unit {0})
  pub resolve_default_user : Exec S User
  pub resolve_user : Uuid → Exec S User
  pub list_datasets : User → Exec S (List Dataset)
  pub validate_embedding_dimensions : Exec S ℕ
  pub add : List DataItem → Text → AddOptions → Exec S PipelineResult
  pub cognify : Uuid → CognifyOptions → Exec S PipelineResult
  pub forget : ForgetOptions → Exec S (Unit {0})
  pub forget_dataset : Uuid → User → Exec S (Unit {0})
  pub list_data : Uuid → User → Exec S (List DataRow)
  -- the entry and the exit of `dataset_database_context`
  pub enter_context : Uuid → Uuid → Exec S (Unit {0})
  pub exit_context : Uuid → Uuid → Exec S (Unit {0})
  -- the exceptions of `dataset_missing_errors`
  pub is_missing : PyError → Bool
  -- the lock provider's context manager
  pub acquire : Text → Exec S (Unit {0})
  pub release : Text → Exec S (Unit {0})

unfoldable pub raw_content : Content → List ℕ
unfolding utf8
raw_content (text_content t) = utf8 t
raw_content (bytes_content b) = b

-- `_content_upload` and the DataItem around it
unfoldable pub data_item : DocumentPayload → DataItem
unfolding raw_content
data_item p = record {
  file = raw_content p.content;
  filename = codes "cogindex-" ++ p.data_id ++ codes ".txt";
  label = p.label;
  external_metadata = p.external_metadata;
  data_id = p.data_id;
}

abbrev pub cognify_options : CognifyProfile → User → CognifyOptions
cognify_options profile user = record {
  graph_model = profile.graph_model;
  chunker = profile.chunker;
  chunk_size = profile.chunk_size;
  custom_prompt = profile.custom_prompt;
  temporal_cognify = profile.temporal_cognify;
  user = user;
}
