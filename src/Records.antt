-- ===== src/Records.antt =====
-- src/cogindex/_records.py: the tracking records.
use cogindex.Base.{ℕ, Text, Eq, nat_eq, list_eq}
use cogindex.Identity.{Uuid}

abbrev pub record_schema_version : ℕ
record_schema_version = 2

pub record DatasetConfigRecord : Type 0 where
  pub processing_fingerprint : Text
  pub schema_version : ℕ

pub record DocumentRecord : Type 0 where
  pub data_id : Uuid
  pub content_fingerprint : Text
  pub annotations_fingerprint : Text
  pub metadata_fingerprint : Text
  pub processing_fingerprint : Text
  pub importance_weight_fingerprint : Text
  pub schema_version : ℕ

instance unfoldable pub record_eq : Eq DocumentRecord
record_eq = record { dec = hlevel nat_eq.dec }
