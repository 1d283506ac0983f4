-- ===== src/Spec/Dataset.antt =====
-- The desired state of a dataset.
use cogindex.Base.{list_eq, nat_eq}
use cogindex.Spec.Profile.{CognifyProfile}
use cogindex.Spec.Processing.{ProcessingConfig}

-- The engine's `ManagedBy`, an enumeration with the values "system" and "user".
pub data ManagedBy : Type 0 where
  system user : ManagedBy

pub record CogneeDatasetSpec : Type 0 where
  pub profile : CognifyProfile
  pub processing : ProcessingConfig
  pub managed_by : ManagedBy
