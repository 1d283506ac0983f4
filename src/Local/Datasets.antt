-- ===== src/Local/Datasets.antt =====
-- The datasets that Cognee lists, and the one that a handle means.
pub mod Owned
use cogindex.Base.{
  List, [], ◌∷◌, Bool, true, false, Option, none, some, Text, list_eq, nat_eq, option_eq, ◌==◌,
  Result, ok, err, runtime_error, ◌>>=◌, if◌then◌else◌,
}
use cogindex.Identity.{Uuid}
use cogindex.Local.Scope.{Attribute, Coordinates, uuid_or_none}
use cogindex.Runtime.{DatasetHandle, check_handle}

-- A Dataset as far as it is looked at.
pub record Dataset : Type 0 where
  pub id : Uuid
  pub name : Text
  pub owner_id : Option Uuid
  pub tenant_id : Attribute

-- `_dataset_tenant_id`
unfoldable pub dataset_tenant_id : Dataset → Result (Option Uuid)
unfolding uuid_or_none
dataset_tenant_id d = uuid_or_none d.tenant_id

-- The tenant is only looked at for a dataset with the name and the owner.
unfoldable pub is_owned : Text → Coordinates → Dataset → Result Bool
unfolding dataset_tenant_id
is_owned name c d =
    if d.name == name
    then (if d.owner_id == some c.0
        then (dataset_tenant_id d >>= λ tenant. ok (tenant == c.1))
        else ok false)
    else ok false

abbrev pub kept_if : Bool → Dataset → List Dataset → List Dataset
kept_if true d ds = d ∷ ds
kept_if false d ds = ds

unfoldable pub owned_matches : Text → Coordinates → List Dataset → Result (List Dataset)
unfolding is_owned
owned_matches name c [] = ok []
owned_matches name c (d ∷ ds) =
    let rest = owned_matches name c ds in
    is_owned name c d >>= λ owned. rest >>= λ others. ok (kept_if owned d others)

unfoldable pub chosen_id : List Dataset → Result (Option Uuid)
chosen_id [] = ok none
chosen_id (d ∷ []) = ok (some d.id)
chosen_id (d ∷ e ∷ ds) = err runtime_error

unfoldable pub handle_for : Text → Text → Text → List Dataset → Result DatasetHandle
unfolding chosen_id check_handle
handle_for name tenant scope owned = chosen_id owned >>= λ id.
    check_handle (record { name = name; tenant = tenant; identity_scope = scope; dataset_id = id })
