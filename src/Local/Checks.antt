-- ===== src/Local/Checks.antt =====
-- The checks of names, tenants and storage roots.
use cogindex.Base.{
  Option, none, some, Text, codes, list_eq, nat_eq, ◌==◌, not, is_empty, contains, Result, ok, err,
  value_error, refuse, ◌>>◌,
}
use cogindex.Spec.Profile.{is_blank}

abbrev pub supported_tenant : Text
supported_tenant = codes "default"

-- `_validate_tenant`
unfoldable pub validate_tenant : Text → Result (Unit {0})
validate_tenant tenant = refuse (not (tenant == supported_tenant)) value_error

-- `_validate_dataset_name`
unfoldable pub validate_dataset_name : Text → Result (Unit {0})
validate_dataset_name name = do
  refuse (is_empty name) value_error
  refuse (contains 0 name) value_error

-- The data root and the system root.
abbrev pub Roots : Type 0
Roots = Text × Text

unfoldable pub check_root : Text → Result (Unit {0})
unfolding is_blank
check_root root = do refuse (is_blank root) value_error; refuse (contains 0 root) value_error

-- `_normalize_storage_roots`, where `absolute` is `Path(_).expanduser().resolve()`: both roots are
-- checked before either is resolved.
unfoldable pub normalize_storage_roots : (Text → Text) → Option Text → Option Text → Result Roots
unfolding check_root
normalize_storage_roots absolute none system_root = err value_error
normalize_storage_roots absolute (some data_root) none = err value_error
normalize_storage_roots absolute (some data_root) (some system_root) = do
  check_root data_root
  check_root system_root
  ok (absolute data_root, absolute system_root)
