-- ===== src/Local/Scope.antt =====
-- The acting user's coordinates, and the scopes that are derived from them.
use cogindex.Base.{
  [], ◌∷◌, Option, none, some, Text, codes, length, list_eq, nat_eq, ◌≡◌, refl, sym, ◌∙◌, arith,
  Result, ok, err, runtime_error, ◌>>=◌,
}
use cogindex.Identity.{Uuid}
use cogindex.Identity.Join.{canonical_join, canonical_join-injective}
use cogindex.Runtime.{DatasetHandle}

-- What `getattr` finds: no attribute, None, a UUID, or another value.
pub data Attribute : Type 0 where
  no_attribute no_value other_value : Attribute
  uuid_value : Uuid → Attribute

-- A Cognee User as far as it is looked at.
pub record User : Type 0 where
  pub id : Attribute
  pub tenant_id : Attribute

abbrev pub Coordinates : Type 0
Coordinates = Uuid × Option Uuid

unfoldable pub uuid_or_none : Attribute → Result (Option Uuid)
uuid_or_none no_attribute = err runtime_error
uuid_or_none no_value = ok none
uuid_or_none other_value = err runtime_error
uuid_or_none (uuid_value u) = ok (some u)

unfoldable pub uuid_only : Attribute → Result Uuid
uuid_only no_attribute = err runtime_error
uuid_only no_value = err runtime_error
uuid_only other_value = err runtime_error
uuid_only (uuid_value u) = ok u

-- `_user_coordinates`
unfoldable pub user_coordinates : User → Result Coordinates
unfolding uuid_only uuid_or_none
user_coordinates user = do
  user_id ← uuid_only user.id
  tenant_id ← uuid_or_none user.tenant_id
  ok (user_id, tenant_id)

abbrev pub physical_scope_version : Text
physical_scope_version = codes "cognee-user-tenant-v1"

abbrev pub no_active_tenant : Text
no_active_tenant = codes "none"

unfoldable pub tenant_text : Option Uuid → Text
tenant_text none = no_active_tenant
tenant_text (some t) = t

unfoldable pub scope_of : Coordinates → Text
unfolding canonical_join tenant_text
scope_of c = canonical_join (physical_scope_version ∷ c.0 ∷ tenant_text c.1 ∷ [])

-- `_physical_identity_scope`
unfoldable pub physical_identity_scope : User → Result Text
unfolding user_coordinates scope_of
physical_identity_scope user = user_coordinates user >>= λ c. ok (scope_of c)

-- The scope that `dataset_lock` hands to the lock provider
unfoldable pub lock_scope : DatasetHandle → Text
unfolding canonical_join
lock_scope h = canonical_join (codes "cogindex" ∷ h.identity_scope ∷ h.tenant ∷ h.name ∷ [])

-- The text of a UUID has 36 characters.
abbrev pub IsUuidText : Option Uuid → Type 0
IsUuidText none = Unit
IsUuidText (some t) = length t ≡ 36

tenant_text-injective :
    (s t : Option Uuid) → IsUuidText s → IsUuidText t → tenant_text s ≡ tenant_text t → s ≡ t
unfolding tenant_text
tenant_text-injective none none hs ht e = refl
tenant_text-injective none (some t) hs ht e = absurd (cc (rw (← e) at ht))
tenant_text-injective (some s) none hs ht e = absurd (cc (rw e at hs))
tenant_text-injective (some s) (some t) hs ht e = cc e

pub scope_of-injective :
    (c d : Coordinates) → IsUuidText c.1 → IsUuidText d.1 → scope_of c ≡ scope_of d → c ≡ d
unfolding scope_of
scope_of-injective (u, s) (v, t) hs ht e =
    let joined : physical_scope_version ∷ u ∷ tenant_text s ∷ []
        ≡ physical_scope_version ∷ v ∷ tenant_text t ∷ [] =
      canonical_join-injective _ _ e in
    let tails : tenant_text s ≡ tenant_text t = ground arith in
    let heads : u ≡ v = ground arith in cc (heads, tenant_text-injective s t hs ht tails)

-- If the texts of tenant ids have 36 characters, then two users' handles that are locked under one
-- scope belong to the same user in the same active tenant, and name the same tenant and dataset.
pub lock_scope-injective :
    (c d : Coordinates) (h k : DatasetHandle)
    → IsUuidText c.1
    → IsUuidText d.1
    → h.identity_scope ≡ scope_of c
    → k.identity_scope ≡ scope_of d
    → lock_scope h ≡ lock_scope k
    → (c ≡ d) × (h.tenant ≡ k.tenant) × (h.name ≡ k.name)
unfolding lock_scope
lock_scope-injective c d h k hc hd eh ek e =
    let joined : codes "cogindex" ∷ h.identity_scope ∷ h.tenant ∷ h.name ∷ []
        ≡ codes "cogindex" ∷ k.identity_scope ∷ k.tenant ∷ k.name ∷ [] =
      canonical_join-injective _ _ e in
    let scopes : h.identity_scope ≡ k.identity_scope = ground arith in
    (scope_of-injective c d hc hd (sym eh ∙ scopes ∙ ek), ground arith, ground arith)
