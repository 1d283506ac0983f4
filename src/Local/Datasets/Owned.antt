-- ===== src/Local/Datasets/Owned.antt =====
-- What it means that a handle has been resolved.
use cogindex.Base.{
  List, [], ◌∷◌, Bool, true, false, Option, none, some, Text, list_eq, nat_eq, option_eq, ◌==◌,
  ==_sound, ==_refl, ◌≡◌, refl, sym, ap, arith, ◌∙◌, ok, ◌>>=◌, >>=-eq-ok, ok-injective, Bool-cases,
  inl, inr, ◌⊎◌,
}
use mathlib.Core.Path.{subst}
use cogindex.Identity.{Uuid}
use cogindex.Local.Scope.{Coordinates}
use cogindex.Local.Datasets.{
  Dataset, dataset_tenant_id, is_owned, kept_if, owned_matches, chosen_id, handle_for,
}
use cogindex.Runtime.{DatasetHandle, check_handle}

-- The dataset is in the list.
abbrev pub Among : Dataset → List Dataset → Type 0
Among d [] = ⊥
Among d (x ∷ xs) = (d ≡ x) ⊎ Among d xs

-- The dataset has the name, the owner and the active tenant.
pub record IsOwned (name : Text) (c : Coordinates) (d : Dataset) : Type 0 where
  pub named : d.name ≡ name
  pub owned : d.owner_id ≡ some c.0
  pub tenant : dataset_tenant_id d ≡ ok c.1

is_owned-IsOwned :
    (name : Text) (c : Coordinates) (d : Dataset) → is_owned name c d ≡ ok true → IsOwned name c d
unfolding is_owned
is_owned-IsOwned name c d h = elim (Bool-cases (d.name == name)) [
  | inr q ↦ absurd (cc (rw q at h))
  | inl q ↦ elim (Bool-cases (d.owner_id == some c.0)) [
    | inr r ↦ absurd (cc (rw (q, r) at h))
    | inl r ↦
        let (t, e, f) = >>=-eq-ok (dataset_tenant_id d) _ (rw (q, r) at h) in
        record {
          named = ==_sound d.name name q;
          owned = ==_sound d.owner_id (some c.0) r;
          tenant = e ∙ ap ok (==_sound t c.1 (ok-injective _ _ f));
        }
  ]
]

IsOwned-is_owned :
    (name : Text) (c : Coordinates) (d : Dataset) → IsOwned name c d → is_owned name c d ≡ ok true
unfolding is_owned
IsOwned-is_owned name c d o =
    rw (o.named, ==_refl name, o.owned, ==_refl (some c.0), o.tenant, ==_refl c.1) refl

module _ (name : Text) (c : Coordinates) where
  -- The matches are the owned datasets of the list.
  Among-owned_matches :
      (ds owned : List Dataset)
      → owned_matches name c ds ≡ ok owned
      → (d : Dataset)
      → (Among d owned → Among d ds × IsOwned name c d)
        × (Among d ds → IsOwned name c d → Among d owned)
  unfolding owned_matches
  Among-owned_matches [] owned h d = rw (← ok-injective _ _ h) ((λ m. absurd m), λ m o. m)
  Among-owned_matches (x ∷ ds) owned h d =
      let (b, e, h1) = >>=-eq-ok (is_owned name c x) _ h in
      let (others, f, h2) = >>=-eq-ok (owned_matches name c ds) _ h1 in
      let (there, back) = Among-owned_matches ds others f d in
      rw (← ok-injective _ _ h2) (one b e others there back)
    where
      one :
          (b : Bool)
          → is_owned name c x ≡ ok b
          → (others : List Dataset) → (Among d others → Among d ds × IsOwned name c d)
          → (Among d ds → IsOwned name c d → Among d others)
          → (Among d (kept_if b x others) → Among d (x ∷ ds) × IsOwned name c d)
            × (Among d (x ∷ ds) → IsOwned name c d → Among d (kept_if b x others))
      one true e others there back = (
        λ m. elim m [
          | inl q ↦ (inl q, subst (IsOwned name c) (sym q) (is_owned-IsOwned name c x e))
          | inr m ↦ let (n, o) = there m in (inr n, o)
        ],
        λ m o. elim m [ inl q ↦ inl q | inr m ↦ inr (back m o) ],
      )
      one false e others there back = (
        λ m. let (n, o) = there m in (inr n, o),
        λ m o. elim m [
          | inl q ↦ absurd (cc (e, IsOwned-is_owned name c x (subst (IsOwned name c) q o)))
          | inr m ↦ back m o
        ],
      )

  -- The identity is that of the only owned dataset, or there is none.
  abbrev pub IsResolved : List Dataset → Option Uuid → Type 0
  IsResolved ds none = (d : Dataset) → Among d ds → IsOwned name c d → ⊥
  IsResolved ds (some id) =
      (d : Dataset) × Among d ds
      × IsOwned name c d
      × (d.id ≡ id)
      × ((e : Dataset) → Among e ds → IsOwned name c e → e ≡ d)

  chosen_id-IsResolved :
      (ds owned : List Dataset)
      → owned_matches name c ds ≡ ok owned
      → (id : Option Uuid) → chosen_id owned ≡ ok id
      → IsResolved ds id
  unfolding chosen_id
  chosen_id-IsResolved ds [] m id f =
      subst (IsResolved ds) (ok-injective _ _ f) (λ d. (Among-owned_matches ds [] m d).1)
  chosen_id-IsResolved ds (x ∷ []) m id f =
      let (there, back) = Among-owned_matches ds (x ∷ []) m x in
      let (among, own) = there (inl refl) in
      subst (IsResolved ds) (ok-injective _ _ f) (x, among, own, refl, λ e a o. only e a o)
    where
      only : (e : Dataset) → Among e ds → IsOwned name c e → e ≡ x
      only e a o = elim ((Among-owned_matches ds (x ∷ []) m e).1 a o) [
        | inl q ↦ q
        | inr q ↦ absurd q
      ]
  chosen_id-IsResolved ds (x ∷ y ∷ zs) m id f = absurd (cc f)

  -- A handle that is made of the matches keeps its coordinates, and its dataset is the only one of
  -- the list with the name that the user owns in the active tenant; it has no dataset if there is
  -- no such one.
  pub handle_for-IsResolved :
      (tenant scope : Text) (ds : List Dataset) (h : DatasetHandle)
      → (owned_matches name c ds >>= handle_for name tenant scope) ≡ ok h
      → (h.name ≡ name)
        × (h.tenant ≡ tenant)
        × (h.identity_scope ≡ scope)
        × IsResolved ds h.dataset_id
  unfolding handle_for check_handle
  handle_for-IsResolved tenant scope ds h e =
      let (owned, m, e1) = >>=-eq-ok (owned_matches name c ds) _ e in
      let (id, f, e2) = >>=-eq-ok (chosen_id owned) _ e1 in
      let made : ok
            (record { name = name; tenant = tenant; identity_scope = scope; dataset_id = id })
          ≡ ok h =
        ground arith in
      rw (← ok-injective _ _ made) (refl, refl, refl, chosen_id-IsResolved ds owned m id f)
