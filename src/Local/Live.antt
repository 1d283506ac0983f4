-- ===== src/Local/Live.antt =====
-- The constructor of LocalCogneeRuntime, and the live runtimes of the process. `_compat.load` is
-- taken to succeed. A runtime that is no longer referenced leaves the weak set at any time.
pub mod Shared
use cogindex.Base.{
  ℕ, zero, suc, List, [], ◌∷◌, Bool, true, false, Option, none, some, Text, list_eq, nat_eq,
  pair_eq, ◌==◌, not, any, is_empty, Result, ok, err, runtime_error, if◌then◌else◌,
}
use cogindex.Base.Exec.{Exec}
use cogindex.Local.Checks.{Roots, normalize_storage_roots}
use cogindex.Local.Sdk.{Cognee}

-- A lock provider: the caller's, or a default one by the generation of the storage configuration.
pub data Provider : Type 0 where
  own : Provider
  default_of : ℕ → Provider

pub record LiveRuntime : Type 0 where
  pub roots : Roots
  pub provider : Provider

-- `_LIVE_LOCAL_RUNTIMES`, `_DEFAULT_LOCAL_LOCK_PROVIDER` and Cognee's own state
pub record Process (S : Type 0) : Type 0 where
  pub live : List LiveRuntime
  pub generation : ℕ
  pub sdk : S

abbrev pub conflicts : Roots → LiveRuntime → Bool
conflicts roots r = not (r.roots == roots)

abbrev pub provider_of : Bool → ℕ → Provider
provider_of true generation = own
provider_of false generation = default_of generation

-- Remove a runtime of the weak set.
unfoldable pub collected : ℕ → List LiveRuntime → List LiveRuntime
collected n [] = []
collected zero (r ∷ rs) = rs
collected (suc n) (r ∷ rs) = r ∷ collected n rs

module _ {S : Type 0} (sdk : Cognee S) (absolute : Text → Text) where
  -- A configuration that raises makes no default provider.
  abbrev pub configured : Result (Unit {0}) → S → Process S → Process S
  configured (err e) t p = record p { sdk = t }
  configured (ok _) t p = record p { generation = suc p.generation; sdk = t }

  -- The storage is configured, and the default provider made, only for the first live runtime.
  unfoldable pub prepared : List LiveRuntime → Roots → Exec (Process S) (Unit {0})
  prepared [] roots p =
      let done = sdk.configure_storage roots p.sdk in (done.0, configured done.0 done.1 p)
  prepared (r ∷ rs) roots p = (ok tt, p)

  abbrev pub joined : Bool → Roots → Result (Unit {0}) → Process S → Result LiveRuntime × Process S
  joined has_provider roots (err e) q = (err e, q)
  joined has_provider roots (ok _) q =
      let made : LiveRuntime = record {
        roots = roots;
        provider = provider_of has_provider q.generation;
      } in
      (ok made, record q { live = made ∷ q.live })

  unfoldable pub admitted : Bool → Roots → Process S → Result LiveRuntime × Process S
  unfolding prepared
  admitted has_provider roots p =
      let q = prepared p.live roots p in
      if any (conflicts roots) p.live
      then (err runtime_error, p)
      else joined has_provider roots q.0 q.1

  -- `LocalCogneeRuntime.__init__`
  unfoldable pub construct : Option Text → Option Text → Bool → Exec (Process S) LiveRuntime
  unfolding normalize_storage_roots admitted
  construct data_root system_root has_provider p =
      elim (normalize_storage_roots absolute data_root system_root) [
        | err e ↦ (err e, p)
        | ok roots ↦ admitted has_provider roots p
      ]

  -- What happens in the process: a construction, the end of a runtime, or anything that changes
  -- Cognee's state.
  pub data Happening : Type 0 where
    constructed : Option Text → Option Text → Bool → Happening
    ended : ℕ → Happening
    changed : (S → S) → Happening

  unfoldable pub happen : Happening → Process S → Process S
  unfolding construct collected
  happen (constructed data_root system_root has_provider) p =
      (construct data_root system_root has_provider p).1
  happen (ended n) p = record p { live = collected n p.live }
  happen (changed f) p = record p { sdk = f p.sdk }

  unfoldable pub happen_all : List Happening → Process S → Process S
  unfolding happen
  happen_all [] p = p
  happen_all (e ∷ es) p = happen_all es (happen e p)
