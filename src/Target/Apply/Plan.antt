-- ===== src/Target/Apply/Plan.antt =====
-- What `DocumentHandler._apply` decides for one identity before it calls the runtime.
use cogindex.Base.{List, Option, none, ◌≡◌, refl, ok, inl, if◌then◌else◌, nat_eq, list_eq}
use cogindex.Identity.{Uuid}
use cogindex.Target.Reconcile.{DocumentAction}
use cogindex.Target.Apply.{Batch, empty_batch, collect, settle}
use cogindex.Target.Apply.Marks.{Fit, occurs, Settled, At-empty, collect-At, settle-Settled}

-- If every action of the list has no stale identities, and every action of the identity `u` is
-- `o`, then the batch deletes `u` exactly if one of its actions is a delete or a recreate, purges
-- it exactly if one is a replace, adds the payload of its write, and cognifies if one is a create,
-- a replace or a recreate.
pub plan-Settled :
    (u : Uuid) (o : Option DocumentAction) (actions : List DocumentAction) (b : Batch)
    → Fit u o actions
    → collect actions empty_batch ≡ ok b
    → Settled u (settle b) (if occurs u actions then o else none)
plan-Settled u o actions b fit e =
    settle-Settled u b (if occurs u actions then o else none)
      (collect-At u o actions empty_batch b none fit (inl refl) (At-empty u) e)
