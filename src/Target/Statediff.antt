-- ===== src/Target/Statediff.antt =====
-- What _target.py takes from `cocoindex.connectorkits.statediff`.
use cogindex.Base.{List, ◌∷◌, Bool, true, false, ◌≡◌, ◌≢◌, Option, none, some, all, ◌==◌}
use cogindex.Records.{DocumentRecord, record_eq}

pub data DiffAction : Type 0 where
  insert upsert replace delete : DiffAction

-- `statediff.diff` on a live desired record, the possible previous records, and whether the
-- previous state may be missing.
abbrev pub Diff : Type 0
Diff = DocumentRecord → List DocumentRecord → Bool → Option DiffAction

abbrev pub all_equal : DocumentRecord → List DocumentRecord → Bool
all_equal desired = all (λ r. r == desired)

-- The documented behaviour: nothing to do means that the previous state is certain and is the
-- desired one; a certain record that is the desired one leaves nothing to do; and a certain
-- record never leads to a creation.
pub record IsDiff (diff : Diff) : Type 0 where
  pub settled :
      (d : DocumentRecord) (prev : List DocumentRecord) (missing : Bool)
      → diff d prev missing ≡ none
      → (missing ≡ false) × (all_equal d prev ≡ true)
  pub quiet :
      (d r : DocumentRecord) (prev : List DocumentRecord)
      → all_equal d (r ∷ prev) ≡ true
      → diff d (r ∷ prev) false ≡ none
  pub no_insert :
      (d r : DocumentRecord) (prev : List DocumentRecord)
      → diff d (r ∷ prev) false ≢ some DiffAction.insert
  pub no_upsert :
      (d r : DocumentRecord) (prev : List DocumentRecord)
      → diff d (r ∷ prev) false ≢ some DiffAction.upsert
