-- ===== src/Engine/Entry.antt =====
-- TrackEntry: the possible states of one target key, and how a sync changes them.
pub mod States
pub mod Holds
use cogindex.Base.{
  List, [], ◌∷◌, ◌++◌, Bool, true, false, ◌||◌, Option, none, some, option_eq, ◌==◌, any, is_some,
  not, if◌then◌else◌,
}
use cogindex.Records.{DocumentRecord, record_eq}

pub record TrackEntry : Type 0 where
  pub possible_states : List (Option DocumentRecord)
  pub may_be_missing : Bool

-- `[state for state in states if isinstance(state, DocumentRecord)]`
unfoldable pub records : List (Option DocumentRecord) → List DocumentRecord
records [] = []
records (none ∷ rest) = records rest
records (some r ∷ rest) = r ∷ records rest

unfoldable pub previous : Option TrackEntry → List DocumentRecord
unfolding records
previous none = []
previous (some e) = records e.possible_states

unfoldable pub any_absent : List (Option DocumentRecord) → Bool
any_absent = any (λ state. not (is_some state))

-- A fresh key has no tracked state at all.
unfoldable pub missing : Option TrackEntry → Bool
unfolding any_absent
missing none = true
missing (some e) = e.may_be_missing || any_absent e.possible_states

-- `_same_tracking_state`
unfoldable pub same_tracking_state : Option DocumentRecord → Option DocumentRecord → Bool
unfolding record_eq
same_tracking_state none none = true
same_tracking_state none (some r) = false
same_tracking_state (some l) none = false
same_tracking_state (some l) (some r) = l == r

abbrev pub or_new : Option TrackEntry → TrackEntry
or_new none = record { possible_states = []; may_be_missing = true }
or_new (some e) = e

unfoldable pub append_new :
    Option DocumentRecord → List (Option DocumentRecord) → List (Option DocumentRecord)
unfolding same_tracking_state
append_new intended states =
    if any (λ state. same_tracking_state state intended) states
    then states
    else states ++ intended ∷ []

-- What precommit does to the entry of a key with an output.
unfoldable pub extend : Option DocumentRecord → Option TrackEntry → TrackEntry
unfolding append_new
extend intended entry =
    let e = or_new entry in record e { possible_states = append_new intended e.possible_states }

unfoldable pub committed : DocumentRecord → TrackEntry
committed r = record { possible_states = some r ∷ []; may_be_missing = false }
