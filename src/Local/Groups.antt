-- ===== src/Local/Groups.antt =====
-- add_documents calls Cognee once for each node set and importance weight among the payloads.
pub mod Partition
use cogindex.Base.{
  List, [], ◌∷◌, ◌++◌, Bool, Option, none, some, Text, list_eq, nat_eq, option_eq, pair_eq, map,
  codes, ◌==◌, if◌then◌else◌,
}
use mathlib.Core.Option
use cogindex.Base.Dict
use cogindex.Base.Dict.{Dict}
use cogindex.Base.Sets
use cogindex.Runtime.{DocumentPayload}

-- `(payload.node_set, payload.importance_weight)`
abbrev pub GroupKey : Type 0
GroupKey = Option (List Text) × Option Text

abbrev pub key_of : DocumentPayload → GroupKey
key_of p = (p.node_set, p.importance_weight)

-- A weight is the text of a finite float. Texts that differ are floats that differ, but for the zeros,
-- which are equal and so one key of a dict.
abbrev pub weight_value : Text → Text
weight_value t = if t == codes "-0.0" then codes "0.0" else t

abbrev pub value_of : GroupKey → GroupKey
value_of (nodes, weight) = (nodes, Option.map weight_value weight)

-- A group: the key that was put first, and the payloads.
abbrev pub Group : Type 0
Group = GroupKey × List DocumentPayload

-- The dict `groups`, with the value of each key beside its entry
abbrev pub Groups : Type 0
Groups = Dict GroupKey Group

abbrev pub grown : DocumentPayload → Option Group → Group
grown p none = (key_of p, p ∷ [])
grown p (some (key, ps)) = (key, ps ++ p ∷ [])

-- `groups.setdefault(key, []).append(payload)`
unfoldable pub append_to : DocumentPayload → Groups → Groups
unfolding Dict.get Dict.put
append_to p groups =
    let value = value_of (key_of p) in Dict.put value (grown p (Dict.get value groups)) groups

unfoldable pub group_all : List DocumentPayload → Groups → Groups
unfolding append_to
group_all [] groups = groups
group_all (p ∷ ps) groups = group_all ps (append_to p groups)

-- The groups in the order of their keys' `repr`
unfoldable pub sorted_groups : (GroupKey → GroupKey → Bool) → List DocumentPayload → Groups
unfolding group_all Sets.sorted
sorted_groups repr_leb payloads = Sets.sorted (λ a b. repr_leb a.1.0 b.1.0) (group_all payloads [])

unfoldable pub groups_of : (GroupKey → GroupKey → Bool) → List DocumentPayload → List Group
unfolding sorted_groups
groups_of repr_leb payloads = map (λ entry. entry.1) (sorted_groups repr_leb payloads)
