-- ===== src/Tests/Datasets.antt =====
-- Concrete runs and instances of the theorems on datasets, reports and locks.
use cogindex.Base.{List, [], ◌∷◌, codes, list_eq, nat_eq, option_eq}
use cogindex.Locks.Counted.{Event, enters, gives_up, leaves, Counted, run, run-Counted}

abbrev events : List Event
events =
    enters (codes "s") 1
    ∷ enters (codes "s") 2
    ∷ enters (codes "s") 3
    ∷ gives_up (codes "s") 2
    ∷ leaves (codes "s")
    ∷ []

run-Counted_example : Counted (run events [])
run-Counted_example = run-Counted events
