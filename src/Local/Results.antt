-- ===== src/Local/Results.antt =====
-- `_raise_on_errored_runs`: the check of what a Cognee pipeline returned.
pub mod Reported
pub mod Accepted
use cogindex.Base.{
  ℕ, suc, ◌+◌, List, [], ◌∷◌, Bool, true, false, ◌||◌, not, Option, none, some, Text, codes,
  list_eq, nat_eq, option_eq, ◌==◌, contains, Result, ok, err, pipeline_error, refuse, ◌>>=◌, ◌>>◌,
  if◌then◌else◌,
}
use cogindex.Identity.{Uuid}

-- A run info is None, or an object: its type's name, `dataset_id` as its text, `dataset_name`, and
-- `data_ingestion_info`, which is a list or not. An entry of the list is a dict with or without
-- "run_info", or another object.
mutual
  pub data Run : Type 0 where
    no_run : Run
    run_info : Text → Option Text → Option Text → Info → Run

  pub data Info : Type 0 where
    not_list : Info
    listed : Entries → Info

  pub data Entries : Type 0 where
    no_entries : Entries
    with_run : Run → Entries → Entries
    without_run : Entries → Entries
    loose : Run → Entries → Entries

-- What the call returned: a dict by dataset, its keys as texts, or one value.
pub data PipelineResult : Type 0 where
  by_dataset : List (Text × Run) → PipelineResult
  single : Run → PipelineResult

abbrev pub error_name : Text
error_name = codes "PipelineRunErrored"

abbrev pub success_names : List Text
success_names = codes "PipelineRunAlreadyCompleted" ∷ codes "PipelineRunCompleted" ∷ []

-- `type(run_info).__name__`
abbrev pub type_name : Run → Text
type_name no_run = codes "NoneType"
type_name (run_info name id dataset info) = name

abbrev pub run_dataset_id : Run → Option Text
run_dataset_id no_run = none
run_dataset_id (run_info name id dataset info) = id

abbrev pub run_dataset_name : Run → Option Text
run_dataset_name no_run = none
run_dataset_name (run_info name id dataset info) = dataset

abbrev pub run_entries : Run → Info
run_entries no_run = not_list
run_entries (run_info name id dataset info) = info

unfoldable pub is_error : Text → ℕ
is_error name = if name == error_name then 1 else 0

-- `collect`
unfoldable mutual
  unfolding is_error

  pub errored : Run → ℕ
  errored no_run = 0
  errored (run_info name id dataset info) = is_error name + errored_info info

  pub errored_info : Info → ℕ
  errored_info not_list = 0
  errored_info (listed es) = errored_entries es

  pub errored_entries : Entries → ℕ
  errored_entries no_entries = 0
  errored_entries (with_run r es) = errored r + errored_entries es
  errored_entries (without_run es) = errored_entries es
  errored_entries (loose r es) = errored r + errored_entries es

unfoldable pub errored_values : List (Text × Run) → ℕ
unfolding errored
errored_values [] = 0
errored_values (v ∷ vs) = errored v.1 + errored_values vs

unfoldable pub errored_count : PipelineResult → ℕ
unfolding errored errored_values
errored_count (by_dataset vs) = errored_values vs
errored_count (single r) = errored r

abbrev pub unrecognized : {A : Type 0} → Result A
unrecognized = err pipeline_error

-- The one terminal result, where there is one of the requested dataset.
unfoldable pub terminal_result : Option ℕ → Option Uuid → PipelineResult → Result Run
terminal_result none (some u) (by_dataset ((key, r) ∷ [])) = if key == u then ok r else unrecognized
terminal_result count id (by_dataset vs) = unrecognized
terminal_result none id (single r) = unrecognized
terminal_result (some n) id (single r) = ok r

unfoldable pub is_success : Run → Bool
is_success r = contains (type_name r) success_names

-- An entry's run succeeded on the dataset.
unfoldable pub fits_terminal : Text → Text → Run → Bool
unfolding is_success
fits_terminal id dataset r =
    if is_success r
    then (if run_dataset_id r == some id then run_dataset_name r == some dataset else false)
    else false

unfoldable pub entries_fit : Text → Text → Entries → Bool
unfolding fits_terminal
entries_fit id dataset no_entries = true
entries_fit id dataset (with_run r es) =
    let rest = entries_fit id dataset es in if fits_terminal id dataset r then rest else false
entries_fit id dataset (without_run es) = false
entries_fit id dataset (loose r es) = false

unfoldable pub entry_count : Entries → ℕ
entry_count no_entries = 0
entry_count (with_run r es) = suc (entry_count es)
entry_count (without_run es) = suc (entry_count es)
entry_count (loose r es) = suc (entry_count es)

-- The list of entries: it must be there, with an entry for each item, if items are expected.
unfoldable pub check_entries : Option ℕ → Text → Text → Info → Result (Unit {0})
unfolding entries_fit entry_count
check_entries (some n) id dataset not_list = unrecognized
check_entries (some n) id dataset (listed es) = do
  refuse (not (entry_count es == n)) pipeline_error
  refuse (not (entries_fit id dataset es)) pipeline_error
check_entries none id dataset not_list = ok tt
check_entries none id dataset (listed es) = refuse (not (entries_fit id dataset es)) pipeline_error

-- `expected_dataset_id is not None and str(terminal_dataset_id) != str(expected_dataset_id)`
unfoldable pub other_dataset : Option Uuid → Text → Bool
other_dataset none id = false
other_dataset (some u) id = not (id == u)

unfoldable pub check_coordinates :
    Option ℕ → Option Uuid → Text → Option Text → Run → Result (Unit {0})
unfolding check_entries other_dataset
check_coordinates count expected dataset none r = unrecognized
check_coordinates count expected dataset (some id) r = do
  refuse (other_dataset expected id) pipeline_error
  refuse (not (run_dataset_name r == some dataset)) pipeline_error
  check_entries count id dataset (run_entries r)

unfoldable pub check_terminal : Option ℕ → Option Uuid → Text → Run → Result (Unit {0})
unfolding is_success check_coordinates
check_terminal count expected dataset r = do
  refuse (not (is_success r)) pipeline_error
  check_coordinates count expected dataset (run_dataset_id r) r

-- The order of the checks of one entry differs from the code's, which makes no difference as all of
-- them raise the same exception.
unfoldable pub raise_on_errored_runs :
    Text → Option ℕ → Option Uuid → PipelineResult → Result (Unit {0})
unfolding errored_count terminal_result check_terminal
raise_on_errored_runs dataset count expected result = do
  refuse (not (errored_count result == 0)) pipeline_error
  r ← terminal_result count expected result
  check_terminal count expected dataset r
