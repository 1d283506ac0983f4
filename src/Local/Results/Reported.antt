-- ===== src/Local/Results/Reported.antt =====
-- A run of the errored type anywhere in a result is found.
use cogindex.Base.{
  ℕ, ◌≤◌, List, ◌∷◌, false, Option, Text, list_eq, nat_eq, option_eq, ◌==◌, ◌≡◌, refl, arith, err,
  pipeline_error,
}
use cogindex.Identity.{Uuid}
use cogindex.Local.Results.{
  Run, no_run, run_info, listed, Entries, with_run, without_run, loose, PipelineResult, by_dataset,
  single, error_name, type_name, is_error, errored, errored_entries, errored_values, errored_count,
  raise_on_errored_runs,
}

-- A run info is, or is nested in, another.
mutual
  pub data IsIn (e : Run) : Run → Type 0 where
    here : IsIn e e
    inside :
        (name : Text) (id dataset : Option Text) (es : Entries)
        → IsAmong e es
        → IsIn e (run_info name id dataset (listed es))

  pub data IsAmong (e : Run) : Entries → Type 0 where
    in_run : (r : Run) (es : Entries) → IsIn e r → IsAmong e (with_run r es)
    in_loose : (r : Run) (es : Entries) → IsIn e r → IsAmong e (loose r es)
    after_run : (r : Run) (es : Entries) → IsAmong e es → IsAmong e (with_run r es)
    after_loose : (r : Run) (es : Entries) → IsAmong e es → IsAmong e (loose r es)
    after_bare : (es : Entries) → IsAmong e es → IsAmong e (without_run es)

pub data IsValue (e : Run) : List (Text × Run) → Type 0 where
  in_value : (k : Text) (r : Run) (vs : List (Text × Run)) → IsIn e r → IsValue e ((k, r) ∷ vs)
  after_value : (v : Text × Run) (vs : List (Text × Run)) → IsValue e vs → IsValue e (v ∷ vs)

abbrev pub IsReported : Run → PipelineResult → Type 0
IsReported e (by_dataset vs) = IsValue e vs
IsReported e (single r) = IsIn e r

module _ (e : Run) (bad : type_name e ≡ error_name) where
  counted_here : (r : Run) → type_name r ≡ error_name → 1 ≤ errored r
  unfolding errored is_error nat_eq list_eq
  counted_here no_run h = absurd (cc h)
  counted_here (run_info name id dataset info) h = rw h (omega arith)

  mutual
    unfolding errored

    counted : (r : Run) → IsIn e r → 1 ≤ errored r
    counted r here = counted_here e bad
    counted r (inside name id dataset es i) = let n = counted_among es i in omega arith

    counted_among : (es : Entries) → IsAmong e es → 1 ≤ errored_entries es
    counted_among es (in_run r rest i) = let n = counted r i in omega arith
    counted_among es (in_loose r rest i) = let n = counted r i in omega arith
    counted_among es (after_run r rest i) = let n = counted_among rest i in omega arith
    counted_among es (after_loose r rest i) = let n = counted_among rest i in omega arith
    counted_among es (after_bare rest i) = counted_among rest i

  counted_value : (vs : List (Text × Run)) → IsValue e vs → 1 ≤ errored_values vs
  unfolding errored_values
  counted_value vs (in_value k r rest i) = let n = counted r i in omega arith
  counted_value vs (after_value v rest i) = let n = counted_value rest i in omega arith

  counted_result : (result : PipelineResult) → IsReported e result → 1 ≤ errored_count result
  unfolding errored_count
  counted_result (by_dataset vs) i = counted_value vs i
  counted_result (single r) i = counted r i

  -- If a run that is reported anywhere in a result, nested or not, is of the errored type, then the
  -- check raises, whatever was requested.
  pub raise_on_errored_runs-IsReported :
      (dataset : Text) (count : Option ℕ) (expected : Option Uuid) (result : PipelineResult)
      → IsReported e result
      → raise_on_errored_runs dataset count expected result ≡ err pipeline_error
  unfolding raise_on_errored_runs
  raise_on_errored_runs-IsReported dataset count expected result i =
      let n = counted_result result i in
      let some_errored : (errored_count result == 0) ≡ false = ground arith in rw some_errored refl
