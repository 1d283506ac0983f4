-- ===== src/Local/Results/Accepted.antt =====
-- What it takes for a pipeline result to be accepted.
use cogindex.Base.{
  ℕ, suc, [], ◌∷◌, Bool, true, false, not, Option, none, some, Text, list_eq, nat_eq, option_eq,
  ◌==◌, ==_sound, ◌≡◌, refl, ◌∙◌, ap, arith, contains, Result, ok, pipeline_error, refuse, ◌>>◌,
  Bool-cases, inl, inr, >>=-eq-ok, ok-injective,
}
use mathlib.Core.Path.{subst}
use mathlib.Core.Option.{some-injective}
use cogindex.Identity.{Uuid}
use cogindex.Local.Results.{
  Run, Info, not_list, listed, Entries, no_entries, with_run, without_run, loose, PipelineResult,
  by_dataset, single, success_names, type_name, run_dataset_id, run_dataset_name, run_entries,
  terminal_result, is_success, fits_terminal, entries_fit, entry_count, check_entries,
  other_dataset, check_coordinates, check_terminal, raise_on_errored_runs,
}

-- The terminal result of what was requested: of one dataset, or of a number of items.
pub data IsTerminal : Option ℕ → Option Uuid → PipelineResult → Run → Type 0 where
  of_dataset : (u : Uuid) (r : Run) → IsTerminal none (some u) (by_dataset ((u, r) ∷ [])) r
  of_items : (n : ℕ) (id : Option Uuid) (r : Run) → IsTerminal (some n) id (single r) r

terminal_result-IsTerminal :
    (count : Option ℕ) (expected : Option Uuid) (result : PipelineResult) (r : Run)
    → terminal_result count expected result ≡ ok r
    → IsTerminal count expected result r
unfolding terminal_result
terminal_result-IsTerminal none (some u) (by_dataset ((key, v) ∷ [])) r h =
    elim (Bool-cases (key == u)) [
      | inl q ↦
          let same : v ≡ r = ok-injective v r (rw q at h) in
          rw (==_sound key u q, same) (of_dataset u r)
      | inr q ↦ absurd (cc (rw q at h))
    ]
terminal_result-IsTerminal none (some u) (by_dataset []) r h = absurd (cc h)
terminal_result-IsTerminal none (some u) (by_dataset (v ∷ w ∷ vs)) r h = absurd (cc h)
terminal_result-IsTerminal none none (by_dataset vs) r h = absurd (cc h)
terminal_result-IsTerminal (some n) expected (by_dataset vs) r h = absurd (cc h)
terminal_result-IsTerminal none expected (single v) r h = absurd (cc h)
terminal_result-IsTerminal (some n) expected (single v) r h =
    rw (ok-injective v r h) (of_items n expected r)

-- An entry of a list of run infos
pub data IsEntry (r : Run) : Entries → Type 0 where
  first : (es : Entries) → IsEntry r (with_run r es)
  later : (q : Run) (es : Entries) → IsEntry r es → IsEntry r (with_run q es)

entries_of : {xs es : Entries} → listed xs ≡ listed es → xs ≡ es
entries_of e = cc e

-- A run succeeded on the dataset with an id and a name.
pub record Succeeded (id dataset : Text) (r : Run) : Type 0 where
  pub success : contains (type_name r) success_names ≡ true
  pub identified : run_dataset_id r ≡ some id
  pub named : run_dataset_name r ≡ some dataset

-- The entries that are dicts with a run info
unfoldable pub runs_in : Entries → ℕ
runs_in no_entries = 0
runs_in (with_run r es) = suc (runs_in es)
runs_in (without_run es) = runs_in es
runs_in (loose r es) = runs_in es

-- Every entry is a dict with the run info of a success.
pub record AllSucceeded (id dataset : Text) (es : Entries) : Type 0 where
  pub dicts_only : runs_in es ≡ entry_count es
  pub each : (r : Run) → IsEntry r es → Succeeded id dataset r

fits_terminal-Succeeded :
    (id dataset : Text) (r : Run) → fits_terminal id dataset r ≡ true → Succeeded id dataset r
unfolding fits_terminal is_success
fits_terminal-Succeeded id dataset r h =
    let s : contains (type_name r) success_names ≡ true = ground arith in
    let i : (run_dataset_id r == some id) ≡ true = ground arith in
    let n : (run_dataset_name r == some dataset) ≡ true = ground arith in
    record { success = s; identified = ==_sound _ _ i; named = ==_sound _ _ n }

entries_fit-AllSucceeded :
    (id dataset : Text) (es : Entries)
    → entries_fit id dataset es ≡ true
    → AllSucceeded id dataset es
unfolding entries_fit runs_in entry_count
entries_fit-AllSucceeded id dataset no_entries h = record {
  dicts_only = refl;
  each = λ r i. absurd (none_in r i);
}
  where
    none_in : (r : Run) → IsEntry r no_entries → ⊥
    none_in r i = elim i [ ]
entries_fit-AllSucceeded id dataset (with_run q es) h =
    let here : fits_terminal id dataset q ≡ true = ground arith in
    let there : entries_fit id dataset es ≡ true = ground arith in
    let rest = entries_fit-AllSucceeded id dataset es there in
    record {
      dicts_only = ap suc rest.dicts_only;
      each = λ r i. one r i (fits_terminal-Succeeded id dataset q here) rest.each;
    }
  where
    one :
        (r : Run)
        → IsEntry r (with_run q es)
        → Succeeded id dataset q
        → ((p : Run) → IsEntry p es → Succeeded id dataset p)
        → Succeeded id dataset r
    one r (first rest) s others = s
    one r (later p rest i) s others = others r i
entries_fit-AllSucceeded id dataset (without_run es) h = absurd (cc h)
entries_fit-AllSucceeded id dataset (loose r es) h = absurd (cc h)

-- What an accepted result says.
pub record IsAccepted (dataset : Text) (count : Option ℕ) (expected : Option Uuid)
    (result : PipelineResult) : Type 0 where
  pub terminal : Run
  pub requested : IsTerminal count expected result terminal
  pub id : Text
  pub succeeded : Succeeded id dataset terminal
  pub same_dataset : (u : Uuid) → expected ≡ some u → id ≡ u
  pub entries : (es : Entries) → run_entries terminal ≡ listed es → AllSucceeded id dataset es
  pub counted :
      (n : ℕ)
      → count ≡ some n
      → (es : Entries) × (run_entries terminal ≡ listed es) × (entry_count es ≡ n)

refuse-ok :
    {A : Type 0} (b : Bool) (rest : Result A) (a : A)
    → (refuse b pipeline_error >> rest) ≡ ok a
    → (b ≡ false) × (rest ≡ ok a)
refuse-ok true rest a h = absurd (cc h)
refuse-ok false rest a h = (refl, h)

not-false : (b : Bool) → not b ≡ false → b ≡ true
not-false true h = refl
not-false false h = absurd (cc h)

refused_none : (b : Bool) → refuse (not b) pipeline_error ≡ ok tt → b ≡ true
refused_none true h = refl
refused_none false h = absurd (cc h)

entries-ok :
    (count : Option ℕ) (id dataset : Text) (info : Info)
    → check_entries count id dataset info ≡ ok tt
    → ((es : Entries) → info ≡ listed es → AllSucceeded id dataset es)
      × ((n : ℕ) → count ≡ some n → (es : Entries) × (info ≡ listed es) × (entry_count es ≡ n))
unfolding check_entries
entries-ok none id dataset not_list h = (λ es e. absurd (cc e), λ n e. absurd (cc e))
entries-ok none id dataset (listed xs) h =
    let all = entries_fit-AllSucceeded id dataset xs (refused_none _ h) in
    (λ es e. subst (AllSucceeded id dataset) (entries_of e) all, λ n e. absurd (cc e))
entries-ok (some n) id dataset not_list h = absurd (cc h)
entries-ok (some n) id dataset (listed xs) h =
    let (same, rest) = refuse-ok _ _ tt h in
    let all = entries_fit-AllSucceeded id dataset xs (refused_none _ rest) in
    (
      λ es e. subst (AllSucceeded id dataset) (entries_of e) all,
      λ m e. (xs, refl, ==_sound (entry_count xs) n (not-false _ same) ∙ some-injective n m e),
    )

same_dataset-ok :
    (expected : Option Uuid) (id : Text)
    → other_dataset expected id ≡ false
    → (u : Uuid) → expected ≡ some u
    → id ≡ u
unfolding other_dataset
same_dataset-ok none id h u e = absurd (cc e)
same_dataset-ok (some v) id h u e = ==_sound id v (not-false (id == v) h) ∙ some-injective v u e

module _ (dataset : Text) (count : Option ℕ) (expected : Option Uuid) (result : PipelineResult)
    (r : Run) (requested : IsTerminal count expected result r) where
  coordinates-IsAccepted :
      (o : Option Text)
      → run_dataset_id r ≡ o
      → is_success r ≡ true
      → check_coordinates count expected dataset o r ≡ ok tt
      → IsAccepted dataset count expected result
  unfolding check_coordinates is_success
  coordinates-IsAccepted none e s h = absurd (cc h)
  coordinates-IsAccepted (some id) e s h =
      let (same, h1) = refuse-ok _ _ tt h in
      let (named, h2) = refuse-ok _ _ tt h1 in
      let (all, counted) = entries-ok count id dataset (run_entries r) h2 in
      record {
        terminal = r;
        requested = requested;
        id = id;
        succeeded = record {
          success = s;
          identified = e;
          named = ==_sound (run_dataset_name r) (some dataset) (not-false _ named);
        };
        same_dataset = same_dataset-ok expected id same;
        entries = all;
        counted = counted;
      }

  terminal-IsAccepted :
      check_terminal count expected dataset r ≡ ok tt → IsAccepted dataset count expected result
  unfolding check_terminal
  terminal-IsAccepted h =
      let (s, rest) = refuse-ok _ _ tt h in
      coordinates-IsAccepted (run_dataset_id r) refl (not-false _ s) rest

-- A result that passes the check has one terminal run, of the requested dataset or for the
-- requested number of items; its type is one of the success types; it names the dataset, by the
-- requested id if there is one; its entries, if it has a list of them, are all dicts with the run of
-- a success on the same dataset; and there are as many entries as items were requested.
pub raise_on_errored_runs-IsAccepted :
    (dataset : Text) (count : Option ℕ) (expected : Option Uuid) (result : PipelineResult)
    → raise_on_errored_runs dataset count expected result ≡ ok tt
    → IsAccepted dataset count expected result
unfolding raise_on_errored_runs
raise_on_errored_runs-IsAccepted dataset count expected result h =
    let (none_errored, h1) = refuse-ok _ _ tt h in
    let (r, e, h2) = >>=-eq-ok (terminal_result count expected result) _ h1 in
    terminal-IsAccepted dataset count expected result r
      (terminal_result-IsTerminal count expected result r e) h2
