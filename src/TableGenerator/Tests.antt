-- ===== src/TableGenerator/Tests.antt =====
-- Runs of the functions of benchexec/tablegenerator on small inputs, and the theorems at such inputs.
use benchexec.Prelude.{ℕ, ◌≡◌, refl, none, some, List, [], ◌∷◌, codes}
use benchexec.Prelude.Int.{pos, negsuc}
use benchexec.Result.{correct, wrong, error}
use benchexec.TableGenerator.Statistics.{RunResult, get_stats_of_status_column}
use benchexec.Prelude.{map, All2}
use benchexec.Prelude.Dict.{nat_eq, member, Distinct}
use benchexec.Prelude.Outcome.{returned}
use benchexec.TableGenerator.Merge
use benchexec.TableGenerator.Merge.{get_tasks, merge_tasks, find_common_tasks, get_rows}
use benchexec.TableGenerator.Merged.{is_in_some}
use benchexec.TableGenerator.Rows.{IsMergedList, IsRow, merge_tasks_lem, get_rows-merge_tasks}
use benchexec.TableGenerator.Differences
use benchexec.TableGenerator.Differences.{filter_rows_with_differences}
use benchexec.TableGenerator.Selected.{IsFiltered, filter_rows_with_differences-IsFiltered}

abbrev some_runs : List RunResult
some_runs =
    record { category = correct; score = some (pos 2); status = some (codes "true") }
    ∷ record { category = wrong; score = some (negsuc 15); status = some (codes "false") }
    ∷ record { category = correct; score = some (pos 1); status = some (codes "false(p)") }
    ∷ record { category = error; score = none; status = some (codes "TIMEOUT") }
    ∷ []

test_statistics :
    ((get_stats_of_status_column some_runs).score ≡ negsuc 12)
    × ((get_stats_of_status_column some_runs).total ≡ 4)
    × ((get_stats_of_status_column some_runs).all_correct ≡ 2)
    × ((get_stats_of_status_column some_runs).correct_true ≡ 1)
    × ((get_stats_of_status_column some_runs).wrong_false ≡ 1)
unfolding get_stats_of_status_column
test_statistics = (refl, refl, refl, refl, refl)

-- The results of two run sets for the tasks 1 and 3, and for 1 (twice) and 2.
abbrev result_of : ℕ → ℕ → Merge.RunResult ℕ ℕ
result_of task value = record { task_id = task; content = some value }

abbrev two_run_sets : List (List (Merge.RunResult ℕ ℕ))
two_run_sets =
    (result_of 1 10 ∷ result_of 3 30 ∷ [])
    ∷ (result_of 1 11 ∷ result_of 1 12 ∷ result_of 2 20 ∷ [])
    ∷ []

abbrev merged_second : List (Merge.RunResult ℕ ℕ)
merged_second = result_of 1 11 ∷ result_of 2 20 ∷ record { task_id = 3; content = none } ∷ []

test_merge :
    (map get_tasks (merge_tasks two_run_sets) ≡ (1 ∷ 2 ∷ 3 ∷ []) ∷ (1 ∷ 2 ∷ 3 ∷ []) ∷ [])
    × (get_rows (merged_second ∷ []) ≡ returned (map (λ r. r ∷ []) merged_second))
    × (find_common_tasks two_run_sets ≡ some ((result_of 1 10 ∷ []) ∷ (result_of 1 11 ∷ []) ∷ []))
unfolding merge_tasks find_common_tasks get_rows
test_merge = (refl, refl, refl)

merge_tasks_lem_example :
    (tasks : List ℕ) × Distinct tasks
    × ((task : ℕ) → member task tasks ≡ is_in_some task (map get_tasks two_run_sets))
    × All2 (IsMergedList tasks) two_run_sets (merge_tasks two_run_sets)
merge_tasks_lem_example = merge_tasks_lem two_run_sets

get_rows-merge_tasks_example :
    (tasks : List ℕ) × (rows : List (List (Merge.RunResult ℕ ℕ))) × Distinct tasks
    × ((task : ℕ) → member task tasks ≡ is_in_some task (map get_tasks two_run_sets))
    × (get_rows (merge_tasks two_run_sets) ≡ returned rows)
    × All2 (IsRow two_run_sets) tasks rows
get_rows-merge_tasks_example = get_rows-merge_tasks two_run_sets

-- Two run sets: they agree on the first task, and differ on the second.
abbrev compared : ℕ → Differences.ComparedResult ℕ
compared status = record {
  columns = codes "status" ∷ codes "time" ∷ [];
  columns_relevant_for_diff = [];
  values = status ∷ 7 ∷ [];
}

abbrev without_values : Differences.ComparedResult ℕ
without_values = record {
  columns = codes "status" ∷ [];
  columns_relevant_for_diff = [];
  values = [];
}

abbrev compared_rows : List (List (Differences.ComparedResult ℕ))
compared_rows =
    (compared 1 ∷ compared 1 ∷ [])
    ∷ (compared 1 ∷ compared 2 ∷ [])
    ∷ (compared 1 ∷ without_values ∷ [])
    ∷ []

abbrev differing_rows : List (List (Differences.ComparedResult ℕ))
differing_rows = (compared 1 ∷ compared 2 ∷ []) ∷ []

test_differences :
    (filter_rows_with_differences compared_rows ≡ returned differing_rows)
    × (filter_rows_with_differences differing_rows ≡ returned [])
    × (filter_rows_with_differences ((compared 1 ∷ []) ∷ []) ≡ returned [])
unfolding filter_rows_with_differences
test_differences = (refl, refl, refl)

filter_rows_with_differences-IsFiltered_example : IsFiltered compared_rows differing_rows
filter_rows_with_differences-IsFiltered_example =
    filter_rows_with_differences-IsFiltered compared_rows differing_rows (test_differences.0)
