-- ===== src/TableGenerator/Merge.antt =====
-- Merging the results of several run sets into the rows of a table: merge_tasks, merge_task_lists,
-- find_common_tasks and get_rows of benchexec/tablegenerator/__init__.py. A task has a key, and a
-- result of a run has a content, or none where it is the dummy for a missing result.
use benchexec.Prelude.{
  ℕ, zero, suc, Bool, true, ◌&&◌, Option, none, some, List, [], ◌∷◌, map, reverse, if◌then◌else◌,
}
use benchexec.Prelude.Dict.{Eq, member, within, get, assign}
use benchexec.Prelude.Outcome.{Outcome, returned, raised, ◌>>=◌, ◌>>◌, require}

pub record RunResult (K V : Type 0) : Type 0 where
  pub task_id : K
  pub content : Option V

-- The asserts of Row.
pub data RowFailure : Type 0 where
  no_results different_tasks : RowFailure

-- get_tasks
abbrev pub get_tasks : {K V : Type 0} → List (RunResult K V) → List K
get_tasks [] = []
get_tasks (r ∷ results) = r.task_id ∷ get_tasks results

-- task_list.insert(index, task)
abbrev pub insert_at : {K : Type 0} → ℕ → K → List K → List K
insert_at zero task tasks = task ∷ tasks
insert_at (suc index) task [] = task ∷ []
insert_at (suc index) task (t ∷ tasks) = t ∷ insert_at index task tasks

-- What the loops of merge_tasks change; next_index is index + 1.
pub record Merging (K : Type 0) : Type 0 where
  pub task_list : List K
  pub task_set : List K
  pub next_index : ℕ
  pub current : List K

module _ {K : Type 0} ⦃e : Eq K⦄ where
  -- task_list.index(task), for a task in the list
  abbrev pub index_of : K → List K → ℕ
  index_of task [] = 0
  index_of task (t ∷ tasks) = let rest = index_of task tasks in if e.beq task t then 0 else suc rest

  -- One task of a run set.
  unfoldable pub merge_task : Merging K → K → Merging K
  unfolding member
  merge_task m task =
      if member task m.current
      then m
      else if member task m.task_set
      then record {
        task_list = m.task_list;
        task_set = m.task_set;
        next_index = suc (index_of task m.task_list);
        current = task ∷ m.current;
      }
      else record {
        task_list = insert_at m.next_index task m.task_list;
        task_set = task ∷ m.task_set;
        next_index = suc m.next_index;
        current = task ∷ m.current;
      }

  unfoldable pub merge_run_set : Merging K → List K → Merging K
  unfolding merge_task
  merge_run_set m [] = m
  merge_run_set m (task ∷ tasks) = merge_run_set (merge_task m task) tasks

  -- The loop over the run sets.
  unfoldable pub merge_run_sets : List K → List K → List (List K) → List K
  unfolding merge_run_set
  merge_run_sets task_list task_set [] = task_list
  merge_run_sets task_list task_set (tasks ∷ rest) =
      let m =
        merge_run_set
          (record { task_list = task_list; task_set = task_set; next_index = 0; current = [] })
          tasks in
      merge_run_sets m.task_list m.task_set rest

  -- tasks_in_first_runset, of those that all run sets have
  unfoldable pub common_tasks : List K → List (List K) → List K
  unfolding within
  common_tasks first [] = first
  common_tasks first (tasks ∷ rest) = common_tasks (within tasks first) rest

  module _ {V : Type 0} where
    -- {run_result.task_id: run_result for run_result in ...}
    unfoldable pub results_by_task :
        List (K × RunResult K V) → List (RunResult K V) → List (K × RunResult K V)
    unfolding assign
    results_by_task dic [] = dic
    results_by_task dic (r ∷ results) = results_by_task (assign r.task_id r dic) results

    abbrev pub or_dummy : K → Option (RunResult K V) → RunResult K V
    or_dummy task none = record { task_id = task; content = none }
    or_dummy task (some r) = r

    abbrev pub results_for : List (K × RunResult K V) → List K → List (RunResult K V)
    results_for dic [] = []
    results_for dic (task ∷ tasks) = or_dummy task (get task dic) ∷ results_for dic tasks

    -- merge_task_lists, for one run set
    unfoldable pub merge_task_list : List K → List (RunResult K V) → List (RunResult K V)
    unfolding results_by_task get
    merge_task_list tasks results = results_for (results_by_task [] (reverse results)) tasks

    unfoldable pub merge_tasks : List (List (RunResult K V)) → List (List (RunResult K V))
    unfolding merge_run_sets merge_task_list
    merge_tasks run_sets =
        map (merge_task_list (merge_run_sets [] [] (map get_tasks run_sets))) run_sets

    -- find_common_tasks; without a common task, the run sets are left as they are.
    abbrev pub merge_common : List K → List (List (RunResult K V)) → List (List (RunResult K V))
    merge_common [] run_sets = run_sets
    merge_common (task ∷ tasks) run_sets = map (merge_task_list (task ∷ tasks)) run_sets

    -- runset_results[0] raises an IndexError where there is no run set.
    unfoldable pub find_common_tasks :
        List (List (RunResult K V)) → Option (List (List (RunResult K V)))
    unfolding common_tasks merge_task_list
    find_common_tasks [] = none
    find_common_tasks (results ∷ run_sets) = some (
        merge_common (common_tasks (get_tasks results) (map get_tasks run_sets))
          (results ∷ run_sets))

    -- The asserts of Row: there are results, and all have the same task.
    abbrev pub same_task : K → List (RunResult K V) → Bool
    same_task task [] = true
    same_task task (r ∷ results) = e.beq r.task_id task && same_task task results

    unfoldable pub make_row : List (RunResult K V) → Outcome RowFailure (List (RunResult K V))
    make_row [] = raised no_results
    make_row (r ∷ results) = do
      require (same_task r.task_id results) different_tasks
      returned (r ∷ results)

    -- The first results of some run sets, and what is left of them; none if one is empty.
    abbrev pub cons_heads :
        RunResult K V
        → List (RunResult K V)
        → Option (List (RunResult K V) × List (List (RunResult K V)))
        → Option (List (RunResult K V) × List (List (RunResult K V)))
    cons_heads r results none = none
    cons_heads r results (some (heads, tails)) = some (r ∷ heads, results ∷ tails)

    abbrev pub split_heads :
        List (List (RunResult K V)) → Option (List (RunResult K V) × List (List (RunResult K V)))
    split_heads [] = some ([], [])
    split_heads ([] ∷ run_sets) = none
    split_heads ((r ∷ results) ∷ run_sets) = cons_heads r results (split_heads run_sets)

    -- zip(*...), along the first run set, with a Row for each tuple
    abbrev pub make_rows :
        List (RunResult K V)
        → List (List (RunResult K V))
        → Outcome RowFailure (List (List (RunResult K V)))
    make_rows [] run_sets = returned []
    make_rows (r ∷ results) run_sets = elim (split_heads run_sets) [
      | none ↦ returned []
      | some (heads, tails) ↦ (do
        row ← make_row (r ∷ heads)
        rows ← make_rows results tails
        returned (row ∷ rows))
    ]

    unfoldable pub get_rows :
        List (List (RunResult K V)) → Outcome RowFailure (List (List (RunResult K V)))
    unfolding make_row
    get_rows [] = returned []
    get_rows (results ∷ run_sets) = make_rows results run_sets
