-- ===== src/TableGenerator/Rows.antt =====
-- The results after merge_tasks of benchexec/tablegenerator/__init__.py, and the rows of them.
use benchexec.Prelude.{
  if-holds, ℕ, zero, suc, ◌≡◌, refl, sym, ap, subst, ◌∙◌, true, false, List, [], ◌∷◌, ◌++◌, arith,
  if◌then◌else◌, map, reverse, Option, none, some, All2, All2-map, length, replicate,
  reverse-append,
}
use benchexec.Prelude.Dict.{Eq, member, Distinct, get, assign, get-assign}
use benchexec.Prelude.Outcome.{require, ◌>>◌, returned}
use benchexec.TableGenerator.Merge.{
  different_tasks, cons_heads, RunResult, get_tasks, merge_run_sets, results_by_task, or_dummy,
  results_for, merge_task_list, merge_tasks, same_task, make_row, split_heads, make_rows, get_rows,
}
use benchexec.TableGenerator.Merged.{is_in_some, merge_run_sets-IsUnion}

module _ {K V : Type 0} ⦃e : Eq K⦄ where
  -- The first result for a task.
  abbrev pub first_result : K → List (RunResult K V) → Option (RunResult K V)
  first_result task [] = none
  first_result task (r ∷ results) =
      if e.beq task r.task_id then some r else first_result task results

  results_by_task-append :
      (dic : List (K × RunResult K V)) (xs ys : List (RunResult K V))
      → results_by_task dic (xs ++ ys) ≡ results_by_task (results_by_task dic xs) ys
  unfolding results_by_task
  results_by_task-append dic [] ys = refl
  results_by_task-append dic (x ∷ xs) ys = results_by_task-append (assign x.task_id x dic) xs ys

  -- The dict made from the reversed list holds the first result for each task.
  get-results_by_task :
      (task : K) (results : List (RunResult K V))
      → get task (results_by_task [] (reverse results)) ≡ first_result task results
  unfolding results_by_task get
  get-results_by_task task [] = refl
  get-results_by_task task (r ∷ results) =
      let dic : List (K × RunResult K V) = results_by_task [] (reverse results) in
      ap (λ (l : List (RunResult K V)). get task (results_by_task [] l))
        (reverse-append (r ∷ []) results)
      ∙ ap (get task) (results_by_task-append [] (reverse results) (r ∷ []))
      ∙ get-assign r.task_id task r dic
      ∙ ap (λ (rest : Option (RunResult K V)). if e.beq task r.task_id then some r else rest)
          (get-results_by_task task results)

  first_result_task :
      (task : K) (results : List (RunResult K V))
      → (or_dummy task (first_result task results)).task_id ≡ task
  first_result_task task [] = refl
  first_result_task task (r ∷ results) =
      if-holds (λ o. (or_dummy task o).task_id ≡ task) (e.beq task r.task_id)
        (λ same. sym ((e.beq_iff task r.task_id).0 same)) λ other. first_result_task task results

  -- What merge_task_lists makes of a run set.
  pub record IsMergedList (tasks : List K) (old new : List (RunResult K V)) : Type 0 where
    pub tasks_of : get_tasks new ≡ tasks
    pub result_of :
        (task : K)
        → member task tasks ≡ true
        → first_result task new ≡ some (or_dummy task (first_result task old))

  module _ (dic : List (K × RunResult K V))
      (keyed : (task : K) → (or_dummy task (get task dic)).task_id ≡ task) where
    get_tasks-results_for : (tasks : List K) → get_tasks (results_for dic tasks) ≡ tasks
    get_tasks-results_for [] = refl
    get_tasks-results_for (t ∷ tasks) =
        ap (λ l. (or_dummy t (get t dic)).task_id ∷ l) (get_tasks-results_for tasks)
        ∙ ap (λ (k : K). k ∷ tasks) (keyed t)

    first_result-results_for :
        (task : K) (tasks : List K)
        → member task tasks ≡ true
        → first_result task (results_for dic tasks) ≡ some (or_dummy task (get task dic))
    unfolding member
    first_result-results_for task [] h = cc
    first_result-results_for task (t ∷ tasks) h =
        let first : RunResult K V = or_dummy t (get t dic) in
        if-holds (λ o. o ≡ some (or_dummy task (get task dic))) (e.beq task first.task_id)
          (λ same.
            let eq : t ≡ task = sym (keyed t) ∙ sym ((e.beq_iff task first.task_id).0 same) in
            ap (λ (k : K). some (or_dummy k (get k dic))) eq)
          λ other.
            first_result-results_for task tasks
              (later (subst (λ k. e.beq task k ≡ false) (keyed t) other))
      where
        later : e.beq task t ≡ false → member task tasks ≡ true
        later other = ground arith

  merge_task_list-IsMergedList :
      (tasks : List K) (results : List (RunResult K V))
      → IsMergedList tasks results (merge_task_list tasks results)
  unfolding merge_task_list
  merge_task_list-IsMergedList tasks results =
      let dic : List (K × RunResult K V) = results_by_task [] (reverse results) in
      let at : (task : K) → get task dic ≡ first_result task results =
        λ task. get-results_by_task task results in
      let keyed : (task : K) → (or_dummy task (get task dic)).task_id ≡ task =
        λ task. ap (λ o. (or_dummy task o).task_id) (at task) ∙ first_result_task task results in
      record {
        tasks_of = get_tasks-results_for dic keyed tasks;
        result_of = λ task h.
            first_result-results_for dic keyed task tasks h
            ∙ ap (λ o. some (or_dummy task o)) (at task);
      }

  -- merge_tasks gives all run sets one list of tasks, the tasks that some run set has, each once. The
  -- result of a run set for one of them is its first result for the task, or the dummy where it has none.
  pub merge_tasks_lem :
      (run_sets : List (List (RunResult K V)))
      → (tasks : List K) × Distinct tasks
        × ((task : K) → member task tasks ≡ is_in_some task (map get_tasks run_sets))
        × All2 (IsMergedList tasks) run_sets (merge_tasks run_sets)
  unfolding merge_tasks member
  merge_tasks_lem run_sets =
      let sets : List (List K) = map get_tasks run_sets in
      let tasks : List K = merge_run_sets [] [] sets in
      let union = merge_run_sets-IsUnion [] [] sets (λ a. refl) tt in
      (
        tasks,
        union.0,
        union.1,
        All2-map (IsMergedList tasks) (merge_task_list tasks) (merge_task_list-IsMergedList tasks)
            run_sets,
      )

  -- The result of a run set for a task: its first one, or the dummy.
  abbrev pub result_for : K → List (RunResult K V) → RunResult K V
  result_for task results = or_dummy task (first_result task results)

  -- The run sets in columns, for some tasks.
  abbrev column : List K → List (RunResult K V) → List (RunResult K V)
  column tasks results = map (λ task. result_for task results) tasks

  results_for-column :
      (dic : List (K × RunResult K V)) (results : List (RunResult K V)) (tasks : List K)
      → ((task : K) → get task dic ≡ first_result task results)
      → results_for dic tasks ≡ column tasks results
  results_for-column dic results [] at = refl
  results_for-column dic results (task ∷ tasks) at =
      rw (at task) (ap (λ l. result_for task results ∷ l) (results_for-column dic results tasks at))

  merge_task_list-column :
      (tasks : List K) (results : List (RunResult K V))
      → merge_task_list tasks results ≡ column tasks results
  unfolding merge_task_list
  merge_task_list-column tasks results =
      results_for-column (results_by_task [] (reverse results)) results tasks
        (λ task. get-results_by_task task results)

  columns_same :
      (tasks : List K) (run_sets : List (List (RunResult K V)))
      → map (merge_task_list tasks) run_sets ≡ map (column tasks) run_sets
  columns_same tasks [] = refl
  columns_same tasks (results ∷ run_sets) =
      rw (merge_task_list-column tasks results, columns_same tasks run_sets) refl

  split_heads-columns :
      (task : K) (tasks : List K) (run_sets : List (List (RunResult K V)))
      → split_heads (map (column (task ∷ tasks)) run_sets)
        ≡ some (map (result_for task) run_sets, map (column tasks) run_sets)
  split_heads-columns task tasks [] = refl
  split_heads-columns task tasks (results ∷ run_sets) =
      ap (cons_heads (result_for task results) (column tasks results))
        (split_heads-columns task tasks run_sets)

  tasks_of_row :
      (task : K) (run_sets : List (List (RunResult K V)))
      → get_tasks (map (result_for task) run_sets) ≡ replicate (length run_sets) task
  tasks_of_row task [] = refl
  tasks_of_row task (results ∷ run_sets) =
      rw (first_result_task task results, tasks_of_row task run_sets) refl

  same_task-replicate :
      (task : K) (n : ℕ) (results : List (RunResult K V))
      → get_tasks results ≡ replicate n task
      → same_task task results ≡ true
  same_task-replicate task n [] h = refl
  same_task-replicate task zero (r ∷ results) h = cc
  same_task-replicate task (suc n) (r ∷ results) h =
      let here : r.task_id ≡ task = cc in
      let there : get_tasks results ≡ replicate n task = cc in
      let equal : e.beq r.task_id task ≡ true = (e.beq_iff r.task_id task).1 here in
      ground (arith, same_task-replicate task n results there)

  make_row_all :
      (task : K) (n : ℕ) (r : RunResult K V) (results : List (RunResult K V))
      → get_tasks (r ∷ results) ≡ replicate (suc n) task
      → make_row (r ∷ results) ≡ returned (r ∷ results)
  unfolding make_row
  make_row_all task n r results h =
      let here : task ≡ r.task_id = cc in
      let there : get_tasks results ≡ replicate n task = cc in
      let same : same_task r.task_id results ≡ true =
        subst (λ k. same_task k results ≡ true) here (same_task-replicate task n results there) in
      ap (λ b. require b different_tasks >> returned (r ∷ results)) same

  -- The row of a task has its result from every run set, in their order.
  abbrev pub IsRow : List (List (RunResult K V)) → K → List (RunResult K V) → Type 0
  IsRow run_sets task row =
      (row ≡ map (result_for task) run_sets) × (get_tasks row ≡ replicate (length run_sets) task)

  make_rows-columns :
      (tasks : List K) (results : List (RunResult K V)) (run_sets : List (List (RunResult K V)))
      → (rows : List (List (RunResult K V))) × (make_rows
            (column tasks results)
            (map (column tasks) run_sets)
          ≡ returned rows)
        × All2 (IsRow (results ∷ run_sets)) tasks rows
  make_rows-columns [] results run_sets = ([], refl, tt)
  make_rows-columns (task ∷ tasks) results run_sets =
      let heads = map (result_for task) (results ∷ run_sets) in
      let same = tasks_of_row task (results ∷ run_sets) in
      let row : make_row heads ≡ returned heads =
        make_row_all task (length run_sets) (result_for task results)
          (map (result_for task) run_sets) same in
      let rest = make_rows-columns tasks results run_sets in
      (
        heads ∷ rest.0,
        rw (split_heads-columns task tasks run_sets, row, rest.1, make_rows) refl,
        ((refl, same), rest.2),
      )

  -- The rows of the merged run sets are created, without a failure of an assert: one for each task that
  -- some run set has, with the first result of every run set for this task, or the dummy for it.
  pub get_rows-merge_tasks :
      (run_sets : List (List (RunResult K V)))
      → (tasks : List K) × (rows : List (List (RunResult K V))) × Distinct tasks
        × ((task : K) → member task tasks ≡ is_in_some task (map get_tasks run_sets))
        × (get_rows (merge_tasks run_sets) ≡ returned rows)
        × All2 (IsRow run_sets) tasks rows
  unfolding get_rows merge_tasks member merge_run_sets
  get_rows-merge_tasks [] = ([], [], tt, λ task. refl, refl, tt)
  get_rows-merge_tasks (results ∷ run_sets) =
      let sets : List (List K) = map get_tasks (results ∷ run_sets) in
      let tasks : List K = merge_run_sets [] [] sets in
      let union = merge_run_sets-IsUnion [] [] sets (λ a. refl) tt in
      let made = make_rows-columns tasks results run_sets in
      (
        tasks,
        made.0,
        union.0,
        union.1,
        rw (merge_task_list-column tasks results, columns_same tasks run_sets) made.1,
        made.2,
      )
