-- ===== src/TableGenerator/Merged.antt =====
-- The task list that merge_tasks of benchexec/tablegenerator/__init__.py computes.
use benchexec.Prelude.{
  if-holds, ℕ, zero, suc, ◌≡◌, refl, sym, ap, ◌∙◌, Bool, true, false, ◌||◌, Bool-cases, inl, inr,
  List, [], ◌∷◌, arith,
}
use benchexec.Prelude.Dict.{Eq, member, Distinct}
use benchexec.TableGenerator.Merge.{Merging, insert_at, merge_task, merge_run_set, merge_run_sets}

module _ {K : Type 0} ⦃e : Eq K⦄ where
  -- A run set with the task.
  abbrev pub is_in_some : K → List (List K) → Bool
  is_in_some a [] = false
  is_in_some a (tasks ∷ rest) = member a tasks || is_in_some a rest

  beq_sym : (a b : K) → e.beq a b ≡ false → e.beq b a ≡ false
  beq_sym a b h = ground (arith, e.beq_iff a b, e.beq_iff b a)

  member-insert_at :
      (a : K) (i : ℕ) (task : K) (tasks : List K)
      → member a (insert_at i task tasks) ≡ (e.beq a task || member a tasks)
  unfolding member
  member-insert_at a zero task tasks = refl
  member-insert_at a (suc i) task [] = refl
  member-insert_at a (suc i) task (t ∷ tasks) = ground (arith, member-insert_at a i task tasks)

  Distinct-insert_at :
      (i : ℕ) (task : K) (tasks : List K)
      → member task tasks ≡ false
      → Distinct tasks
      → Distinct (insert_at i task tasks)
  unfolding member
  Distinct-insert_at zero task tasks new h = (new, h)
  Distinct-insert_at (suc i) task [] new h = (refl, tt)
  Distinct-insert_at (suc i) task (t ∷ tasks) new h = (
    ground (arith, member-insert_at t i task tasks, beq_sym task t),
    Distinct-insert_at i task tasks (ground arith) h.1,
  )

  -- The set holds the tasks of the list, which holds each once, and those of the run set so far.
  pub record IsMerging (m : Merging K) : Type 0 where
    pub same : (a : K) → member a m.task_set ≡ member a m.task_list
    pub once : Distinct m.task_list
    pub seen : (a : K) → member a m.current ≡ true → member a m.task_list ≡ true

  -- What the task list is after one more task.
  pub record IsMergedWith (m : Merging K) (task : K) (r : Merging K) : Type 0 where
    pub merging : IsMerging r
    pub tasks : (a : K) → member a r.task_list ≡ (e.beq a task || member a m.task_list)

  member-of_equal :
      (a task : K) (tasks : List K)
      → member task tasks ≡ true
      → (e.beq a task || member a tasks) ≡ member a tasks
  member-of_equal a task tasks h = elim (Bool-cases (e.beq a task)) [
    | inl same ↦
        let eq : member a tasks ≡ member task tasks =
          ap (λ (z : K). member z tasks) ((e.beq_iff a task).0 same) in
        ground arith
    | inr other ↦ ground arith
  ]

  merge_task-IsMergedWith :
      (m : Merging K) (task : K) → IsMerging m → IsMergedWith m task (merge_task m task)
  unfolding merge_task member
  merge_task-IsMergedWith m task ok =
      if-holds (IsMergedWith m task) (member task m.current)
        (λ twice. record {
          merging = ok;
          tasks = λ a. sym (member-of_equal a task m.task_list (ok.seen task twice));
        })
        λ first.
          if-holds (IsMergedWith m task) (member task m.task_set)
            (λ known.
              (let listed : member task m.task_list ≡ true = sym (ok.same task) ∙ known in
                record {
                  merging = record {
                    same = ok.same;
                    once = ok.once;
                    seen = λ a h. old_seen a listed h;
                  };
                  tasks = λ a. sym (member-of_equal a task m.task_list listed);
                }))
            λ new. record {
              merging = record {
                same = λ a. new_same a;
                once =
                    Distinct-insert_at m.next_index task m.task_list (sym (ok.same task) ∙ new)
                      ok.once;
                seen = λ a h. new_seen a h;
              };
              tasks = λ a. member-insert_at a m.next_index task m.task_list;
            }
    where
      old_seen :
          (a : K)
          → member task m.task_list ≡ true
          → (e.beq a task || member a m.current) ≡ true
          → member a m.task_list ≡ true
      old_seen a listed h = ground (arith, member-of_equal a task m.task_list listed, ok.seen a)

      new_same :
          (a : K)
          → (e.beq a task || member a m.task_set)
            ≡ member a (insert_at m.next_index task m.task_list)
      new_same a = ground (arith, member-insert_at a m.next_index task m.task_list, ok.same a)

      new_seen :
          (a : K)
          → (e.beq a task || member a m.current) ≡ true
          → member a (insert_at m.next_index task m.task_list) ≡ true
      new_seen a h = ground (arith, member-insert_at a m.next_index task m.task_list, ok.seen a)

  merge_run_set-IsMerging :
      (m : Merging K) (tasks : List K) → IsMerging m → IsMerging (merge_run_set m tasks)
  unfolding merge_run_set
  merge_run_set-IsMerging m [] ok = ok
  merge_run_set-IsMerging m (task ∷ tasks) ok =
      merge_run_set-IsMerging (merge_task m task) tasks (merge_task-IsMergedWith m task ok).merging

  merge_run_set_tasks :
      (m : Merging K) (tasks : List K)
      → IsMerging m
      → (a : K)
      → member a (merge_run_set m tasks).task_list ≡ (member a tasks || member a m.task_list)
  unfolding merge_run_set member
  merge_run_set_tasks m [] ok a = refl
  merge_run_set_tasks m (task ∷ tasks) ok a =
      let next = merge_task-IsMergedWith m task ok in
      let rest = merge_run_set_tasks (merge_task m task) tasks next.merging a in
      ground (arith, next.tasks a)

  -- Before a run set, and then after it.
  start-IsMerging :
      (task_list task_set : List K)
      → ((a : K) → member a task_set ≡ member a task_list)
      → Distinct task_list
      → IsMerging
          (record { task_list = task_list; task_set = task_set; next_index = 0; current = [] })
  unfolding member
  start-IsMerging task_list task_set same once = record {
    same = same;
    once = once;
    seen = λ a h. cc;
  }

  pub merge_run_sets-IsUnion :
      (task_list task_set : List K) (sets : List (List K))
      → ((a : K) → member a task_set ≡ member a task_list)
      → Distinct task_list
      → Distinct (merge_run_sets task_list task_set sets)
        × ((a : K)
            → member a (merge_run_sets task_list task_set sets)
              ≡ (member a task_list || is_in_some a sets))
  unfolding merge_run_sets
  merge_run_sets-IsUnion task_list task_set [] same once = (once, λ a. ground arith)
  merge_run_sets-IsUnion task_list task_set (tasks ∷ rest) same once =
      let ok = start-IsMerging task_list task_set same once in
      let m0 : Merging K = record {
        task_list = task_list;
        task_set = task_set;
        next_index = 0;
        current = [];
      } in
      let m1 = merge_run_set-IsMerging m0 tasks ok in
      let m : Merging K = merge_run_set m0 tasks in
      let r = merge_run_sets-IsUnion m.task_list m.task_set rest m1.same m1.once in
      (r.0, λ a. ground (arith, r.1 a, merge_run_set_tasks m0 tasks ok a))
