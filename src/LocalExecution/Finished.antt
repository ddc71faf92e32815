-- ===== src/LocalExecution/Finished.antt =====
-- The workers of benchexec/localexecution.py end, and then every run is finished.
use benchexec.Prelude.{
  ℕ, ◌≡◌, ◌≤◌, refl, ap, sym, ◌∙◌, subst, inl, false, List, [], ◌∷◌, length, length-append,
  length-replicate, arith, ◌==◌, if◌then◌else◌, All,
}
use benchexec.LocalExecution.{
  Worker, idle, ended, advance, Pool, Step, work, interrupt, Steps, here, next, start_pool, min,
}
use benchexec.LocalExecution.Conserved.{
  total, load, busy, SomeEnded, IsConsistent, Steps-IsConsistent, start_pool-IsConsistent,
  total-one,
}

-- How often a run is in a list.
abbrev pub count : ℕ → List ℕ → ℕ
count run = total (λ x. if x == run then 1 else 0)

abbrev pub AllEnded : List Worker → Type 0
AllEnded = All (λ w. w ≡ ended)

Step-length : (s u : Pool) → Step s u → length u.workers ≡ length s.workers
Step-length s u (work before after w e live same) =
    let a = length-append before (w ∷ after) in
    let b = length-append before ((advance s.stopped s.queue w).worker ∷ after) in
    let c = ap length e in let d = ap (λ (p : Pool). length p.workers) same in omega arith
Step-length s u (interrupt running same) = ap (λ (p : Pool). length p.workers) same

Steps-length : (s u : Pool) (n : ℕ) → Steps s n u → length u.workers ≡ length s.workers
Steps-length s u n here = refl
Steps-length s u n (next {t = t} before step) = Step-length t u step ∙ Steps-length s t _ before

busy-AllEnded :
    (weight : ℕ → ℕ) (workers : List Worker) → AllEnded workers → busy weight workers ≡ 0
busy-AllEnded weight [] h = refl
busy-AllEnded weight (w ∷ workers) (e, h) =
    let rest = busy-AllEnded weight workers h in
    let here' : load weight w ≡ 0 = ap (load weight) e in omega arith

-- All workers have ended, so one has, or there is none.
empty_queue :
    (s : Pool) (runs : List ℕ) (num_of_threads : ℕ)
    → IsConsistent runs s
    → 1 ≤ num_of_threads
    → length s.workers ≡ min num_of_threads (length runs)
    → AllEnded s.workers
    → s.stopped ≡ false
    → length s.queue ≡ 0
empty_queue s runs num_of_threads ok threads count_workers all running =
    by_workers s.workers refl all
  where
    by_workers :
        (workers : List Worker) → s.workers ≡ workers → AllEnded workers → length s.queue ≡ 0
    by_workers [] e h =
        let none_left : length s.workers ≡ 0 = ap length e in
        let c = ok.conserved (λ run. 1) in
        let q = total-one s.queue in let r = total-one runs in ground arith
    by_workers (w ∷ workers) e h =
        ap length (ok.drained running (subst SomeEnded (sym e) (inl h.0)))

total_empty : (weight : ℕ → ℕ) (queue : List ℕ) → length queue ≡ 0 → total weight queue ≡ 0
total_empty weight [] h = refl
total_empty weight (x ∷ queue) h = absurd (omega arith)

-- In whatever order at least one worker goes on: no run is finished more often than it is in the run
-- set, and once all workers have ended without an interrupt, the counter of unfinished runs is zero,
-- so that the assertion holds, and every run is finished as often as it is in the run set.
pub workers_finish :
    (num_of_threads : ℕ) (runs : List ℕ) (n : ℕ) (s : Pool)
    → 1 ≤ num_of_threads
    → Steps (start_pool num_of_threads runs) n s
    → ((run : ℕ) → count run s.finished ≤ count run runs)
      × (AllEnded s.workers
          → s.stopped ≡ false
          → (s.unfinished ≡ 0) × ((run : ℕ) → count run s.finished ≡ count run runs))
unfolding start_pool
workers_finish num_of_threads runs n s threads steps =
    let ok : IsConsistent runs s =
      Steps-IsConsistent runs (start_pool num_of_threads runs) s n steps
        (start_pool-IsConsistent num_of_threads runs) in
    let workers : length s.workers ≡ min num_of_threads (length runs) =
      Steps-length (start_pool num_of_threads runs) s n steps
      ∙ length-replicate (min num_of_threads (length runs)) idle in
    (λ run. at_most ok run, λ all running. ended_all ok workers all running)
  where
    at_most : IsConsistent runs s → (run : ℕ) → count run s.finished ≤ count run runs
    at_most ok run = let c = ok.conserved (λ x. if x == run then 1 else 0) in omega arith

    ended_all :
        IsConsistent runs s
        → length s.workers ≡ min num_of_threads (length runs)
        → AllEnded s.workers
        → s.stopped ≡ false
        → (s.unfinished ≡ 0) × ((run : ℕ) → count run s.finished ≡ count run runs)
    ended_all ok workers all running =
        let empty = empty_queue s runs num_of_threads ok threads workers all running in
        let q = total_empty (λ run. 1) s.queue empty in
        let b = busy-AllEnded (λ run. 1) s.workers all in
        let u = ok.counter in (omega arith, λ run. all_of run empty)
      where
        all_of : (run : ℕ) → length s.queue ≡ 0 → count run s.finished ≡ count run runs
        all_of run empty =
            let c = ok.conserved (λ x. if x == run then 1 else 0) in
            let q = total_empty (λ x. if x == run then 1 else 0) s.queue empty in
            let b = busy-AllEnded (λ x. if x == run then 1 else 0) s.workers all in omega arith
