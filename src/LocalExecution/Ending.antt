-- ===== src/LocalExecution/Ending.antt =====
-- The workers of benchexec/localexecution.py never block each other, and end after a bounded number
-- of steps.
use benchexec.Prelude.{
  ℕ, zero, suc, ◌+◌, ◌*◌, ◌≡◌, ◌≢◌, ◌≤◌, ◌<◌, refl, ap, sym, subst, ◌⊎◌, inl, inr, Bool, true,
  false, List, [], ◌∷◌, ◌++◌, length, replicate, arith, if◌then◌else◌,
}
use benchexec.LocalExecution.{
  Worker, idle, executing, ended, advance, Pool, moved, Step, work, interrupt, Steps, here, next,
  start_pool, min,
}
use benchexec.LocalExecution.Finished.{AllEnded}

-- How many steps a worker may still take, without those for the runs in the queue.
abbrev patience : Worker → ℕ
patience ended = 0
patience idle = 1
patience (executing run) = 2

abbrev patience_of : List Worker → ℕ
patience_of [] = 0
patience_of (w ∷ workers) = patience w + patience_of workers

patience_of-append :
    (xs ys : List Worker) → patience_of (xs ++ ys) ≡ patience_of xs + patience_of ys
patience_of-append [] ys = omega arith
patience_of-append (x ∷ xs) ys = omega (arith, patience_of-append xs ys)

-- An upper bound on the number of steps: two for each run in the queue, those of the workers, and the
-- interrupt.
abbrev pub steps_left : Pool → ℕ
steps_left s = 2 * length s.queue + patience_of s.workers + (if s.stopped then 0 else 1)

advance_smaller :
    (stopped : Bool) (queue : List ℕ) (w : Worker)
    → w ≢ ended
    → 2 * length (advance stopped queue w).queue + patience (advance stopped queue w).worker
      < 2 * length queue + patience w
unfolding advance
advance_smaller stopped queue (executing run) live = omega arith
advance_smaller true queue idle live = omega arith
advance_smaller false [] idle live = omega arith
advance_smaller false (run ∷ queue) idle live = omega arith
advance_smaller stopped queue ended live = absurd (live refl)

Step-smaller : (s u : Pool) → Step s u → steps_left u < steps_left s
Step-smaller s u (work before after w e live same) =
    let a = advance_smaller s.stopped s.queue w live in
    let b = patience_of-append before (w ∷ after) in
    let c = patience_of-append before ((advance s.stopped s.queue w).worker ∷ after) in
    let d = ap patience_of e in
    subst (λ (p : Pool). steps_left p < steps_left s) (sym same) (omega arith)
Step-smaller s u (interrupt running same) =
    subst (λ (p : Pool). steps_left p < steps_left s) (sym same) (rw running (omega arith))

Steps-bounded : (s u : Pool) (n : ℕ) → Steps s n u → n + steps_left u ≤ steps_left s
Steps-bounded s u n here = omega arith
Steps-bounded s u n (next {n = k} {t = t} before step) =
    let a = Steps-bounded s t k before in let b = Step-smaller t u step in omega arith

patience_of-replicate : (n : ℕ) → patience_of (replicate n idle) ≡ n
patience_of-replicate zero = refl
patience_of-replicate (suc n) = omega (arith, patience_of-replicate n)

-- All workers have ended, or one of them has not.
live_worker :
    (workers : List Worker)
    → AllEnded workers
      ⊎ ((before : List Worker) × (w : Worker) × (after : List Worker) × (workers
            ≡ before ++ w ∷ after)
          × (w ≢ ended))
live_worker [] = inl tt
live_worker (idle ∷ workers) = inr ([], idle, workers, refl, λ h. cc)
live_worker (executing run ∷ workers) = inr ([], executing run, workers, refl, λ h. cc)
live_worker (ended ∷ workers) = elim (live_worker workers) [
  | inl all ↦ inl (refl, all)
  | inr (before, w, after, e, live) ↦ inr (ended ∷ before, w, after, ap (λ l. ended ∷ l) e, live)
]

progress : (s : Pool) → AllEnded s.workers ⊎ ((u : Pool) × Step s u)
progress s = elim (live_worker s.workers) [
  | inl all ↦ inl all
  | inr (before, w, after, e, live) ↦
      inr (moved s before after (advance s.stopped s.queue w), work before after w e live refl)
]

-- In whatever order the workers go on and the program is interrupted: the number of steps is at most
-- two for each run, one for each worker and one more; and as long as not all workers have ended, some
-- step is possible.
pub workers_end :
    (num_of_threads : ℕ) (runs : List ℕ) (n : ℕ) (s : Pool)
    → Steps (start_pool num_of_threads runs) n s
    → (n ≤ 2 * length runs + min num_of_threads (length runs) + 1)
      × (AllEnded s.workers ⊎ ((u : Pool) × Step s u))
unfolding start_pool
workers_end num_of_threads runs n s steps =
    let bound = Steps-bounded (start_pool num_of_threads runs) s n steps in
    let start = patience_of-replicate (min num_of_threads (length runs)) in
    (omega arith, progress s)
