-- ===== src/LocalExecution/Conserved.antt =====
-- No run is lost or executed twice by the workers of benchexec/localexecution.py.
use benchexec.Prelude.{
  ℕ, zero, suc, ◌+◌, ◌≡◌, ◌≢◌, refl, ap, sym, ◌∙◌, subst, ◌⊎◌, inl, inr, Bool, true, false, List,
  [], ◌∷◌, ◌++◌, length, replicate, arith,
}
use benchexec.LocalExecution.{
  Worker, idle, executing, ended, advance, Pool, done_list, run_finished, moved, Step, work,
  interrupt, Steps, here, next, start_pool, min,
}

-- The sum of a weight over some runs, and over the runs that are executed.
abbrev pub total : (ℕ → ℕ) → List ℕ → ℕ
total weight [] = 0
total weight (run ∷ runs) = weight run + total weight runs

abbrev pub load : (ℕ → ℕ) → Worker → ℕ
load weight idle = 0
load weight ended = 0
load weight (executing run) = weight run

abbrev pub busy : (ℕ → ℕ) → List Worker → ℕ
busy weight [] = 0
busy weight (w ∷ workers) = load weight w + busy weight workers

total-append :
    (weight : ℕ → ℕ) (xs ys : List ℕ) → total weight (xs ++ ys) ≡ total weight xs + total weight ys
total-append weight [] ys = omega arith
total-append weight (x ∷ xs) ys = omega (arith, total-append weight xs ys)

busy-append :
    (weight : ℕ → ℕ) (xs ys : List Worker)
    → busy weight (xs ++ ys) ≡ busy weight xs + busy weight ys
busy-append weight [] ys = omega arith
busy-append weight (x ∷ xs) ys = omega (arith, busy-append weight xs ys)

advance_conserved :
    (weight : ℕ → ℕ) (stopped : Bool) (queue : List ℕ) (w : Worker)
    → total weight (advance stopped queue w).queue
        + load weight (advance stopped queue w).worker
        + total weight (done_list (advance stopped queue w).done)
      ≡ total weight queue + load weight w
unfolding advance
advance_conserved weight stopped queue (executing run) = omega arith
advance_conserved weight true queue idle = omega arith
advance_conserved weight false [] idle = omega arith
advance_conserved weight false (run ∷ queue) idle = omega arith
advance_conserved weight stopped queue ended = omega arith

-- Some worker has ended.
abbrev pub SomeEnded : List Worker → Type 0
SomeEnded [] = ⊥
SomeEnded (w ∷ workers) = (w ≡ ended) ⊎ SomeEnded workers

-- What holds of the workers that execute `runs`.
pub record IsConsistent (runs : List ℕ) (s : Pool) : Type 0 where
  pub conserved :
      (weight : ℕ → ℕ)
      → total weight s.queue + busy weight s.workers + total weight s.finished ≡ total weight runs
  pub counter : s.unfinished ≡ total (λ run. 1) s.queue + busy (λ run. 1) s.workers
  pub drained : s.stopped ≡ false → SomeEnded s.workers → s.queue ≡ []

conserved_step :
    (weight : ℕ → ℕ) (s : Pool) (before after : List Worker) (w : Worker)
    → s.workers ≡ before ++ w ∷ after
    → total weight (moved s before after (advance s.stopped s.queue w)).queue
        + busy weight (moved s before after (advance s.stopped s.queue w)).workers
        + total weight (moved s before after (advance s.stopped s.queue w)).finished
      ≡ total weight s.queue + busy weight s.workers + total weight s.finished
conserved_step weight s before after w e =
    let a = advance_conserved weight s.stopped s.queue w in
    let b = busy-append weight before (w ∷ after) in
    let c = busy-append weight before ((advance s.stopped s.queue w).worker ∷ after) in
    let d = total-append weight s.finished (done_list (advance s.stopped s.queue w).done) in
    let f = ap (busy weight) e in omega arith

-- The counter goes down with the runs that are in the queue or are executed.
advance_counter :
    (stopped : Bool) (queue : List ℕ) (w : Worker) (others unfinished : ℕ)
    → unfinished ≡ total (λ run. 1) queue + (others + load (λ run. 1) w)
    → run_finished unfinished (advance stopped queue w).done
      ≡ total (λ run. 1) (advance stopped queue w).queue
        + (others + load (λ run. 1) (advance stopped queue w).worker)
unfolding advance
advance_counter stopped queue (executing run) others unfinished h = omega arith
advance_counter true queue idle others unfinished h = h
advance_counter false [] idle others unfinished h = h
advance_counter false (run ∷ queue) idle others unfinished h = omega arith
advance_counter stopped queue ended others unfinished h = h

counter_step :
    (s : Pool) (before after : List Worker) (w : Worker)
    → s.workers ≡ before ++ w ∷ after
    → s.unfinished ≡ total (λ run. 1) s.queue + busy (λ run. 1) s.workers
    → (moved s before after (advance s.stopped s.queue w)).unfinished
      ≡ total (λ run. 1) (moved s before after (advance s.stopped s.queue w)).queue
        + busy (λ run. 1) (moved s before after (advance s.stopped s.queue w)).workers
counter_step s before after w e h =
    let b = busy-append (λ run. 1) before (w ∷ after) in
    let c = busy-append (λ run. 1) before ((advance s.stopped s.queue w).worker ∷ after) in
    let f = ap (busy (λ run. 1)) e in
    let d =
      advance_counter s.stopped s.queue w (busy (λ run. 1) before + busy (λ run. 1) after)
        s.unfinished (omega arith) in
    omega arith

SomeEnded-append :
    (before after : List Worker) (w : Worker)
    → SomeEnded (before ++ w ∷ after)
    → SomeEnded before ⊎ ((w ≡ ended) ⊎ SomeEnded after)
SomeEnded-append [] after w h = inr h
SomeEnded-append (x ∷ before) after w (inl e) = inl (inl e)
SomeEnded-append (x ∷ before) after w (inr h) = elim (SomeEnded-append before after w h) [
  | inl b ↦ inl (inr b)
  | inr c ↦ inr c
]

SomeEnded-within :
    (before after : List Worker) (w : Worker)
    → SomeEnded before ⊎ SomeEnded after
    → SomeEnded (before ++ w ∷ after)
SomeEnded-within [] after w (inl h) = absurd h
SomeEnded-within [] after w (inr h) = inr h
SomeEnded-within (x ∷ before) after w (inl (inl e)) = inl e
SomeEnded-within (x ∷ before) after w (inl (inr h)) = inr (SomeEnded-within before after w (inl h))
SomeEnded-within (x ∷ before) after w (inr h) = inr (SomeEnded-within before after w (inr h))

-- A worker takes nothing from an empty queue, and ends only if the queue is empty.
advance_drained :
    (queue : List ℕ) (w : Worker)
    → w ≢ ended
    → ((queue ≡ []) ⊎ ((advance false queue w).worker ≡ ended))
    → (advance false queue w).queue ≡ []
unfolding advance
advance_drained queue (executing run) live (inl e) = e
advance_drained queue (executing run) live (inr e) = absurd (idle≢ended e)
  where
    idle≢ended : ◌≡◌ {A = Worker} idle ended → ⊥
    idle≢ended h = cc
advance_drained [] idle live h = refl
advance_drained (run ∷ queue) idle live (inl e) = cc
advance_drained (run ∷ queue) idle live (inr e) = cc
advance_drained queue ended live h = absurd (live refl)

drained_step :
    (runs : List ℕ) (s : Pool) (before after : List Worker) (w : Worker)
    → IsConsistent runs s
    → s.workers ≡ before ++ w ∷ after
    → w ≢ ended
    → s.stopped ≡ false
    → SomeEnded (before ++ (advance s.stopped s.queue w).worker ∷ after)
    → (advance s.stopped s.queue w).queue ≡ []
drained_step runs s before after w ok e live running ends = rw running (
    advance_drained s.queue w live (
      either (
        SomeEnded-append before after (advance false s.queue w).worker (
          subst (λ (b : Bool). SomeEnded (before ++ (advance b s.queue w).worker ∷ after)) running
            ends))))
  where
    others : SomeEnded before ⊎ SomeEnded after → s.queue ≡ []
    others h = ok.drained running (subst SomeEnded (sym e) (SomeEnded-within before after w h))

    either :
        SomeEnded before ⊎ (((advance false s.queue w).worker ≡ ended) ⊎ SomeEnded after)
        → (s.queue ≡ []) ⊎ ((advance false s.queue w).worker ≡ ended)
    either (inl b) = inl (others (inl b))
    either (inr (inl itself)) = inr itself
    either (inr (inr a)) = inl (others (inr a))

Step-IsConsistent :
    (runs : List ℕ) (s u : Pool) → Step s u → IsConsistent runs s → IsConsistent runs u
Step-IsConsistent runs s u (work before after w e live same) ok =
    subst (IsConsistent runs) (sym same) (record {
      conserved = λ weight. conserved_step weight s before after w e ∙ ok.conserved weight;
      counter = counter_step s before after w e ok.counter;
      drained = λ running ends. drained_step runs s before after w ok e live running ends;
    })
Step-IsConsistent runs s u (interrupt running same) ok =
    subst (IsConsistent runs) (sym same) (record {
      conserved = ok.conserved;
      counter = ok.counter;
      drained = λ h ends. absurd (true≢false h);
    })
  where
    true≢false : true ≡ false → ⊥
    true≢false h = cc

pub Steps-IsConsistent :
    (runs : List ℕ) (s u : Pool) (n : ℕ) → Steps s n u → IsConsistent runs s → IsConsistent runs u
Steps-IsConsistent runs s u n here ok = ok
Steps-IsConsistent runs s u n (next {t = t} before step) ok =
    Step-IsConsistent runs t u step (Steps-IsConsistent runs s t _ before ok)

busy-replicate : (weight : ℕ → ℕ) (n : ℕ) → busy weight (replicate n idle) ≡ 0
busy-replicate weight zero = refl
busy-replicate weight (suc n) = omega (arith, busy-replicate weight n)

pub total-one : (runs : List ℕ) → total (λ run. 1) runs ≡ length runs
total-one [] = refl
total-one (x ∷ runs) = omega (arith, total-one runs)

none_ended : (n : ℕ) → SomeEnded (replicate n idle) → ⊥
none_ended zero h = h
none_ended (suc n) (inl e) = cc
none_ended (suc n) (inr h) = none_ended n h

pub start_pool-IsConsistent :
    (num_of_threads : ℕ) (runs : List ℕ) → IsConsistent runs (start_pool num_of_threads runs)
unfolding start_pool
start_pool-IsConsistent num_of_threads runs = record {
  conserved = λ weight. omega (arith, busy-replicate weight (min num_of_threads (length runs)));
  counter =
      let b = busy-replicate (λ run. 1) (min num_of_threads (length runs)) in
      let c = total-one runs in omega arith;
  drained = λ running ends. absurd (none_ended (min num_of_threads (length runs)) ends);
}
