-- ===== src/LocalExecution.antt =====
-- The workers that execute the runs of a run set: _execute_run_set and _Worker of
-- benchexec/localexecution.py. A run is its number.
pub mod Conserved
pub mod Finished
pub mod Ending
pub mod Requested
mod Granted
mod Tests
use benchexec.Prelude.{
  ℕ, zero, suc, ◌+◌, ◌-◌, ◌≡◌, ◌≢◌, Bool, true, false, Option, none, some, List, [], ◌∷◌, ◌++◌,
  length, replicate, if◌then◌else◌, leb,
}

-- Where a worker is: at the test of its loop, in the execution of a run, or at its end.
pub data Worker : Type 0 where
  idle ended : Worker
  executing : ℕ → Worker

-- What one worker does next: where it is then, the queue that it leaves, and the run for which it
-- calls run_finished_callback.
pub record Advance : Type 0 where
  pub worker : Worker
  pub queue : List ℕ
  pub done : Option ℕ

-- _Worker.run; an exception in the execution of a run is only logged.
unfoldable pub advance : Bool → List ℕ → Worker → Advance
advance stopped queue (executing run) = record { worker = idle; queue = queue; done = some run }
advance true queue idle = record { worker = ended; queue = queue; done = none }
advance false [] idle = record { worker = ended; queue = []; done = none }
advance false (run ∷ queue) idle = record { worker = executing run; queue = queue; done = none }
advance stopped queue ended = record { worker = ended; queue = queue; done = none }

-- The queue, the workers, the runs for which the callback was called, in order, the counter of
-- unfinished runs, and STOPPED_BY_INTERRUPT.
pub record Pool : Type 0 where
  pub queue : List ℕ
  pub workers : List Worker
  pub finished : List ℕ
  pub unfinished : ℕ
  pub stopped : Bool

abbrev pub done_list : Option ℕ → List ℕ
done_list none = []
done_list (some run) = run ∷ []

-- run_finished
abbrev pub run_finished : ℕ → Option ℕ → ℕ
run_finished unfinished none = unfinished
run_finished unfinished (some run) = unfinished - 1

abbrev pub moved : Pool → List Worker → List Worker → Advance → Pool
moved s before after a = record {
  queue = a.queue;
  workers = before ++ a.worker ∷ after;
  finished = s.finished ++ done_list a.done;
  unfinished = run_finished s.unfinished a.done;
  stopped = s.stopped;
}

-- One worker goes on, in any order, or the program is interrupted.
pub data Step (s u : Pool) : Type 0 where
  work :
      (before after : List Worker) (w : Worker)
      → s.workers ≡ before ++ w ∷ after
      → w ≢ ended
      → u ≡ moved s before after (advance s.stopped s.queue w)
      → Step s u
  interrupt : s.stopped ≡ false → u ≡ record s { stopped = true } → Step s u

-- A number of steps.
pub data Steps (s : Pool) : ℕ → Pool → Type 0 where
  here : Steps s zero s
  next : {n : ℕ} {t u : Pool} → Steps s n t → Step t u → Steps s (suc n) u

abbrev pub min : ℕ → ℕ → ℕ
min a b = if leb a b then a else b

-- _execute_run_set: all runs are in the queue before the workers start. Where the program is
-- interrupted before all workers are created, the others would have ended at once.
unfoldable pub start_pool : ℕ → List ℕ → Pool
start_pool num_of_threads runs = record {
  queue = runs;
  workers = replicate (min num_of_threads (length runs)) idle;
  finished = [];
  unfinished = length runs;
  stopped = false;
}
