-- ===== src/Parallel.antt =====
-- src/parallel.cpp: how `WorkerPool::run` divides the indices among its tasks. The threads that run
-- the tasks, and the exceptions that they hand on, are left out.
pub mod Cover
use adi.Base.{
  ◌||◌, min, max, range, ℕ, zero, suc, ◌+◌, ◌-◌, ◌*◌, ◌/◌, ◌%◌, ◌^◌, ◌<◌, Bool, List, [], ◌∷◌, ◌++◌,
  ◌==◌, if◌then◌else◌,
}
use adi.Base.Result.{◌>>=◌, ◌>>◌}

abbrev pub wrap : ℕ → ℕ
wrap n = n % 2 ^ 32

unfoldable pub task_count_of : ℕ → ℕ → ℕ → ℕ
task_count_of threads count minimum_per_worker =
    min threads (max 1 (count / max 1 minimum_per_worker))

-- `count * task / task_count`
unfoldable pub task_bound : ℕ → ℕ → ℕ → ℕ
task_bound count task_count task = wrap (count * task) / task_count

-- The tasks that are enqueued, from `task` on; `remaining` is how many.
pub queued : ℕ → ℕ → ℕ → ℕ → List (ℕ × ℕ)
queued count task_count task zero = []
queued count task_count task (suc remaining) =
    (task_bound count task_count task, task_bound count task_count (task + 1))
    ∷ queued count task_count (task + 1) remaining

-- The pairs (begin, end) that the function is called with, the caller's own last.
pub run : ℕ → Bool → ℕ → ℕ → List (ℕ × ℕ)
run threads worker_thread count minimum_per_worker =
    let task_count = task_count_of threads count minimum_per_worker in
    if count == 0
    then []
    else if task_count == 1 || worker_thread
    then (0, count) ∷ []
    else queued count task_count 0 (task_count - 1)
      ++ (task_bound count task_count (task_count - 1), count) ∷ []

-- The indices that one call covers, `for (index = begin; index < end; ++index)`.
pub indices : List (ℕ × ℕ) → List ℕ
indices [] = []
indices ((begin, end) ∷ calls) = range begin (end - begin) ++ indices calls
