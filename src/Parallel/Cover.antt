-- ===== src/Parallel/Cover.antt =====
-- src/parallel.cpp: the calls of `WorkerPool::run` cover the indices once each, in order.
use adi.Base.{
  range, ℕ, zero, suc, ◌+◌, ◌-◌, ◌*◌, ◌/◌, ◌^◌, ◌≤◌, ◌<◌, ◌≡◌, refl, subst, ◌∙◌, Bool, ◌||◌, List,
  [], ◌∷◌, ◌++◌, ◌==◌, arith, Bool-cases, inl, inr, append-nil, append_assoc,
}
use mathlib.Core.List.{append_assoc}
use native.Mathlib.Nat.{
  mod-eq_of_lt, le-div_iff_mul-le, div-mul-le_self, mul-le-mul_left, mul-div_cancel, mul-zero,
  zero-div,
}
use adi.Parallel.{task_count_of, task_bound, queued, run, indices}

range-append : (a n m : ℕ) → range a (n + m) ≡ range a n ++ range (a + n) m
unfolding range
range-append a zero m =
    let e : a + 0 ≡ a = omega arith in let e' : 0 + m ≡ m = omega arith in rw (e, e')
range-append a (suc n) m =
    let e : a + suc n ≡ a + 1 + n = omega arith in
    let e' : suc n + m ≡ suc (n + m) = omega arith in rw (e', e, range-append (a + 1) n m)

-- Neighbouring intervals join.
range-join : (a b c : ℕ) → a ≤ b → b ≤ c → range a (b - a) ++ range b (c - b) ≡ range a (c - a)
range-join a b c h k =
    let split : c - a ≡ (b - a) + (c - b) = omega arith in
    let back : a + (b - a) ≡ b = omega arith in rw (split, range-append a (b - a) (c - b), back)

indices-append : (xs ys : List (ℕ × ℕ)) → indices (xs ++ ys) ≡ indices xs ++ indices ys
unfolding indices
indices-append [] ys = refl
indices-append ((b, e) ∷ xs) ys = rw (indices-append xs ys, append_assoc)

div_mono : (a b n : ℕ) → 0 < n → a ≤ b → a / n ≤ b / n
div_mono a b n p h =
    let below : a / n * n ≤ b = omega (arith, div-mul-le_self a n) in (le-div_iff_mul-le p).1 below

-- Without a wrap-around the bounds are the quotients themselves.
bound-eq :
    (count tasks task : ℕ)
    → count * tasks < 2 ^ 32
    → task ≤ tasks
    → task_bound count tasks task ≡ count * task / tasks
unfolding task_bound
bound-eq count tasks task h k =
    let below : count * task < 2 ^ 32 = omega (arith, mul-le-mul_left count k) in
    rw (mod-eq_of_lt below)

bound_mono :
    (count tasks task : ℕ)
    → 0 < tasks
    → count * tasks < 2 ^ 32
    → task + 1 ≤ tasks
    → task_bound count tasks task ≤ task_bound count tasks (task + 1)
bound_mono count tasks task p h k =
    let l : task ≤ tasks = omega arith in
    let less : task ≤ task + 1 = omega arith in
    rw (bound-eq count tasks task h l, bound-eq count tasks (task + 1) h k)
      (div_mono (count * task) (count * (task + 1)) tasks p (mul-le-mul_left count less))

queued-indices :
    (count tasks task remaining : ℕ)
    → 0 < tasks
    → count * tasks < 2 ^ 32
    → task + remaining ≤ tasks
    → (task_bound count tasks task ≤ task_bound count tasks (task + remaining))
      × (indices (queued count tasks task remaining)
          ≡ range
              (task_bound count tasks task)
              (task_bound count tasks (task + remaining) - task_bound count tasks task))
unfolding indices queued range
queued-indices count tasks task zero p h k =
    let e : task + 0 ≡ task = omega arith in
    rw e (
      let z : task_bound count tasks task - task_bound count tasks task ≡ 0 = omega arith in
      (omega arith, rw z))
queued-indices count tasks task (suc remaining) p h k =
    let e : task + suc remaining ≡ task + 1 + remaining = omega arith in
    let k1 : task + 1 ≤ tasks = omega arith in
    let k2 : task + 1 + remaining ≤ tasks = omega arith in
    let (below, rest) = queued-indices count tasks (task + 1) remaining p h k2 in
    let first : task_bound count tasks task ≤ task_bound count tasks (task + 1) =
      bound_mono count tasks task p h k1 in
    rw e (
      omega arith,
      rw rest (
          range-join (task_bound count tasks task) (task_bound count tasks (task + 1))
            (task_bound count tasks (task + 1 + remaining)) first below),
    )

indices-single : (a b : ℕ) → indices ((a, b) ∷ []) ≡ range a (b - a)
unfolding indices
indices-single a b = append-nil (range a (b - a))

task_count-positive :
    (threads count minimum_per_worker : ℕ)
    → 0 < threads
    → 0 < task_count_of threads count minimum_per_worker
unfolding task_count_of
task_count-positive threads count minimum_per_worker p = omega arith

range-whole : (count : ℕ) → range 0 (count - 0) ≡ range 0 count
range-whole count = let e : count - 0 ≡ count = omega arith in rw e

-- The queued tasks and the caller's own.
several-indices :
    (count tasks : ℕ)
    → 0 < tasks
    → count * tasks < 2 ^ 32
    → indices (queued count tasks 0 (tasks - 1) ++ (task_bound count tasks (tasks - 1), count) ∷ [])
      ≡ range 0 count
several-indices count tasks p h =
    let k : 0 + (tasks - 1) ≤ tasks = omega arith in
    let l : tasks - 1 ≤ tasks = omega arith in
    let reached : count * (tasks - 1) / tasks ≤ count =
      subst (λ bound. count * (tasks - 1) / tasks ≤ bound) (mul-div_cancel count p)
        (div_mono (count * (tasks - 1)) (count * tasks) tasks p (mul-le-mul_left count l)) in
    let last : task_bound count tasks (tasks - 1) ≤ count =
      omega (arith, reached, bound-eq count tasks (tasks - 1) h l) in
    let start : task_bound count tasks 0 ≡ 0 =
      bound-eq count tasks 0 h (omega arith) ∙ rw (mul-zero, zero-div) in
    let (below, covered) = queued-indices count tasks 0 (tasks - 1) p h k in
    let e : 0 + (tasks - 1) ≡ tasks - 1 = omega arith in
    rw (indices-append, covered, indices-single, e, start)
      (range-join 0 (task_bound count tasks (tasks - 1)) count (omega arith) last
        ∙ range-whole count)

-- With at least one thread, and where the number of indices times the number of tasks does not
-- exceed 32 bits, the calls of `run` cover the indices from 0 to `count`, each once and in order.
pub run-indices :
    (threads : ℕ) (worker_thread : Bool) (count minimum_per_worker : ℕ)
    → 0 < threads
    → count * task_count_of threads count minimum_per_worker < 2 ^ 32
    → indices (run threads worker_thread count minimum_per_worker) ≡ range 0 count
unfolding run
run-indices threads worker_thread count minimum_per_worker p h = elim (Bool-cases (count == 0)) [
  | inl e ↦
      let none_left : count ≡ 0 = ground arith in
      rw e (rw none_left (unfold indices in unfold range in refl))
  | inr e ↦
      elim (Bool-cases (task_count_of threads count minimum_per_worker == 1 || worker_thread)) [
        | inl one ↦ rw (e, one) (indices-single 0 count ∙ range-whole count)
        | inr several ↦
            rw (e, several)
              (several-indices count (task_count_of threads count minimum_per_worker)
                (task_count-positive threads count minimum_per_worker p) h)
      ]
]
