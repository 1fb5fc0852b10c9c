-- ===== src/Mutex/Cycle.antt =====
-- The way of a task through the queue: pushed, popped by a worker, answered, and the answer popped.
use tstracker.Base.{
  ℕ, ◌+◌, ◌^◌, ◌≤◌, ◌<◌, ◌≡◌, ◌≢◌, refl, ap, false, List, [], ◌∷◌, ◌++◌, All, arith,
}
use tstracker.Base.Int.{ℤ}
use tstracker.Mutex.{
  Task, Queue, success_loop, mutex_workqueue_pushsuccess, cancel_loop, mutex_workqueue_canceltask,
  same_sock,
}

-- The numbers that were given out are not beyond the last one.
abbrev pub IsNumbered : Queue → Type 0
IsNumbered q = All (λ t. t.taskid ≤ q.next_free) q.tasks × (q.next_free + 1 < 2 ^ 64)

module _ (id : ℕ) (t : Task) (mine : t.taskid ≡ id) (after : List Task) where
  success_loop-after :
      (before : List Task)
      → All (λ t. t.taskid ≢ id) before
      → success_loop id (before ++ t ∷ after) ≡ after
  unfolding success_loop
  success_loop-after [] a = ground (arith, mine)
  success_loop-after (b ∷ bs) a = ground (arith, a.0, success_loop-after bs a.1)

  -- What the report of success really does: with the task of the number go all tasks before it, and
  -- only those after it stay.
  pub pushsuccess-after :
      (next_free : ℕ) (before : List Task)
      → All (λ t. t.taskid ≢ id) before
      → mutex_workqueue_pushsuccess id
          (record { tasks = before ++ t ∷ after; next_free = next_free })
        ≡ record { tasks = after; next_free = next_free }
  unfolding mutex_workqueue_pushsuccess
  pushsuccess-after next_free before a =
      ap (λ ts. record { tasks = ts; next_free = next_free }) (success_loop-after before a)

module _ (sock : ℤ) where
  cancel_loop-none :
      (ts : List Task) → All (λ t. same_sock t.sock sock ≡ false) ts → cancel_loop sock ts ≡ []
  unfolding cancel_loop
  cancel_loop-none [] a = refl
  cancel_loop-none (t ∷ ts) a = ground (arith, a.0, cancel_loop-none ts a.1)

  -- What cancelling really does for a socket that has no task: it empties the queue.
  pub canceltask-none :
      (q : Queue)
      → All (λ t. same_sock t.sock sock ≡ false) q.tasks
      → (mutex_workqueue_canceltask sock q).tasks ≡ []
  unfolding mutex_workqueue_canceltask
  canceltask-none q a = cancel_loop-none q.tasks a
