-- ===== src/Mutex.antt =====
-- src/opentracker/ot_mutex.c: the list of locked buckets and the queue of tasks. Each operation runs
-- under a pthread mutex, so it is one step; waiting on a condition is a step that cannot be taken.
pub mod Exclusion
pub mod Cycle
use tstracker.Base.{
  ℕ, zero, suc, ◌+◌, ◌-◌, ◌*◌, ◌/◌, ◌^◌, Bool, true, false, not, ◌&&◌, Option, none, some, List, [],
  ◌∷◌, ◌++◌, length, bit_and, u64, ◌==◌, if◌then◌else◌,
}
use tstracker.Base.Int.{ℤ, pos, negsuc, pos_part, neg_part}

abbrev pub max_threads : ℕ
max_threads = 16

-- `uint32_read_big( hash ) >> OT_BUCKET_COUNT_SHIFT`, of the first four bytes of a hash.
abbrev pub bucket_of_hash : List ℕ → Option ℕ
bucket_of_hash (a ∷ b ∷ c ∷ d ∷ _) = some ((a * 2 ^ 24 + b * 2 ^ 16 + c * 2 ^ 8 + d) / 2 ^ 22)
bucket_of_hash _ = none

-- `bucket_locklist` up to its count, and `g_torrent_count`.
pub record Locks : Type 0 where
  pub locklist : List ℕ
  pub torrent_count : ℕ

unfoldable pub is_locked : ℕ → List ℕ → Bool
is_locked bucket [] = false
is_locked bucket (b ∷ bs) = let rest = is_locked bucket bs in if b == bucket then true else rest

-- If `bucket_check` returns 0.
unfoldable pub bucket_check : ℕ → Locks → Bool
bucket_check bucket s =
    if length s.locklist == max_threads then false else not (is_locked bucket s.locklist)

unfoldable pub bucket_push : ℕ → Locks → Locks
bucket_push bucket s = record s { locklist = s.locklist ++ bucket ∷ [] }

-- The search for the bucket, and the moving down of what stands after it.
unfoldable pub remove_loop : ℕ → List ℕ → List ℕ
remove_loop bucket [] = []
remove_loop bucket (b ∷ bs) =
    let rest = remove_loop bucket bs in if b == bucket then bs else b ∷ rest

unfoldable pub bucket_remove : ℕ → Locks → Locks
bucket_remove bucket s = record s { locklist = remove_loop bucket s.locklist }

-- An `int` added to a `size_t`.
abbrev pub add_delta : ℕ → ℤ → ℕ
add_delta n (pos d) = u64 (n + d)
add_delta n (negsuc d) = u64 (n + (2 ^ 64 * suc d - suc d))

-- `none` while the caller waits for a bucket to be unlocked.
unfoldable pub mutex_bucket_lock : ℕ → Locks → Option Locks
mutex_bucket_lock bucket s = if bucket_check bucket s then some (bucket_push bucket s) else none

unfoldable pub mutex_bucket_unlock : ℕ → ℤ → Locks → Locks
mutex_bucket_unlock bucket delta s =
    let t = bucket_remove bucket s in record t { torrent_count = add_delta t.torrent_count delta }

pub record Task : Type 0 where
  pub taskid : ℕ
  pub tasktype : ℕ
  pub sock : ℤ
  pub iovec : List (List ℕ)  -- what its entries hold

-- The list from `tasklist` on, and `next_free_taskid`.
pub record Queue : Type 0 where
  pub tasks : List Task
  pub next_free : ℕ

abbrev pub task_class_mask : ℕ
task_class_mask = 0x0f00

abbrev pub task_done : ℕ
task_done = 0x0f00

abbrev pub same_sock : ℤ → ℤ → Bool
same_sock a b = (pos_part a == pos_part b) && (neg_part a == neg_part b)

-- `malloc_ok` tells if there is memory for the task.
unfoldable pub mutex_workqueue_pushtask : Bool → ℤ → ℕ → Queue → ℤ × Queue
mutex_workqueue_pushtask malloc_ok sock tasktype q =
    if malloc_ok
    then (
      pos 0,
      record q {
        tasks = q.tasks ++ record { taskid = 0; tasktype = tasktype; sock = sock; iovec = [] } ∷ [];
      },
    )
    else (negsuc 0, q)

-- The loop stores each next task in the head of the list, so what it passes is lost.
unfoldable pub cancel_loop : ℤ → List Task → List Task
cancel_loop sock [] = []
cancel_loop sock (t ∷ ts) =
    let rest = cancel_loop sock ts in if same_sock t.sock sock then ts else rest

unfoldable pub mutex_workqueue_canceltask : ℤ → Queue → Queue
mutex_workqueue_canceltask sock q = record q { tasks = cancel_loop sock q.tasks }

abbrev pub is_waiting : ℕ → Task → Bool
is_waiting class t = (bit_and task_class_mask t.tasktype == class) && (t.taskid == 0)

-- The first waiting task of the class gets the number; its type.
unfoldable pub assign_loop : ℕ → ℕ → List Task → Option (ℕ × List Task)
assign_loop class id [] = none
assign_loop class id (t ∷ ts) =
    let rest : Option (ℕ × List Task) = elim (assign_loop class id ts) [
      | none ↦ none
      | some (tasktype, us) ↦ some (tasktype, t ∷ us)
    ] in
    if is_waiting class t then some (t.tasktype, record t { taskid = id } ∷ ts) else rest

-- The number and type of a task, or `none` while there is none to do.
unfoldable pub mutex_workqueue_poptask : ℕ → Queue → Option (ℕ × ℕ × Queue)
mutex_workqueue_poptask class q =
    let id = u64 (q.next_free + 1) in
    elim (assign_loop class id q.tasks) [
      | none ↦ none
      | some (tasktype, ts) ↦ some (id, tasktype, record { tasks = ts; next_free = id })
    ]

-- As in `cancel_loop`, what the loop passes is lost.
unfoldable pub success_loop : ℕ → List Task → List Task
success_loop id [] = []
success_loop id (t ∷ ts) = let rest = success_loop id ts in if t.taskid == id then ts else rest

unfoldable pub mutex_workqueue_pushsuccess : ℕ → Queue → Queue
mutex_workqueue_pushsuccess id q = record q { tasks = success_loop id q.tasks }

unfoldable pub result_loop : ℕ → List (List ℕ) → List Task → Option (List Task)
result_loop id iovec [] = none
result_loop id iovec (t ∷ ts) =
    let rest : Option (List Task) = elim (result_loop id iovec ts) [
      | none ↦ none
      | some us ↦ some (t ∷ us)
    ] in
    if t.taskid == id then some (record t { iovec = iovec; tasktype = task_done } ∷ ts) else rest

unfoldable pub mutex_workqueue_pushresult : ℕ → List (List ℕ) → Queue → ℤ × Queue
mutex_workqueue_pushresult id iovec q = elim (result_loop id iovec q.tasks) [
  | none ↦ (negsuc 0, q)
  | some ts ↦ (pos 0, record q { tasks = ts })
]

unfoldable pub done_loop : List Task → Option (Task × List Task)
done_loop [] = none
done_loop (t ∷ ts) =
    let rest : Option (Task × List Task) = elim (done_loop ts) [
      | none ↦ none
      | some (u, us) ↦ some (u, t ∷ us)
    ] in
    if t.tasktype == task_done then some (t, ts) else rest

-- The socket, and the result if there is one; the socket is -1 if there is not.
unfoldable pub mutex_workqueue_popresult : Queue → ℤ × List (List ℕ) × Queue
mutex_workqueue_popresult q = elim (done_loop q.tasks) [
  | none ↦ (negsuc 0, [], q)
  | some (t, ts) ↦ (t.sock, t.iovec, record q { tasks = ts })
]
