-- ===== src/Tests/Threads.antt =====
-- Threads at the bucket locks, and tasks in the queue.
use tstracker.Base.{◌≡◌, refl, arith, [], ◌∷◌}
use tstracker.Base.Int.{pos}
use tstracker.Mutex.{
  Task, Queue, mutex_bucket_lock, bucket_check, bucket_push, is_locked, mutex_workqueue_pushsuccess,
}
use tstracker.Mutex.Exclusion.{
  System, Reaches, here, then_to, locks_it, start, Excludes, Reaches-Excludes,
}
use tstracker.Mutex.Cycle.{pushsuccess-after}

abbrev one_lock : System
one_lock = record {
  locks = record { locklist = 5 ∷ []; torrent_count = 0 };
  holds = record { thread = 1; bucket = 5 } ∷ [];
}

one_lock-Reaches : Reaches start one_lock
unfolding mutex_bucket_lock bucket_check bucket_push is_locked
one_lock-Reaches = then_to start one_lock here (locks_it start 1 5 one_lock.locks refl)

Reaches-Excludes_example : Excludes one_lock
Reaches-Excludes_example = Reaches-Excludes one_lock one_lock-Reaches

abbrev scraping : Task
scraping = record { taskid = 3; tasktype = 0x0200; sock = pos 8; iovec = [] }

abbrev counting : Task
counting = record { taskid = 4; tasktype = 0x0101; sock = pos 9; iovec = [] }

abbrev queue : Queue
queue = record { tasks = scraping ∷ counting ∷ []; next_free = 4 }

pushsuccess-after_example :
    mutex_workqueue_pushsuccess 4 queue ≡ record { tasks = []; next_free = 4 }
pushsuccess-after_example =
    pushsuccess-after 4 counting refl [] 4 (scraping ∷ []) (ground arith, tt)
