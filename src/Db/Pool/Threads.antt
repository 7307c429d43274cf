-- ===== src/Db/Pool/Threads.antt =====
-- src/db.rs, `Pool`: where a thread stands with respect to the pool, and how threads are counted.
use yourfs.Base.{count, ℕ, ◌+◌, Bool, List, [], ◌∷◌, ◌==◌, if◌then◌else◌}

-- `parked` waits in `Condvar::wait`; `woken` has left it and waits for the mutex; `connecting` runs
-- `make` outside the lock; `holding c bad` owns the guard of the connection `c`.
pub data Thread : Type 0 where
  outside parked woken connecting : Thread
  holding : ℕ → Bool → Thread

abbrev pub total : (Thread → ℕ) → List Thread → ℕ
total w [] = 0
total w (t ∷ ts) = w t + total w ts

abbrev pub is_parked : Thread → ℕ
is_parked parked = 1
is_parked outside = 0
is_parked woken = 0
is_parked connecting = 0
is_parked (holding c bad) = 0

abbrev pub is_woken : Thread → ℕ
is_woken woken = 1
is_woken outside = 0
is_woken parked = 0
is_woken connecting = 0
is_woken (holding c bad) = 0

-- The thread owns a slot of the pool.
abbrev pub is_live : Thread → ℕ
is_live connecting = 1
is_live (holding c bad) = 1
is_live outside = 0
is_live parked = 0
is_live woken = 0

abbrev pub has : ℕ → Thread → ℕ
has c (holding d bad) = if d == c then 1 else 0
has c outside = 0
has c parked = 0
has c woken = 0
has c connecting = 0

-- How often the connection is idle or held.
abbrev pub holds : ℕ → List ℕ → List Thread → ℕ
holds c idle threads = count c idle + total (has c) threads
