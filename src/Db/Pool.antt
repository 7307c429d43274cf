-- ===== src/Db/Pool.antt =====
-- src/db.rs, `Pool` and `Pooled`: the connection pool, as the steps of the threads that share it.
-- Each critical section of the mutex is one step. Connections are numbers; the last element of the
-- source's `Vec` is the head of `idle`.
pub mod Counts
pub mod Invariant
pub mod Safety
pub mod Threads
use yourfs.Base.{
  ℕ, zero, suc, ◌<◌, Bool, true, false, List, [], ◌∷◌, Option, none, some, ltb, leb, if◌then◌else◌,
  get_elem?, set, ◌≡◌, ◌⊎◌,
}
use yourfs.Db.Pool.Threads.{
  Thread, outside, parked, woken, connecting, holding, total, is_parked, holds,
}

pub record PoolState : Type 0 where
  pub idle : List ℕ
  pub created : ℕ

pub record System : Type 0 where
  pub max : ℕ
  pub pool : PoolState
  pub threads : List Thread

-- `Pool::new`, with its threads outside of every call.
unfoldable pub new_pool : ℕ → List Thread → System
new_pool max threads = record {
  max = if leb 1 max then max else 1;
  pool = record { idle = []; created = 0 };
  threads = threads;
}

-- One round of the loop in `get`, up to the connection, the wait or the start of `make`.
unfoldable pub try_get : ℕ → PoolState → PoolState × Thread
try_get max s = elim s.idle [
  | c ∷ rest ↦ (record s { idle = rest }, holding c false)
  | [] ↦
      if ltb s.created max then (record s { created = suc s.created }, connecting) else (s, parked)
]

-- `created -= 1`; `none` is the overflow of `usize`.
unfoldable pub release_slot : PoolState → Option PoolState
release_slot s = elim s.created [ zero ↦ none | suc n ↦ some (record s { created = n }) ]

-- `put`, less the notification.
unfoldable pub put : ℕ → PoolState → PoolState
put c s = record s { idle = c ∷ s.idle }

-- `Pooled::drop`: a connection marked bad frees its slot, any other goes back.
unfoldable pub give_back : ℕ → Bool → PoolState → Option PoolState
unfolding put release_slot
give_back c bad s = if bad then release_slot s else some (put c s)

-- `Condvar::notify_one`: one parked thread is woken, if there is one.
pub data Notify (before after : List Thread) : Type 0 where
  nobody : total is_parked before ≡ 0 → after ≡ before → Notify before after
  wakes :
      (i : ℕ) → get_elem? before i ≡ some parked → after ≡ set before i woken → Notify before after

-- The steps of the thread `i`.
pub data Step (s t : System) : Type 0 where
  -- It takes the lock, on entry to `get` or after a wait.
  attempt :
      (i : ℕ)
      → (get_elem? s.threads i ≡ some outside) ⊎ (get_elem? s.threads i ≡ some woken)
      → t ≡ record s {
        pool = (try_get s.max s.pool).0;
        threads = set s.threads i (try_get s.max s.pool).1;
      }
      → Step s t
  -- `make` gives a connection that no one has.
  connected :
      (i c : ℕ)
      → get_elem? s.threads i ≡ some connecting
      → holds c s.pool.idle s.threads ≡ 0
      → t ≡ record s { threads = set s.threads i (holding c false) }
      → Step s t
  -- `make` fails.
  refused :
      (i : ℕ) (p : PoolState) (after : List Thread)
      → get_elem? s.threads i ≡ some connecting
      → release_slot s.pool ≡ some p
      → Notify (set s.threads i outside) after
      → t ≡ record s { pool = p; threads = after }
      → Step s t
  -- `mark_bad`.
  marked :
      (i c : ℕ) (bad : Bool)
      → get_elem? s.threads i ≡ some (holding c bad)
      → t ≡ record s { threads = set s.threads i (holding c true) }
      → Step s t
  -- The guard is dropped.
  dropped :
      (i c : ℕ) (bad : Bool) (p : PoolState) (after : List Thread)
      → get_elem? s.threads i ≡ some (holding c bad)
      → give_back c bad s.pool ≡ some p
      → Notify (set s.threads i outside) after
      → t ≡ record s { pool = p; threads = after }
      → Step s t
  -- A wait may end with no notification.
  spurious :
      (i : ℕ)
      → get_elem? s.threads i ≡ some parked
      → t ≡ record s { threads = set s.threads i woken }
      → Step s t

pub data Reach (s : System) : System → Type 0 where
  here : Reach s s
  next : {t u : System} → Reach s t → Step t u → Reach s u
