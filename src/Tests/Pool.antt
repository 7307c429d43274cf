-- ===== src/Tests/Pool.antt =====
-- Tests of the connection pool of src/db.rs.
use yourfs.Base.{
  count, ℕ, ◌+◌, ◌≤◌, Bool, false, List, [], ◌∷◌, some, length, get_elem?, ◌≡◌, refl, inl,
}
use yourfs.Db.Pool.Threads.{Thread, outside, parked, connecting, holding, total, is_live}
use yourfs.Db.Pool.Safety.{fresh, capacity, created-accounted, holding-exclusive, parked-exhausted}
use yourfs.Db.Pool.{System, new_pool, try_get, Step, attempt, connected, Reach, here, next}

-- A pool of one connection and two threads: the first is served, and the second waits.
abbrev state : ℕ → List Thread → System
state created threads = record {
  max = 1;
  pool = record { idle = []; created = created };
  threads = threads;
}

fresh_start : state 0 (outside ∷ outside ∷ []) ≡ fresh 0 2
unfolding new_pool
fresh_start = refl

first_attempt : Step (fresh 0 2) (state 1 (connecting ∷ outside ∷ []))
unfolding new_pool try_get
first_attempt = attempt 0 (inl refl) refl

first_connected :
    Step (state 1 (connecting ∷ outside ∷ [])) (state 1 (holding 7 false ∷ outside ∷ []))
first_connected = connected 0 7 refl refl refl

second_attempt :
    Step (state 1 (holding 7 false ∷ outside ∷ [])) (state 1 (holding 7 false ∷ parked ∷ []))
unfolding try_get
second_attempt = attempt 1 (inl refl) refl

abbrev contended : System
contended = state 1 (holding 7 false ∷ parked ∷ [])

contended-Reach : Reach (fresh 0 2) contended
contended-Reach = next (next (next here first_attempt) first_connected) second_attempt

created-accounted_example :
    (contended.pool.created ≡ length contended.pool.idle + total is_live contended.threads)
    × (contended.pool.created ≤ capacity 0)
created-accounted_example = created-accounted 0 2 contended-Reach

holding-exclusive_example :
    (count 7 contended.pool.idle ≡ 0)
    × ((j : ℕ) (other : Bool)
        → get_elem? contended.threads j ≡ some (holding 7 other)
        → ◌≡◌ {A = ℕ} 0 j)
holding-exclusive_example = holding-exclusive 0 2 0 7 false contended-Reach refl

parked-exhausted_example :
    (length contended.pool.idle ≡ 0) × (total is_live contended.threads ≡ capacity 0)
parked-exhausted_example = parked-exhausted 0 2 1 contended-Reach refl refl
