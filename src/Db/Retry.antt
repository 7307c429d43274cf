-- ===== src/Db/Retry.antt =====
-- src/db.rs, `PgDb::query_retry` and `RedisDb::cmd_retry`: one query on a pooled connection, with
-- one retry. The two functions have the same body. The thread runs alone here: what the server and
-- the network do is the state `W` of a parameter, and a wait for another thread is a result.
pub mod Slots
pub mod Queries
pub mod Answers
pub mod Keeps
pub mod Lone
use yourfs.Base.{ℕ, Bool, true, false, List, Option, none, some, if◌then◌else◌}
use yourfs.Base.Text.{Text}
use yourfs.Base.Outcome.{Outcome, ok, err}
use yourfs.Db.Pool.Threads.{Thread, outside, parked, woken, connecting, holding}
use yourfs.Db.Pool.{PoolState, try_get, release_slot, give_back}

-- `io` says that the failure was one of the socket, and not the server's reply.
pub data Reply (A : Type 0) : Type 0 where
  rows : A → Reply A
  failed : Bool → Text → Reply A

-- The client library: `make` connects, `query` runs the statement at hand.
pub record Server (W A : Type 0) : Type 0 where
  pub make : W → Outcome Text ℕ × W
  pub query : ℕ → W → Reply A × W

-- What a call comes to: an answer, an error, a wait for another thread, or the overflow of
-- `created`.
pub data Ended (A : Type 0) : Type 0 where
  answer : A → Ended A
  error : Text → Ended A
  waits overflow : Ended A

-- The pool and the world outside.
pub record State (W : Type 0) : Type 0 where
  pub pool : PoolState
  pub world : W

-- One round of the loop: the connection it had, if any, is back in the pool or discarded.
pub data Round (A : Type 0) : Type 0 where
  replied : Reply A → Round A
  ended : Ended A → Round A

module _ {W A : Type 0} (max : ℕ) (server : Server W A) where
  -- The end of `get` after `make`.
  connect : PoolState → Outcome Text ℕ × W → Outcome (Ended A) ℕ × State W
  connect p (ok c, w) = (ok c, record { pool = p; world = w })
  connect p (err e, w) = elim (release_slot p) [
    | some q ↦ (err (error e), record { pool = q; world = w })
    | none ↦ (err overflow, record { pool = p; world = w })
  ]

  taken : PoolState × Thread → W → Outcome (Ended A) ℕ × State W
  unfolding connect
  taken (p, holding c bad) w = (ok c, record { pool = p; world = w })
  taken (p, connecting) w = connect p (server.make w)
  taken (p, parked) w = (err waits, record { pool = p; world = w })
  taken (p, woken) w = (err waits, record { pool = p; world = w })
  taken (p, outside) w = (err waits, record { pool = p; world = w })

  -- `Pool::get`, for a thread that is not woken while it runs.
  unfoldable pub get : State W → Outcome (Ended A) ℕ × State W
  unfolding taken
  get s = taken (try_get max s.pool) s.world

  -- The reply, the state after it, and the guard dropped.
  drop_guard : ℕ → PoolState → Reply A × W → Round A × State W
  drop_guard c p (rows a, w) = elim (give_back c false p) [
    | some q ↦ (replied (rows a), record { pool = q; world = w })
    | none ↦ (ended overflow, record { pool = p; world = w })
  ]
  drop_guard c p (failed io e, w) = elim (give_back c io p) [
    | some q ↦ (replied (failed io e), record { pool = q; world = w })
    | none ↦ (ended overflow, record { pool = p; world = w })
  ]

  query_with : Outcome (Ended A) ℕ × State W → Round A × State W
  unfolding drop_guard
  query_with (ok c, s) = drop_guard c s.pool (server.query c s.world)
  query_with (err e, s) = (ended e, s)

  unfoldable pub round : State W → Round A × State W
  unfolding query_with
  round s = query_with (get s)

  -- The end of a round with `retried` set: an error is returned.
  unfoldable pub finish : Round A × State W → Ended A × State W
  finish (replied (rows a), s) = (answer a, s)
  finish (replied (failed io e), s) = (error e, s)
  finish (ended r, s) = (r, s)

  -- The end of the first round: a failure of the socket starts the second.
  retry : Round A × State W → Ended A × State W
  unfolding finish
  retry (replied (rows a), s) = (answer a, s)
  retry (replied (failed true e), s) = finish (round s)
  retry (replied (failed false e), s) = (error e, s)
  retry (ended r, s) = (r, s)

  unfoldable pub query_retry : State W → Ended A × State W
  unfolding retry
  query_retry s = retry (round s)
