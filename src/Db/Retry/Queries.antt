-- ===== src/Db/Retry/Queries.antt =====
-- src/db.rs, `query_retry` and `cmd_retry`: a call runs its statement at most twice.
use yourfs.Base.{ℕ, ◌+◌, ◌≤◌, true, false, ◌≡◌, refl, ◌∙◌, arith, ◌⊎◌, inl, inr}
use yourfs.Base.Text.{Text}
use yourfs.Base.Outcome.{Outcome, ok, err}
use yourfs.Db.Pool.Threads.{Thread, outside, parked, woken, connecting, holding}
use yourfs.Db.Pool.{PoolState, try_get}
use yourfs.Db.Retry.{
  Reply, rows, failed, Server, Ended, State, Round, replied, ended, connect, taken, get, drop_guard,
  query_with, round, finish, retry, query_retry,
}

-- A count of the statements run: a query is one more, and to connect is none.
pub record Counts {W A : Type 0} (server : Server W A) (runs : W → ℕ) : Type 0 where
  pub makes : (w : W) → runs (server.make w).1 ≡ runs w
  pub queries : (c : ℕ) (w : W) → runs (server.query c w).1 ≡ runs w + 1

module _ {W A : Type 0} (max : ℕ) (server : Server W A) (runs : W → ℕ)
    (counts : Counts server runs) where
  connect-runs :
      (p : PoolState) (r : Outcome Text ℕ × W) → runs (connect max server p r).1.world ≡ runs r.1
  unfolding connect
  connect-runs p (ok c, w) = refl
  connect-runs p (err e, w) = ground arith

  taken-runs : (t : PoolState × Thread) (w : W) → runs (taken max server t w).1.world ≡ runs w
  unfolding taken
  taken-runs (p, holding c bad) w = refl
  taken-runs (p, connecting) w = connect-runs p (server.make w) ∙ counts.makes w
  taken-runs (p, parked) w = refl
  taken-runs (p, woken) w = refl
  taken-runs (p, outside) w = refl

  drop_guard-runs :
      (c : ℕ) (p : PoolState) (r : Reply A × W)
      → runs (drop_guard max server c p r).1.world ≡ runs r.1
  unfolding drop_guard
  drop_guard-runs c p (rows a, w) = ground arith
  drop_guard-runs c p (failed io e, w) = ground arith

  query_with-runs :
      (r : Outcome (Ended A) ℕ × State W)
      → runs (query_with max server r).1.world ≤ runs r.1.world + 1
  unfolding query_with
  query_with-runs (ok c, s) =
      omega (arith, drop_guard-runs c s.pool (server.query c s.world), counts.queries c s.world)
  query_with-runs (err e, s) = omega arith

  round-runs : (s : State W) → runs (round max server s).1.world ≤ runs s.world + 1
  unfolding round get
  round-runs s =
      omega (arith, query_with-runs (get max server s), taken-runs (try_get max s.pool) s.world)

  finish-runs : (r : Round A × State W) → runs (finish max server r).1.world ≡ runs r.1.world
  unfolding finish
  finish-runs (replied (rows a), s) = refl
  finish-runs (replied (failed io e), s) = refl
  finish-runs (ended e, s) = refl

  retry-runs : (r : Round A × State W) → runs (retry max server r).1.world ≤ runs r.1.world + 1
  unfolding retry
  retry-runs (replied (rows a), s) = omega arith
  retry-runs (replied (failed true e), s) =
      omega (arith, finish-runs (round max server s), round-runs s)
  retry-runs (replied (failed false e), s) = omega arith
  retry-runs (ended e, s) = omega arith

  -- A call of `query_retry` runs its statement at most twice.
  query_retry-runs : (s : State W) → runs (query_retry max server s).1.world ≤ runs s.world + 2
  unfolding query_retry
  query_retry-runs s = omega (arith, retry-runs (round max server s), round-runs s)

retry_cases :
    {W A : Type 0} (max : ℕ) (server : Server W A) (r : Round A × State W)
    → ((e : Text) × (t : State W) × (r ≡ (replied (failed true e), t))
        × (retry max server r ≡ finish max server (round max server t)))
      ⊎ (retry max server r ≡ finish max server r)
unfolding retry
retry_cases max server (replied (rows a), s) = inr refl
retry_cases max server (replied (failed true e), s) = inl (e, s, refl, refl)
retry_cases max server (replied (failed false e), s) = inr refl
retry_cases max server (ended e, s) = inr refl

-- A failure of the socket in the first round is not seen by the caller: the call comes to what the
-- second round comes to. Any other first round decides the call.
pub query_retry_cases :
    {W A : Type 0} (max : ℕ) (server : Server W A) (s : State W)
    → ((e : Text) × (t : State W) × (round max server s ≡ (replied (failed true e), t))
        × (query_retry max server s ≡ finish max server (round max server t)))
      ⊎ (query_retry max server s ≡ finish max server (round max server s))
unfolding query_retry
query_retry_cases max server s = retry_cases max server (round max server s)
