-- ===== src/Db/Retry/Keeps.antt =====
-- src/db.rs, `query_retry` and `cmd_retry`: what the calls of the client library keep, a query keeps.
use yourfs.Base.{ℕ, zero, suc, true, false, none, some}
use yourfs.Base.Text.{Text}
use yourfs.Base.Outcome.{Outcome, ok, err}
use yourfs.Db.Pool.Threads.{Thread, outside, parked, woken, connecting, holding}
use yourfs.Db.Pool.{PoolState, try_get, release_slot, give_back}
use yourfs.Db.Retry.{
  Reply, rows, failed, Server, Ended, State, Round, replied, ended, overflow, connect, taken, get,
  drop_guard, query_with, round, finish, retry, query_retry,
}

module _ {W A : Type 0} (max : ℕ) (server : Server W A) (I : W → Type 0)
    (makes : (w : W) → I w → I (server.make w).1)
    (queries : (c : ℕ) (w : W) → I w → I (server.query c w).1) where
  connect-Keeps :
      (p : PoolState) (r : Outcome Text ℕ × W) → I r.1 → I (connect max server p r).1.world
  unfolding connect release_slot
  connect-Keeps p (ok c, w) h = h
  connect-Keeps p (err e, w) h =
      elim p.created
        as (λ n. I (connect max server (record p { created = n }) (err e, w)).1.world) [
          | zero ↦ h
          | suc n ↦ h
        ]

  taken-Keeps : (t : PoolState × Thread) (w : W) → I w → I (taken max server t w).1.world
  unfolding taken
  taken-Keeps (p, holding c bad) w h = h
  taken-Keeps (p, connecting) w h = connect-Keeps p (server.make w) (makes w h)
  taken-Keeps (p, parked) w h = h
  taken-Keeps (p, woken) w h = h
  taken-Keeps (p, outside) w h = h

  abbrev Held : Round A × State W → Type 0
  Held r = I r.1.world

  drop_guard-Keeps :
      (c : ℕ) (p : PoolState) (r : Reply A × W) → I r.1 → I (drop_guard max server c p r).1.world
  unfolding drop_guard
  drop_guard-Keeps c p (rows a, w) h =
      elim (give_back c false p)
        as (λ g. Held (elim g [
          | some q ↦ (replied (rows a), record { pool = q; world = w })
          | none ↦ (ended overflow, record { pool = p; world = w })
        ])) [ none ↦ h | some q ↦ h ]
  drop_guard-Keeps c p (failed io e, w) h =
      elim (give_back c io p)
        as (λ g. Held (elim g [
          | some q ↦ (replied (failed io e), record { pool = q; world = w })
          | none ↦ (ended overflow, record { pool = p; world = w })
        ])) [ none ↦ h | some q ↦ h ]

  query_with-Keeps :
      (r : Outcome (Ended A) ℕ × State W) → I r.1.world → I (query_with max server r).1.world
  unfolding query_with
  query_with-Keeps (ok c, s) h =
      drop_guard-Keeps c s.pool (server.query c s.world) (queries c s.world h)
  query_with-Keeps (err e, s) h = h

  round-Keeps : (s : State W) → I s.world → I (round max server s).1.world
  unfolding round get
  round-Keeps s h = query_with-Keeps (get max server s) (taken-Keeps (try_get max s.pool) s.world h)

  finish-Keeps : (r : Round A × State W) → I r.1.world → I (finish max server r).1.world
  unfolding finish
  finish-Keeps (replied (rows a), s) h = h
  finish-Keeps (replied (failed io e), s) h = h
  finish-Keeps (ended e, s) h = h

  retry-Keeps : (r : Round A × State W) → I r.1.world → I (retry max server r).1.world
  unfolding retry
  retry-Keeps (replied (rows a), s) h = h
  retry-Keeps (replied (failed true e), s) h = finish-Keeps (round max server s) (round-Keeps s h)
  retry-Keeps (replied (failed false e), s) h = h
  retry-Keeps (ended e, s) h = h

  -- A query keeps it, whatever it comes to, and so does a single round.
  pub query_retry-Keeps : (s : State W) → I s.world → I (query_retry max server s).1.world
  unfolding query_retry
  query_retry-Keeps s h = retry-Keeps (round max server s) (round-Keeps s h)

  pub once-Keeps : (s : State W) → I s.world → I (finish max server (round max server s)).1.world
  once-Keeps s h = finish-Keeps (round max server s) (round-Keeps s h)
