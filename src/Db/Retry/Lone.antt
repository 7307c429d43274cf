-- ===== src/Db/Retry/Lone.antt =====
-- src/db.rs, `query_retry` and `cmd_retry`: a thread that is alone never waits for a connection.
use yourfs.Base.{
  none, some, ℕ, zero, suc, ◌+◌, ◌<◌, true, false, List, [], ◌∷◌, ltb, length, ◌≡◌, ◌≢◌, arith,
}
use yourfs.Base.Text.{Text}
use yourfs.Base.Outcome.{Outcome, ok, err}
use yourfs.Db.Pool.{PoolState, try_get, release_slot, give_back}
use yourfs.Db.Retry.{
  Reply, rows, failed, Server, Ended, waits, overflow, State, Round, replied, ended, connect, taken,
  get, drop_guard, query_with, round, finish, retry, query_retry,
}
use yourfs.Db.Retry.Slots.{Balanced, query_retry-Balanced, round-Balanced, once-Balanced}

module _ {W A : Type 0} (max : ℕ) (server : Server W A) (positive : 0 < max) where
  -- No other thread holds a slot.
  abbrev pub Lone : State W → Type 0
  Lone s = Balanced max 0 server s

  abbrev Ready : Outcome (Ended A) ℕ × State W → Type 0
  Ready (ok c, s) = Unit {0}
  Ready (err e, s) = e ≢ waits

  connect-Ready : (p : PoolState) (r : Outcome Text ℕ × W) → Ready (connect max server p r)
  unfolding connect release_slot
  connect-Ready p (ok c, v) = tt
  connect-Ready p (err e, v) =
      elim p.created as (λ n. Ready (connect max server (record p { created = n }) (err e, v))) [
        | zero ↦ λ o. cc
        | suc n ↦ λ o. cc
      ]

  get-Ready :
      (idle : List ℕ) (created : ℕ) (w : W)
      → created ≡ length idle + 0
      → Ready
          (get max server (record { pool = record { idle = idle; created = created }; world = w }))
  unfolding get try_get taken
  get-Ready (c ∷ idle) created w b = tt
  get-Ready [] created w b =
      let l : ltb created max ≡ true = ground arith in
      rw l (connect-Ready (record { idle = []; created = suc created }) (server.make w))

  abbrev Moves : Round A × State W → Type 0
  Moves (replied r, s) = Unit {0}
  Moves (ended e, s) = e ≢ waits

  drop_guard-Moves : (c : ℕ) (p : PoolState) (r : Reply A × W) → Moves (drop_guard max server c p r)
  unfolding drop_guard
  drop_guard-Moves c p (rows a, w) =
      elim (give_back c false p)
        as (λ g. Moves (elim g [
          | some q ↦ (replied (rows a), record { pool = q; world = w })
          | none ↦ (ended overflow, record { pool = p; world = w })
        ])) [ none ↦ λ o. cc | some q ↦ tt ]
  drop_guard-Moves c p (failed io e, w) =
      elim (give_back c io p)
        as (λ g. Moves (elim g [
          | some q ↦ (replied (failed io e), record { pool = q; world = w })
          | none ↦ (ended overflow, record { pool = p; world = w })
        ])) [ none ↦ λ o. cc | some q ↦ tt ]

  query_with-Moves : (r : Outcome (Ended A) ℕ × State W) → Ready r → Moves (query_with max server r)
  unfolding query_with
  query_with-Moves (ok c, s) h = drop_guard-Moves c s.pool (server.query c s.world)
  query_with-Moves (err e, s) h = h

  round-Moves : (s : State W) → Lone s → Moves (round max server s)
  unfolding round
  round-Moves s b =
      query_with-Moves (get max server s) (get-Ready s.pool.idle s.pool.created s.world b)

  finish-waits : (r : Round A × State W) → Moves r → (finish max server r).0 ≢ waits
  unfolding finish
  finish-waits (replied (rows a), s) h = λ o. cc
  finish-waits (replied (failed io e), s) h = λ o. cc
  finish-waits (ended e, s) h = h

  retry-waits :
      (r : Round A × State W) → Moves r → Balanced max 0 server r.1 → (retry max server r).0 ≢ waits
  unfolding retry
  retry-waits (replied (rows a), s) h b = λ o. cc
  retry-waits (replied (failed true e), s) h b = finish-waits (round max server s) (round-Moves s b)
  retry-waits (replied (failed false e), s) h b = λ o. cc
  retry-waits (ended e, s) h b = h

  -- A thread that no other thread shares the pool with, whose size is positive, never waits for a
  -- connection, whatever fails: the query comes to an answer or to an error. No slot is lost.
  pub query_retry-Lone :
      (s : State W)
      → Lone s
      → (((query_retry max server s).0 ≢ waits) × ((query_retry max server s).0 ≢ overflow))
        × Lone (query_retry max server s).1
  unfolding query_retry
  query_retry-Lone s b =
      let (kept, fits) = query_retry-Balanced max 0 server s b in
      (
        (
          retry-waits (round max server s) (round-Moves s b) (round-Balanced max 0 server s b),
          fits,
        ),
        kept,
      )

  -- The same of one round.
  pub once-Lone :
      (s : State W)
      → Lone s
      → (((finish max server (round max server s)).0 ≢ waits)
          × ((finish max server (round max server s)).0 ≢ overflow))
        × Lone (finish max server (round max server s)).1
  once-Lone s b =
      let (kept, fits) = once-Balanced max 0 server s b in
      ((finish-waits (round max server s) (round-Moves s b), fits), kept)
