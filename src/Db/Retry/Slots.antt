-- ===== src/Db/Retry/Slots.antt =====
-- src/db.rs, `query_retry` and `cmd_retry`: no slot of the pool is lost, and two queries at most.
use yourfs.Base.{
  ℕ, zero, suc, ◌+◌, true, false, List, [], ◌∷◌, ltb, length, ◌≡◌, ◌≢◌, arith, inl, inr, Bool-cases,
}
use yourfs.Base.Text.{Text}
use yourfs.Base.Outcome.{Outcome, ok, err}
use yourfs.Db.Pool.{try_get, release_slot, give_back}
use yourfs.Db.Retry.{
  Reply, rows, failed, Server, Ended, overflow, State, Round, replied, ended, connect, get,
  drop_guard, query_with, round, finish, retry, query_retry,
}

module _ {W A : Type 0} (max others : ℕ) (server : Server W A) where
  -- Every slot taken is idle or in the hands of one of the other threads.
  abbrev pub Balanced : State W → Type 0
  Balanced s = s.pool.created ≡ length s.pool.idle + others

  -- After `get`: one more slot is taken if it gave a connection.
  abbrev Gets : Outcome (Ended A) ℕ × State W → Type 0
  Gets (ok c, s) = s.pool.created ≡ length s.pool.idle + others + 1
  Gets (err e, s) = (s.pool.created ≡ length s.pool.idle + others) × (e ≢ overflow)

  get-Gets :
      (idle : List ℕ) (created : ℕ) (w : W)
      → created ≡ length idle + others
      → Gets
          (get max server (record { pool = record { idle = idle; created = created }; world = w }))
  unfolding get try_get
  get-Gets (c ∷ idle) created w b = ground arith
  get-Gets [] created w b = elim (Bool-cases (ltb created max)) [
    | inl h ↦ rw h (connect-Gets (server.make w))
    | inr h ↦ rw h (b, λ e. cc)
  ]
    where
      connect-Gets :
          (r : Outcome Text ℕ × W)
          → Gets (connect max server (record { idle = []; created = suc created }) r)
      connect-Gets (ok c, w') = ground arith
      connect-Gets (err e, w') = unfold release_slot in (b, λ o. cc)

  abbrev Rounds : Round A × State W → Type 0
  Rounds (replied r, s) = Balanced s
  Rounds (ended e, s) = Balanced s × (e ≢ overflow)

  drop_guard-Rounds :
      (c : ℕ) (idle : List ℕ) (created : ℕ) (r : Reply A × W)
      → created ≡ length idle + others + 1
      → Rounds (drop_guard max server c (record { idle = idle; created = created }) r)
  unfolding drop_guard give_back
  drop_guard-Rounds c idle created (rows a, w) b = omega (arith, b)
  drop_guard-Rounds c idle zero (failed io e, w) b = absurd (omega (arith, b))
  drop_guard-Rounds c idle (suc n) (failed true e, w) b = omega (arith, b)
  drop_guard-Rounds c idle (suc n) (failed false e, w) b = omega (arith, b)

  query_with-Rounds :
      (r : Outcome (Ended A) ℕ × State W) → Gets r → Rounds (query_with max server r)
  unfolding query_with
  query_with-Rounds (ok c, s) b =
      drop_guard-Rounds c s.pool.idle s.pool.created (server.query c s.world) b
  query_with-Rounds (err e, s) b = b

  round-Rounds : (s : State W) → Balanced s → Rounds (round max server s)
  unfolding round
  round-Rounds s b =
      query_with-Rounds (get max server s) (get-Gets s.pool.idle s.pool.created s.world b)

  abbrev Ends : Ended A × State W → Type 0
  Ends (e, s) = Balanced s × (e ≢ overflow)

  finish-Ends : (r : Round A × State W) → Rounds r → Ends (finish max server r)
  unfolding finish
  finish-Ends (replied (rows a), s) b = (b, λ o. cc)
  finish-Ends (replied (failed io e), s) b = (b, λ o. cc)
  finish-Ends (ended e, s) b = b

  retry-Ends : (r : Round A × State W) → Rounds r → Ends (retry max server r)
  unfolding retry
  retry-Ends (replied (rows a), s) b = (b, λ o. cc)
  retry-Ends (replied (failed true e), s) b = finish-Ends (round max server s) (round-Rounds s b)
  retry-Ends (replied (failed false e), s) b = (b, λ o. cc)
  retry-Ends (ended e, s) b = b

  -- However the connections and the queries end, the call loses no slot of the pool and takes none:
  -- afterwards the slots taken are again the idle connections and the slots of the other threads.
  -- The counter does not overflow.
  pub query_retry-Balanced :
      (s : State W)
      → Balanced s
      → Balanced (query_retry max server s).1 × ((query_retry max server s).0 ≢ overflow)
  unfolding query_retry
  query_retry-Balanced s b = retry-Ends (round max server s) (round-Rounds s b)

  Rounds-Balanced : (r : Round A × State W) → Rounds r → Balanced r.1
  Rounds-Balanced (replied r, s) b = b
  Rounds-Balanced (ended e, s) b = b.0

  pub round-Balanced : (s : State W) → Balanced s → Balanced (round max server s).1
  round-Balanced s b = Rounds-Balanced (round max server s) (round-Rounds s b)

  -- One round alone, as of the call.
  pub once-Balanced :
      (s : State W)
      → Balanced s
      → Balanced (finish max server (round max server s)).1
        × ((finish max server (round max server s)).0 ≢ overflow)
  once-Balanced s b = finish-Ends (round max server s) (round-Rounds s b)
