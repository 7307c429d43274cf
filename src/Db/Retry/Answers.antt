-- ===== src/Db/Retry/Answers.antt =====
-- src/db.rs, `query_retry` and `cmd_retry`: where an answer comes from, and when there is one.
use yourfs.Base.{
  none, some, ℕ, suc, ◌<◌, Bool, true, false, List, [], ◌∷◌, ltb, length, ◌≡◌, refl, ap, arith, ◌⊎◌,
  inl, inr,
}
use mathlib.Core.Path.{subst}
use yourfs.Base.Text.{Text}
use yourfs.Base.Outcome.{Outcome, ok, err}
use yourfs.Db.Pool.Threads.{Thread, outside, parked, woken, connecting, holding}
use yourfs.Db.Pool.{PoolState, try_get, give_back, put}
use yourfs.Db.Retry.{
  Reply, rows, failed, Server, Ended, answer, error, waits, overflow, State, Round, replied, ended,
  connect, taken, get, drop_guard, query_with, round, finish, retry, query_retry,
}

-- To connect and to fail relates the states by `R`.
pub record Calm {W A : Type 0} (server : Server W A) (R : W → W → Type 0) : Type 0 where
  pub same : (w : W) → R w w
  pub trans : (u v w : W) → R u v → R v w → R u w
  pub makes : (w : W) → R w (server.make w).1
  pub fails :
      (c : ℕ) (w : W) (io : Bool) (e : Text)
      → (server.query c w).0 ≡ failed io e
      → R w (server.query c w).1

module _ {W A : Type 0} (max : ℕ) (server : Server W A) (R : W → W → Type 0)
    (calm : Calm server R) where
  -- The statement ran, and gave `a`, in a state that is related to `u`; `v` is the state after it.
  abbrev pub Ran : W → A → W → Type 0
  Ran u a v = (c : ℕ) × (w : W) × R u w × (server.query c w ≡ (rows a, v))

  abbrev Got : W → Outcome (Ended A) ℕ × State W → Type 0
  Got u (ok c, s) = R u s.world
  Got u (err (answer a), s) = ⊥
  Got u (err _, s) = Unit {0}

  abbrev Came : W → Round A × State W → Type 0
  Came u (replied (rows a), s) = Ran u a s.world
  Came u (replied (failed io e), s) = R u s.world
  Came u (ended (answer a), s) = ⊥
  Came u (ended _, s) = Unit {0}

  abbrev pub Answers : W → Ended A × State W → Type 0
  Answers u (answer a, s) = Ran u a s.world
  Answers u (_, s) = Unit {0}

  connect-Got :
      (u : W) (p : PoolState) (r : Outcome Text ℕ × W) → R u r.1 → Got u (connect max server p r)
  unfolding connect
  connect-Got u p (ok c, w) h = h
  connect-Got u p (err e, w) h = ground arith

  taken-Got : (t : PoolState × Thread) (w : W) → Got w (taken max server t w)
  unfolding taken
  taken-Got (p, holding c bad) w = calm.same w
  taken-Got (p, connecting) w = connect-Got w p (server.make w) (calm.makes w)
  taken-Got (p, parked) w = tt
  taken-Got (p, woken) w = tt
  taken-Got (p, outside) w = tt

  drop_guard-Came :
      (u : W) (c : ℕ) (p : PoolState) (w : W) (r : Reply A × W)
      → R u w
      → server.query c w ≡ r
      → Came u (drop_guard max server c p r)
  unfolding drop_guard give_back
  drop_guard-Came u c p w (rows a, v) h e = (c, w, h, e)
  drop_guard-Came u c p w (failed io m, v) h e =
      let k : R u v = calm.trans u w v h (
        subst (λ (x : W). R w x) (ap (λ (q : Reply A × W). q.1) e)
          (calm.fails c w io m (ap (λ (q : Reply A × W). q.0) e))) in
      elim (give_back c io p)
        as (λ g. Came u (elim g [
          | none ↦ (ended overflow, record { pool = p; world = v })
          | some q ↦ (replied (failed io m), record { pool = q; world = v })
        ])) [ none ↦ tt | some q ↦ k ]

  query_with-Came :
      (u : W) (r : Outcome (Ended A) ℕ × State W) → Got u r → Came u (query_with max server r)
  unfolding query_with
  query_with-Came u (ok c, s) h = drop_guard-Came u c s.pool s.world (server.query c s.world) h refl
  query_with-Came u (err (answer a), s) h = absurd h
  query_with-Came u (err (error e), s) h = tt
  query_with-Came u (err waits, s) h = tt
  query_with-Came u (err overflow, s) h = tt

  round-Came : (s : State W) → Came s.world (round max server s)
  unfolding round get
  round-Came s = query_with-Came s.world (get max server s) (taken-Got (try_get max s.pool) s.world)

  later : (u v : W) (r : Round A × State W) → R u v → Came v r → Came u r
  later u v (replied (rows a), s) h (c, w, k, e) = (c, w, calm.trans u v w h k, e)
  later u v (replied (failed io m), s) h k = calm.trans u v s.world h k
  later u v (ended (answer a), s) h k = k
  later u v (ended (error e), s) h k = tt
  later u v (ended waits, s) h k = tt
  later u v (ended overflow, s) h k = tt

  finish-Answers : (u : W) (r : Round A × State W) → Came u r → Answers u (finish max server r)
  unfolding finish
  finish-Answers u (replied (rows a), s) h = h
  finish-Answers u (replied (failed io e), s) h = tt
  finish-Answers u (ended (answer a), s) h = absurd h
  finish-Answers u (ended (error e), s) h = tt
  finish-Answers u (ended waits, s) h = tt
  finish-Answers u (ended overflow, s) h = tt

  retry-Answers : (u : W) (r : Round A × State W) → Came u r → Answers u (retry max server r)
  unfolding retry
  retry-Answers u (replied (rows a), s) h = h
  retry-Answers u (replied (failed true e), s) h =
      finish-Answers u (round max server s) (later u s.world (round max server s) h (round-Came s))
  retry-Answers u (replied (failed false e), s) h = tt
  retry-Answers u (ended (answer a), s) h = absurd h
  retry-Answers u (ended (error e), s) h = tt
  retry-Answers u (ended waits, s) h = tt
  retry-Answers u (ended overflow, s) h = tt

  -- An answer is what the statement gave when it ran, after steps that keep `R`.
  pub query_retry-Answers : (s : State W) → Answers s.world (query_retry max server s)
  unfolding query_retry
  query_retry-Answers s = retry-Answers s.world (round max server s) (round-Came s)

  -- The same of one round.
  pub round-Answers : (s : State W) → Answers s.world (finish max server (round max server s))
  round-Answers s = finish-Answers s.world (round max server s) (round-Came s)

-- A server that is up: it takes connections, and no query fails.
pub record IsUp {W A : Type 0} (server : Server W A) : Type 0 where
  pub makes : (w : W) → (c : ℕ) × ((server.make w).0 ≡ ok c)
  pub queries : (c : ℕ) (w : W) → (a : A) × ((server.query c w).0 ≡ rows a)

-- A connection is idle, or may be opened.
abbrev pub HasRoom : ℕ → PoolState → Type 0
HasRoom max p = (0 < length p.idle) ⊎ (p.created < max)

module _ {W A : Type 0} (max : ℕ) (server : Server W A) (up : IsUp server) where
  drop_guard-rows :
      (c : ℕ) (p : PoolState) (r : Reply A × W) (a : A)
      → r.0 ≡ rows a
      → drop_guard max server c p r ≡ (replied (rows a), record { pool = put c p; world = r.1 })
  unfolding drop_guard give_back
  drop_guard-rows c p (rows b, v) a e = rw e refl
  drop_guard-rows c p (failed io m, v) a e = cc

  abbrev Served : Round A × State W → Type 0
  Served r = (a : A) × (t : State W) × (r ≡ (replied (rows a), t)) × (0 < length t.pool.idle)

  query_with-Served : (c : ℕ) (s : State W) → Served (query_with max server (ok c, s))
  unfolding query_with put
  query_with-Served c s =
      let (a, e) = up.queries c s.world in
      (a, _, drop_guard-rows c s.pool (server.query c s.world) a e, ground arith)

  connect-ok :
      (p : PoolState) (r : Outcome Text ℕ × W) (c : ℕ)
      → r.0 ≡ ok c
      → connect max server p r ≡ (ok c, record { pool = p; world = r.1 })
  unfolding connect
  connect-ok p (ok d, w) c e = ground arith
  connect-ok p (err m, w) c e = cc

  round-Served :
      (idle : List ℕ) (created : ℕ) (w : W)
      → HasRoom max (record { idle = idle; created = created })
      → Served (
          round max server (record { pool = record { idle = idle; created = created }; world = w }))
  unfolding round get try_get taken
  round-Served (c ∷ idle) created w h =
      query_with-Served c (record { pool = record { idle = idle; created = created }; world = w })
  round-Served [] created w (inl h) = absurd (omega arith)
  round-Served [] created w (inr h) =
      let l : ltb created max ≡ true = ground arith in
      let (c, e) = up.makes w in
      let p : PoolState = record { idle = []; created = suc created } in
      rw (l, connect-ok p (server.make w) c e)
        (query_with-Served c (record { pool = p; world = (server.make w).1 }))

  -- From a server that is up, a call gives an answer, and there is room for the next.
  pub query_retry-IsUp :
      (s : State W)
      → HasRoom max s.pool
      → (a : A) × (t : State W) × (query_retry max server s ≡ (answer a, t)) × HasRoom max t.pool
  unfolding query_retry
  query_retry-IsUp s h =
      let (a, t, e, i) = round-Served s.pool.idle s.pool.created s.world h in
      (a, t, rw e refl, inl i)
