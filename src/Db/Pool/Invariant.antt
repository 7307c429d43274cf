-- ===== src/Db/Pool/Invariant.antt =====
-- src/db.rs, `Pool`: what holds of the pool whatever its threads do.
use mathlib.Core.Path.{subst}
use mathlib.Core.Option.{some-injective}
use yourfs.Base.{
  ℕ, zero, suc, ◌+◌, ◌<◌, ◌≤◌, Bool, true, false, List, [], ◌∷◌, some, ltb, get_elem?, set, length,
  ◌≡◌, refl, arith, ◌⊎◌, inl, inr, Bool-cases,
}
use yourfs.Db.Pool.Threads.{
  Thread, outside, parked, woken, connecting, holding, total, is_parked, is_woken, is_live, has,
  holds,
}
use yourfs.Db.Pool.Counts.{total-set, Notify-Notified}
use yourfs.Db.Pool.{
  PoolState, System, try_get, release_slot, give_back, Notify, Step, attempt, connected, refused,
  marked, dropped, spurious,
}

pub record Inv (s : System) : Type 0 where
  -- Every slot taken is an idle connection or one that a thread holds or opens.
  pub accounted : s.pool.created ≡ length s.pool.idle + total is_live s.threads
  pub capped : s.pool.created ≤ s.max
  pub positive : 0 < s.max
  -- No connection is held twice, or held while it is idle.
  pub exclusive : (c : ℕ) → holds c s.pool.idle s.threads ≤ 1
  -- If a thread is parked, there are as many woken ones as there are free connections and slots.
  pub awake :
      (total is_parked s.threads ≡ 0)
      ⊎ (length s.pool.idle + s.max ≤ s.pool.created + total is_woken s.threads)

abbrev system : ℕ → List ℕ → ℕ → List Thread → System
system max idle created threads = record {
  max = max;
  pool = record { idle = idle; created = created };
  threads = threads;
}

-- A thread takes the lock and finds a connection, a free slot, or neither.
attempt-Inv :
    (max : ℕ) (idle : List ℕ) (created : ℕ) (ts : List Thread) (i : ℕ) (x : Thread)
    → get_elem? ts i ≡ some x
    → (x ≡ outside) ⊎ (x ≡ woken)
    → Inv (system max idle created ts)
    → Inv (record (system max idle created ts) {
      pool = (try_get max (record { idle = idle; created = created })).0;
      threads = set ts i (try_get max (record { idle = idle; created = created })).1;
    })
unfolding try_get
attempt-Inv max (c ∷ idle) created ts i x h lock v =
    let y = holding c false in
    record {
      accounted = ground (arith, total-set is_live ts i x y h);
      capped = v.capped;
      positive = v.positive;
      exclusive = λ d. ground (arith, total-set (has d) ts i x y h, v.exclusive d);
      awake = ground (arith, total-set is_parked ts i x y h, total-set is_woken ts i x y h);
    }
attempt-Inv max [] created ts i x h lock v = elim (Bool-cases (ltb created max)) [
  | inl e ↦ rw e (record {
    accounted = ground (arith, total-set is_live ts i x connecting h);
    capped = ground arith;
    positive = v.positive;
    exclusive = λ d. ground (arith, total-set (has d) ts i x connecting h, v.exclusive d);
    awake =
        ground
          (arith, total-set is_parked ts i x connecting h, total-set is_woken ts i x connecting h);
  })
  | inr e ↦ rw e (record {
    accounted = ground (arith, total-set is_live ts i x parked h);
    capped = v.capped;
    positive = v.positive;
    exclusive = λ d. ground (arith, total-set (has d) ts i x parked h, v.exclusive d);
    awake = ground (arith, total-set is_parked ts i x parked h, total-set is_woken ts i x parked h);
  })
]

-- The thread changes in a way that the counts of parked and live threads, and of those that hold
-- each connection, do not see, but for a new connection or one more woken thread.
connected-Inv :
    (s : System) (i c : ℕ)
    → get_elem? s.threads i ≡ some connecting
    → holds c s.pool.idle s.threads ≡ 0
    → Inv s
    → Inv (record s { threads = set s.threads i (holding c false) })
connected-Inv s i c h fresh v =
    let y = holding c false in
    record {
      accounted = omega (arith, total-set is_live s.threads i connecting y h, v.accounted);
      capped = v.capped;
      positive = v.positive;
      exclusive = λ d. ground (arith, total-set (has d) s.threads i connecting y h, v.exclusive d);
      awake = ground (
        arith,
        total-set is_parked s.threads i connecting y h,
        total-set is_woken s.threads i connecting y h,
        v.awake,
      );
    }

marked-Inv :
    (s : System) (i c : ℕ) (bad : Bool)
    → get_elem? s.threads i ≡ some (holding c bad)
    → Inv s
    → Inv (record s { threads = set s.threads i (holding c true) })
marked-Inv s i c bad h v =
    let x = holding c bad in
    let y = holding c true in
    record {
      accounted = omega (arith, total-set is_live s.threads i x y h, v.accounted);
      capped = v.capped;
      positive = v.positive;
      exclusive = λ d. ground (arith, total-set (has d) s.threads i x y h, v.exclusive d);
      awake = ground (
        arith,
        total-set is_parked s.threads i x y h,
        total-set is_woken s.threads i x y h,
        v.awake,
      );
    }

spurious-Inv :
    (s : System) (i : ℕ)
    → get_elem? s.threads i ≡ some parked
    → Inv s
    → Inv (record s { threads = set s.threads i woken })
spurious-Inv s i h v = record {
  accounted = omega (arith, total-set is_live s.threads i parked woken h, v.accounted);
  capped = v.capped;
  positive = v.positive;
  exclusive = λ d. ground (arith, total-set (has d) s.threads i parked woken h, v.exclusive d);
  awake = ground (
    arith,
    total-set is_parked s.threads i parked woken h,
    total-set is_woken s.threads i parked woken h,
    v.awake,
  );
}

-- What holds between a return to the pool and the notification that follows it.
record Returned (max : ℕ) (p : PoolState) (ts : List Thread) : Type 0 where
  accounted : p.created ≡ length p.idle + total is_live ts
  capped : p.created ≤ max
  positive : 0 < max
  exclusive : (c : ℕ) → holds c p.idle ts ≤ 1
  awake : (total is_parked ts ≡ 0) ⊎ (length p.idle + max ≤ p.created + total is_woken ts + 1)

notified-Inv :
    (max : ℕ) (p : PoolState) (ts us : List Thread)
    → Returned max p ts
    → Notify ts us
    → Inv (record { max = max; pool = p; threads = us })
notified-Inv max p ts us r n =
    let m = Notify-Notified n in
    record {
      accounted = omega (arith, r.accounted, m.live);
      capped = r.capped;
      positive = r.positive;
      exclusive = λ c. omega (arith, r.exclusive c, m.kept c);
      awake = ground (arith, r.awake, m.woke);
    }

refused-Returned :
    (max : ℕ) (idle : List ℕ) (created : ℕ) (ts : List Thread) (i : ℕ) (p : PoolState)
    → get_elem? ts i ≡ some connecting
    → release_slot (record { idle = idle; created = created }) ≡ some p
    → Inv (system max idle created ts)
    → Returned max p (set ts i outside)
unfolding release_slot
refused-Returned max idle zero ts i p h e v = cc
refused-Returned max idle (suc n) ts i p h e v =
    subst (λ (r : PoolState). Returned max r (set ts i outside)) (some-injective _ _ e)
      (record {
        accounted = omega (arith, total-set is_live ts i connecting outside h, v.accounted);
        capped = omega (arith, v.capped);
        positive = v.positive;
        exclusive = λ d. omega (arith, total-set (has d) ts i connecting outside h, v.exclusive d);
        awake = ground (
          arith,
          total-set is_parked ts i connecting outside h,
          total-set is_woken ts i connecting outside h,
          v.awake,
        );
      })

dropped-Returned :
    (max : ℕ) (idle : List ℕ) (created : ℕ) (ts : List Thread) (i c : ℕ) (bad : Bool)
    (p : PoolState)
    → get_elem? ts i ≡ some (holding c bad)
    → give_back c bad (record { idle = idle; created = created }) ≡ some p
    → Inv (system max idle created ts)
    → Returned max p (set ts i outside)
unfolding give_back
dropped-Returned max idle zero ts i c true p h e v = cc
dropped-Returned max idle (suc n) ts i c true p h e v =
    let x = holding c true in
    subst (λ (r : PoolState). Returned max r (set ts i outside)) (some-injective _ _ e)
      (record {
        accounted = omega (arith, total-set is_live ts i x outside h, v.accounted);
        capped = omega (arith, v.capped);
        positive = v.positive;
        exclusive = λ d. ground (arith, total-set (has d) ts i x outside h, v.exclusive d);
        awake = ground (
          arith,
          total-set is_parked ts i x outside h,
          total-set is_woken ts i x outside h,
          v.awake,
        );
      })
dropped-Returned max idle created ts i c false p h e v =
    let x = holding c false in
    subst (λ (r : PoolState). Returned max r (set ts i outside)) (some-injective _ _ e)
      (record {
        accounted = omega (arith, total-set is_live ts i x outside h, v.accounted);
        capped = v.capped;
        positive = v.positive;
        exclusive = λ d. ground (arith, total-set (has d) ts i x outside h, v.exclusive d);
        awake = ground (
          arith,
          total-set is_parked ts i x outside h,
          total-set is_woken ts i x outside h,
          v.awake,
        );
      })

pub Step-Inv : {s t : System} → Step s t → Inv s → Inv t
Step-Inv {s} (attempt i (inl h) e) v =
    rw e (attempt-Inv s.max s.pool.idle s.pool.created s.threads i outside h (inl refl) v)
Step-Inv {s} (attempt i (inr h) e) v =
    rw e (attempt-Inv s.max s.pool.idle s.pool.created s.threads i woken h (inr refl) v)
Step-Inv {s} (connected i c h fresh e) v = rw e (connected-Inv s i c h fresh v)
Step-Inv {s} (refused i p after h f n e) v = rw e (
    notified-Inv s.max p _ after
      (refused-Returned s.max s.pool.idle s.pool.created s.threads i p h f v) n)
Step-Inv {s} (marked i c bad h e) v = rw e (marked-Inv s i c bad h v)
Step-Inv {s} (dropped i c bad p after h f n e) v = rw e (
    notified-Inv s.max p _ after
      (dropped-Returned s.max s.pool.idle s.pool.created s.threads i c bad p h f v) n)
Step-Inv {s} (spurious i h e) v = rw e (spurious-Inv s i h v)
