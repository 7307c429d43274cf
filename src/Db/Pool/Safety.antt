-- ===== src/Db/Pool/Safety.antt =====
-- src/db.rs, `Pool`: what every run of the pool's threads has, from a new pool on.
use native.Mathlib.Decide.{ℕ_discrete}
use yourfs.Base.{
  count, ℕ, zero, suc, ◌+◌, ◌-◌, ◌≤◌, Bool, List, [], ◌∷◌, some, leb, if◌then◌else◌, get_elem?,
  length, replicate, ◌≡◌, ◌≢◌, refl, arith, inl, ap, ◌∙◌,
}
use yourfs.Db.Pool.Threads.{
  Thread, outside, parked, holding, total, is_parked, is_woken, is_live, has,
}
use yourfs.Db.Pool.Invariant.{Inv, Step-Inv}
use yourfs.Db.Pool.{
  System, new_pool, release_slot, Step, attempt, connected, refused, marked, dropped, spurious,
  Reach, here, next,
}

total-replicate : (w : Thread → ℕ) (n : ℕ) → w outside ≡ 0 → total w (replicate n outside) ≡ 0
total-replicate w zero h = refl
total-replicate w (suc n) h = omega (arith, total-replicate w n h)

-- A pool as `Pool::new` makes it, shared by `n` threads.
abbrev pub fresh : ℕ → ℕ → System
fresh max n = new_pool max (replicate n outside)

new_pool-Inv : (max n : ℕ) → Inv (fresh max n)
unfolding new_pool
new_pool-Inv max n = record {
  accounted = omega (arith, total-replicate is_live n refl);
  capped = omega arith;
  positive = ground arith;
  exclusive = λ c. omega (arith, total-replicate (has c) n refl);
  awake = inl (total-replicate is_parked n refl);
}

pub Reach-Inv : (max n : ℕ) {s : System} → Reach (fresh max n) s → Inv s
Reach-Inv max n here = new_pool-Inv max n
Reach-Inv max n (next r st) = Step-Inv st (Reach-Inv max n r)

Step-max : {s t : System} → Step s t → t.max ≡ s.max
Step-max (attempt i h e) = ap (λ (u : System). u.max) e
Step-max (connected i c h f e) = ap (λ (u : System). u.max) e
Step-max (refused i p a h f m e) = ap (λ (u : System). u.max) e
Step-max (marked i c b h e) = ap (λ (u : System). u.max) e
Step-max (dropped i c b p a h f m e) = ap (λ (u : System). u.max) e
Step-max (spurious i h e) = ap (λ (u : System). u.max) e

Reach-max : {s t : System} → Reach s t → t.max ≡ s.max
Reach-max here = refl
Reach-max (next r st) = Step-max st ∙ Reach-max r

total-le :
    (w : Thread → ℕ) (ts : List Thread) (i : ℕ) (x : Thread)
    → get_elem? ts i ≡ some x
    → w x ≤ total w ts
total-le w [] i x h = cc
total-le w (t ∷ ts) zero x h = ground arith
total-le w (t ∷ ts) (suc i) x h = omega (arith, total-le w ts i x h)

-- Two threads with the weight 1 count for 2.
total_two :
    (w : Thread → ℕ) (ts : List Thread) (i j : ℕ) (x y : Thread)
    → get_elem? ts i ≡ some x
    → get_elem? ts j ≡ some y
    → i ≢ j
    → w x + w y ≤ total w ts
total_two w [] i j x y hi hj ne = cc
total_two w (t ∷ ts) zero zero x y hi hj ne = absurd (ne refl)
total_two w (t ∷ ts) zero (suc j) x y hi hj ne = ground (arith, total-le w ts j y hj)
total_two w (t ∷ ts) (suc i) zero x y hi hj ne = ground (arith, total-le w ts i x hi)
total_two w (t ∷ ts) (suc i) (suc j) x y hi hj ne =
    omega (arith, total_two w ts i j x y hi hj (λ e. ne (ap suc e)))

-- The capacity of a pool: at least one connection.
abbrev pub capacity : ℕ → ℕ
capacity max = if leb 1 max then max else 1

new_pool-max : (max n : ℕ) → (fresh max n).max ≡ capacity max
unfolding new_pool
new_pool-max max n = refl

-- In every reachable state the slots taken are the idle connections and those that threads hold or
-- are opening, and there are never more of them than the capacity.
pub created-accounted :
    (max n : ℕ) {s : System}
    → Reach (fresh max n) s
    → (s.pool.created ≡ length s.pool.idle + total is_live s.threads)
      × (s.pool.created ≤ capacity max)
created-accounted max n r =
    let v = Reach-Inv max n r in
    (v.accounted, omega (arith, v.capped, Reach-max r ∙ new_pool-max max n))

has_self : (c : ℕ) (bad : Bool) → has c (holding c bad) ≡ 1
has_self c bad = ground arith

-- In every state that the threads reach from a new pool, a connection that a thread holds is not
-- idle, and no other thread holds it.
pub holding-exclusive :
    (max n : ℕ) {s : System} (i c : ℕ) (bad : Bool)
    → Reach (fresh max n) s
    → get_elem? s.threads i ≡ some (holding c bad)
    → (count c s.pool.idle ≡ 0)
      × ((j : ℕ) (other : Bool) → get_elem? s.threads j ≡ some (holding c other) → i ≡ j)
holding-exclusive max n {s} i c bad r h =
    let few = (Reach-Inv max n r).exclusive c in
    let one = total-le (has c) s.threads i (holding c bad) h in
    (
      omega (arith, few, one, has_self c bad),
      λ j other k. elim (ℕ_discrete i j) [
        | yes e ↦ e
        | no ne ↦
            let two = total_two (has c) s.threads i j _ _ h k ne in
            absurd (omega (arith, few, two, has_self c bad, has_self c other))
      ],
    )

-- No wakeup is lost: in every state that the threads reach from a new pool, where a thread is parked
-- and none is on its way out of the wait, nothing is idle, and as many threads as the capacity
-- allows hold or open a connection.
pub parked-exhausted :
    (max n : ℕ) {s : System} (i : ℕ)
    → Reach (fresh max n) s
    → get_elem? s.threads i ≡ some parked
    → total is_woken s.threads ≡ 0
    → (length s.pool.idle ≡ 0) × (total is_live s.threads ≡ capacity max)
parked-exhausted max n {s} i r h none_woken =
    let v = Reach-Inv max n r in
    let waiting = total-le is_parked s.threads i parked h in
    let m : s.max ≡ capacity max = Reach-max r ∙ new_pool-max max n in
    (
      omega (arith, v.awake, v.capped, waiting),
      omega (arith, v.awake, v.capped, v.accounted, waiting, m),
    )

-- In every state that the threads reach from a new pool the counter does not fall below zero: a
-- thread that opens or holds a connection can free its slot.
release_slot-live :
    (max n : ℕ) {s : System} (i : ℕ) (x : Thread)
    → Reach (fresh max n) s
    → get_elem? s.threads i ≡ some x
    → is_live x ≡ 1
    → release_slot s.pool ≡ some (record s.pool { created = s.pool.created - 1 })
unfolding release_slot
release_slot-live max n {s} i x r h live =
    let v = Reach-Inv max n r in
    let one = total-le is_live s.threads i x h in ground (arith, v.accounted)
