-- ===== src/Db/Pool/Counts.antt =====
-- src/db.rs, `Pool`: how a change of one thread changes the counts.
use yourfs.Base.{
  ℕ, zero, suc, ◌+◌, List, [], ◌∷◌, some, get_elem?, set, ◌≡◌, ap, ◌∙◌, arith, ◌⊎◌, inl, inr,
}
use yourfs.Db.Pool.Threads.{Thread, parked, woken, total, is_parked, is_woken, is_live, has}
use yourfs.Db.Pool.{Notify, nobody, wakes}

pub total-set :
    (w : Thread → ℕ) (ts : List Thread) (i : ℕ) (x v : Thread)
    → get_elem? ts i ≡ some x
    → total w (set ts i v) + w x ≡ total w ts + w v
total-set w [] i x v h = cc
total-set w (t ∷ ts) zero x v h = ground arith
total-set w (t ∷ ts) (suc i) x v h = omega (arith, total-set w ts i x v h)

-- What a notification changes.
pub record Notified (before after : List Thread) : Type 0 where
  pub live : total is_live after ≡ total is_live before
  pub kept : (c : ℕ) → total (has c) after ≡ total (has c) before
  pub woke :
      ((total is_parked before ≡ 0)
        × (total is_parked after ≡ 0)
        × (total is_woken after ≡ total is_woken before))
      ⊎ ((total is_parked before ≡ total is_parked after + 1)
          × (total is_woken after ≡ total is_woken before + 1))

pub Notify-Notified : {before after : List Thread} → Notify before after → Notified before after
Notify-Notified {before} {after} (nobody none_parked e) = record {
  live = ap (total is_live) e;
  kept = λ c. ap (total (has c)) e;
  woke = inl (none_parked, ap (total is_parked) e ∙ none_parked, ap (total is_woken) e);
}
Notify-Notified {before} {after} (wakes i h e) = record {
  live = ap (total is_live) e ∙ omega (arith, total-set is_live before i parked woken h);
  kept = λ c. ap (total (has c)) e ∙ omega (arith, total-set (has c) before i parked woken h);
  woke = rw e (
      inr (
        omega (arith, total-set is_parked before i parked woken h),
        omega (arith, total-set is_woken before i parked woken h),
      ));
}
