-- ===== src/Nfs/Contexts/Owned.antt =====
-- src/nfscli.rs, `init` and `shutdown`: no context is lost.
use yourfs.Base.{
  ℕ, zero, suc, ◌+◌, Bool, true, false, not, ◌&&◌, ◌||◌, List, [], ◌∷◌, ◌++◌, Option, none, some,
  ◌==◌, map, length, ◌≡◌, refl, sym, ap, ◌∙◌, arith, Bool-cases, inl, inr, length-append,
  if◌then◌else◌,
}
use mathlib.Core.Path.{subst}
use yourfs.Base.Text.{Text}
use yourfs.Base.Int.{ℤ, pos, int_eq}
use yourfs.Nfs.Credentials.{Cfg}
use yourfs.Nfs.Defs as pool
use yourfs.Nfs.Contexts.Laws.{IsHost}
use yourfs.Nfs.Contexts.Extra.{
  has, Extra, Extra-same, Extra-push, Extra-first, Extra-dropped, Extra-dropped_first,
}
use yourfs.Nfs.Contexts.{
  Host, Slot, new_slot, mounted, extra_on, mount_extra, grown, more_contexts, init, stop, stop_all,
}

ctx-new_slot : (cs : List ℕ) → map (λ s. s.ctx) (map new_slot cs) ≡ cs
ctx-new_slot [] = refl
ctx-new_slot (c ∷ cs) = ap (λ (l : List ℕ). c ∷ l) (ctx-new_slot cs)

length-new_slot : (cs : List ℕ) → length (map new_slot cs) ≡ length cs
length-new_slot [] = refl
length-new_slot (c ∷ cs) = ap suc (length-new_slot cs)

grown-mount_more :
    {W : Type 0} (host : Host W) (again : List ℕ → W → List ℕ × W) (n : ℕ) (cs : List ℕ)
    (r : Option ℕ × W)
    → ((ds : List ℕ) (v : W)
        → (answers : List Bool) × (length (again ds v).0 ≡ length ds + pool.mount_more n answers))
    → (answers : List Bool) × (length (grown host again cs r).0
        ≡ length cs + pool.mount_more (suc n) answers)
unfolding grown pool.mount_more
grown-mount_more host again n cs (none, w) on = ([], omega arith)
grown-mount_more host again n cs (some c, w) on =
    let (answers, e) = on (cs ++ c ∷ []) w in
    (true ∷ answers, omega (arith, e, length-append cs (c ∷ [])))

-- The loop answers as the server does.
more_contexts-mount_more :
    {W : Type 0} (host : Host W) (n : ℕ) (server export : Text) (cs : List ℕ) (w : W)
    → (answers : List Bool) × (length (more_contexts host n server export cs w).0
        ≡ length cs + pool.mount_more n answers)
unfolding more_contexts pool.mount_more
more_contexts-mount_more host zero server export cs w = ([], omega arith)
more_contexts-mount_more host (suc n) server export cs w =
    grown-mount_more host (λ ds v. more_contexts host n server export ds v) n cs
      (mount_extra host server export w)
      (λ ds v. more_contexts-mount_more host n server export ds v)

module _ {W : Type 0} (host : Host W) (contexts urls : W → ℕ → Bool)
    (laws : IsHost host contexts urls) where
  abbrev pub Same : W → W → Type 0
  Same u v = ((d : ℕ) → contexts v d ≡ contexts u d) × ((d : ℕ) → urls v d ≡ urls u d)

  pub Same-trans : (u v w : W) → Same u v → Same v w → Same u w
  Same-trans u v w (a, b) (c, d) = ((λ k. c k ∙ a k), λ k. d k ∙ b k)

  -- What is left after a call that may give a new context.
  abbrev Gives : W → Option ℕ × W → Type 0
  Gives w (none, v) = Same w v
  Gives w (some c, v) =
      (contexts w c ≡ false)
      × ((d : ℕ) → contexts v d ≡ ((c == d) || contexts w d))
      × ((d : ℕ) → urls v d ≡ urls w d)

  init-Gives : (w : W) (r : Option ℕ × W) → host.nfs_init_context w ≡ r → Gives w r
  init-Gives w (none, v) e = laws.init_none w v e
  init-Gives w (some c, v) e = laws.init_some w v c e

  mounted-Gives : (w : W) (c : ℕ) (m : ℤ × W) → Gives w (some c, m.1) → Gives w (mounted host c m)
  unfolding mounted
  mounted-Gives w c (r, v) (new, adds, rest) = elim (Bool-cases (int_eq r (pos 0))) [
    | inl e ↦ rw e (new, adds, rest)
    | inr e ↦
        let (drops, kept) = laws.destroys c v in
        rw e (
          Extra-dropped_first c (contexts w) (contexts v) (contexts (host.nfs_destroy_context c v))
              (Extra-first c (contexts w) (contexts v) new adds) drops,
          λ d. kept d ∙ rest d,
        )
  ]

  extra_on-Gives :
      (server export : Text) (w : W) (r : Option ℕ × W)
      → Gives w r
      → Gives w (extra_on host server export r)
  unfolding extra_on
  extra_on-Gives server export w (none, v) g = g
  extra_on-Gives server export w (some c, v) (new, adds, rest) =
      let (a, b) = laws.mounts c server export v in
      mounted-Gives w c (host.nfs_mount c server export v)
        (new, (λ d. a d ∙ adds d), λ d. b d ∙ rest d)

  mount_extra-Gives : (server export : Text) (w : W) → Gives w (mount_extra host server export w)
  unfolding mount_extra
  mount_extra-Gives server export w =
      extra_on-Gives server export w (host.nfs_init_context w)
        (init-Gives w (host.nfs_init_context w) refl)

  -- The contexts of the list are those that `v` has and `u` has not.
  abbrev pub Owns : List ℕ → W → W → Type 0
  Owns cs u v = Extra cs (contexts u) (contexts v) × ((d : ℕ) → urls v d ≡ urls u d)

  grown-Owns :
      (again : List ℕ → W → List ℕ × W) (cs : List ℕ) (u w : W) (r : Option ℕ × W)
      → Owns cs u w
      → Gives w r
      → ((ds : List ℕ) (v : W) → Owns ds u v → Owns (again ds v).0 u (again ds v).1)
      → let q = grown host again cs r in Owns q.0 u q.1
  unfolding grown
  grown-Owns again cs u w (none, v) (x, y) (a, b) on =
      (Extra-same cs (contexts u) (contexts w) (contexts v) x a, λ d. b d ∙ y d)
  grown-Owns again cs u w (some c, v) (x, y) (new, adds, rest) on =
      on (cs ++ c ∷ []) v
        (Extra-push cs c (contexts u) (contexts w) (contexts v) x new adds, λ d. rest d ∙ y d)

  pub more_contexts-Owns :
      (n : ℕ) (server export : Text) (cs : List ℕ) (u w : W)
      → Owns cs u w
      → let r = more_contexts host n server export cs w in Owns r.0 u r.1
  unfolding more_contexts
  more_contexts-Owns zero server export cs u w o = o
  more_contexts-Owns (suc n) server export cs u w o =
      grown-Owns (λ ds v. more_contexts host n server export ds v) cs u w
        (mount_extra host server export w) o (mount_extra-Gives server export w)
        (λ ds v. more_contexts-Owns n server export ds u v)

  abbrev ctxs : List Slot → List ℕ
  ctxs ss = map (λ s. s.ctx) ss

  joined-Same :
      (b : Bool) (c : ℕ) (w : W)
      → Same w (if b then host.join c (host.send_quit c w) else host.send_quit c w)
  joined-Same true c w =
      Same-trans w (host.send_quit c w) (host.join c (host.send_quit c w)) (laws.quits c w)
        (laws.joins c (host.send_quit c w))
  joined-Same false c w = laws.quits c w

  stop_all-drops :
      (ss : List Slot) (w : W)
      → let v = stop_all host ss w in
        ((d : ℕ) → contexts v d ≡ (not (has d (ctxs ss)) && contexts w d))
        × ((d : ℕ) → urls v d ≡ urls w d)
  unfolding stop_all stop
  stop_all-drops [] w = ((λ d. refl), λ d. refl)
  stop_all-drops (s ∷ ss) w =
      let v =
        if s.thread then host.join s.ctx (host.send_quit s.ctx w) else host.send_quit s.ctx w in
      let (a, b) = joined-Same s.thread s.ctx w in
      let (p, q) = laws.destroys s.ctx v in
      let (x, y) = stop_all-drops ss (host.nfs_destroy_context s.ctx v) in
      ((λ d. x d ∙ rw (p d, a d) (both (has d (ctxs ss)) (s.ctx == d) _)), λ d. y d ∙ q d ∙ b d)
    where
      both : (a b c : Bool) → (not a && (not b && c)) ≡ (not (b || a) && c)
      both true true c = refl
      both true false c = refl
      both false true c = refl
      both false false c = refl

  -- `shutdown` gives back every context of the slots.
  pub stop_all-Same : (ss : List Slot) (u w : W) → Owns (ctxs ss) u w → Same u (stop_all host ss w)
  stop_all-Same ss u w (x, y) =
      let (drops, kept) = stop_all-drops ss w in
      (
        Extra-dropped (ctxs ss) (contexts u) (contexts w) (contexts (stop_all host ss w)) x drops,
        λ d. kept d ∙ y d,
      )

  -- `init` keeps hold of every context that it opens, and opens `pool_size` at most; and the pool that
  -- it sets up is the one of `Nfs.Defs.init`, for some answers of the server.
  pub init-Owns :
      (first_ctx : ℕ) (server export : Text) (cfg : Cfg) (pool_size : ℕ) (u w : W)
      → Owns (first_ctx ∷ []) u w
      → let r = init host first_ctx server export cfg pool_size w in
        Owns (ctxs r.0.slots) u r.1
        × ((answers : List Bool) × (r.0.pool ≡ pool.init pool_size answers))
  unfolding init pool.init
  init-Owns first_ctx server export cfg pool_size u w o =
      let n = pool.rounds pool_size in
      let r = more_contexts host n server export (first_ctx ∷ []) w in
      let (answers, e) = more_contexts-mount_more host n server export (first_ctx ∷ []) w in
      let opened : length (map new_slot r.0) ≡ suc (pool.mount_more n answers) =
        omega (arith, length-new_slot r.0, e) in
      (
        subst (λ (cs : List ℕ). Owns cs u r.1) (sym (ctx-new_slot r.0))
            (more_contexts-Owns n server export (first_ctx ∷ []) u w o),
        (answers, ap (λ (k : ℕ). record { slots = k; next = 0; open_files = [] }) opened),
      )
