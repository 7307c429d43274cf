-- ===== src/Mount/Startup/Released.antt =====
-- src/bin/yourfs.rs: what `main` has taken from libnfs when it exits.
use yourfs.Base.{
  ℕ, Bool, List, [], ◌∷◌, Option, none, some, ◌==◌, ◌||◌, map, ◌≡◌, refl, sym, ap, ◌∙◌, Bool-cases,
  inl, inr,
}
use mathlib.Core.Path.{subst}
use yourfs.Base.Text.{Text}
use yourfs.Base.Int.{ℤ, pos, int_eq}
use yourfs.Paths.{strip_nul}
use yourfs.Db.Pool.{PoolState}
use yourfs.Db.Factory.{Backend}
use yourfs.Nfs.Contexts.{init, shutdown}
use yourfs.Nfs.Contexts.Laws.{IsHost}
use yourfs.Nfs.Contexts.Extra.{Extra, Extra-same, Extra-first, Extra-dropped_first}
use yourfs.Nfs.Contexts.Owned.{Same, Owns, init-Owns, stop_all-Same}
use yourfs.Mount.{Opts, build_fuse_args}
use yourfs.Mount.UrlIds.{url_ids}
use yourfs.Mount.Startup.{
  Context, Machine, cfg_of, context_of, main_loop, on_mount, on_parts, on_url, on_context,
  mount_share,
}

module _ {W : Type 0} (machine : Machine W) (contexts urls : W → ℕ → Bool)
    (laws : IsHost machine.host contexts urls) where
  -- The main loop makes no context and no URL, and frees none: the operations use those of the slots,
  -- whose `ctx` does not change.
  abbrev pub LeavesContexts : Type 0
  LeavesContexts =
      (c : Context W) (args : List Text) (w : W)
      → let r = machine.fuse_main c args w in
        (map (λ s. s.ctx) r.0.1 ≡ map (λ s. s.ctx) c.connections.slots)
        × Same machine.host contexts urls laws w r.1

  abbrev Kept : W → W → Type 0
  Kept u v = Same machine.host contexts urls laws u v

  abbrev Holding : ℕ → W → W → Type 0
  Holding c u v = Owns machine.host contexts urls laws (c ∷ []) u v

  -- One context and one URL are held.
  abbrev HoldingBoth : ℕ → ℕ → W → W → Type 0
  HoldingBoth c a u v = Extra (c ∷ []) (contexts u) (contexts v) × Extra (a ∷ []) (urls u) (urls v)

  free_url :
      (c a : ℕ) (u v : W) → HoldingBoth c a u v → Holding c u (machine.host.nfs_destroy_url a v)
  free_url c a u v (x, y) =
      let w = machine.host.nfs_destroy_url a v in
      let (kept, drops) = laws.destroys_url a v in
      (
        Extra-same (c ∷ []) (contexts u) (contexts v) (contexts w) x kept,
        Extra-dropped_first a (urls u) (urls v) (urls w) y drops,
      )

  free_context : (c : ℕ) (u v : W) → Holding c u v → Kept u (machine.host.nfs_destroy_context c v)
  free_context c u v (x, y) =
      let w = machine.host.nfs_destroy_context c v in
      let (drops, kept) = laws.destroys c v in
      (Extra-dropped_first c (contexts u) (contexts v) (contexts w) x drops, λ d. kept d ∙ y d)

  module _ (leaves : LeavesContexts) where
    main_loop-Kept :
        (o : Opts) (backend : Backend W) (db_pool : PoolState) (c : ℕ) (server export : Text)
        (u w : W)
        → Holding c u w
        → Kept u (main_loop machine o backend db_pool c server export w).1
    unfolding main_loop shutdown
    main_loop-Kept o backend db_pool c server export u w h =
        let i = init machine.host c server export (cfg_of machine o) o.nfs_connections w in
        let (owns, more) =
          init-Owns machine.host contexts urls laws c server export (cfg_of machine o)
            o.nfs_connections u w h in
        let ctx = context_of machine o backend db_pool i.0 in
        let args = map strip_nul (build_fuse_args o) in
        let f = machine.fuse_main ctx args i.1 in
        let (same, (a, b)) = leaves ctx args i.1 in
        stop_all-Same machine.host contexts urls laws f.0.1 u f.1 (
          subst (λ (cs : List ℕ). Extra cs (contexts u) (contexts f.1)) (sym same)
              (Extra-same _ (contexts u) (contexts i.1) (contexts f.1) owns.0 a),
          λ d. b d ∙ owns.1 d,
        )

    on_mount-Kept :
        (o : Opts) (backend : Backend W) (db_pool : PoolState) (c a : ℕ) (server export : Text)
        (u : W) (r : ℤ × W)
        → HoldingBoth c a u r.1
        → Kept u (on_mount machine o backend db_pool c a server export r).1
    unfolding on_mount
    on_mount-Kept o backend db_pool c a server export u (ret, w) h =
        let v = machine.host.nfs_destroy_url a w in
        elim (Bool-cases (int_eq ret (pos 0))) [
          | inl e ↦ rw e (main_loop-Kept o backend db_pool c server export u v (free_url c a u w h))
          | inr e ↦ rw e (free_context c u v (free_url c a u w h))
        ]

    on_parts-Kept :
        (o : Opts) (backend : Backend W) (db_pool : PoolState) (c a : ℕ)
        (server export : Option Text) (u w : W)
        → HoldingBoth c a u w
        → Kept u (on_parts machine o backend db_pool c a server export w).1
    unfolding on_parts
    on_parts-Kept o backend db_pool c a (some server) (some export) u w (x, y) =
        let r = machine.host.nfs_mount c server export w in
        let (p, q) = laws.mounts c server export w in
        on_mount-Kept o backend db_pool c a server export u r (
          Extra-same (c ∷ []) (contexts u) (contexts w) (contexts r.1) x p,
          Extra-same (a ∷ []) (urls u) (urls w) (urls r.1) y q,
        )
    on_parts-Kept o backend db_pool c a none export u w h = free_context c u _ (free_url c a u w h)
    on_parts-Kept o backend db_pool c a (some server) none u w h =
        free_context c u _ (free_url c a u w h)

    on_url-Kept :
        (o : Opts) (url : Text) (backend : Backend W) (db_pool : PoolState) (c : ℕ) (u w : W)
        (r : Option ℕ × W)
        → Holding c u w
        → machine.host.nfs_parse_url_dir c (strip_nul url) w ≡ r
        → Kept u (on_url machine o url backend db_pool c r).1
    unfolding on_url
    on_url-Kept o url backend db_pool c u w (none, v) (x, y) e =
        let (p, q) = laws.parses_none c (strip_nul url) w v e in
        free_context c u v
          (Extra-same (c ∷ []) (contexts u) (contexts w) (contexts v) x p, λ d. q d ∙ y d)
    on_url-Kept o url backend db_pool c u w (some a, v) (x, y) e =
        let (new, p, adds) = laws.parses_some c (strip_nul url) w v a e in
        on_parts-Kept (url_ids url o) backend db_pool c a (machine.host.server_of a v)
          (machine.host.path_of a v) u v
          (
            Extra-same (c ∷ []) (contexts u) (contexts w) (contexts v) x p,
            Extra-first a (urls u) (urls v) (sym (y a) ∙ new)
                (λ d. adds d ∙ ap (λ (b : Bool). (a == d) || b) (y d)),
          )

    on_context-Kept :
        (o : Opts) (url : Text) (backend : Backend W) (db_pool : PoolState) (u : W)
        (r : Option ℕ × W)
        → machine.host.nfs_init_context u ≡ r
        → Kept u (on_context machine o url backend db_pool r).1
    unfolding on_context
    on_context-Kept o url backend db_pool u (none, v) e = laws.init_none u v e
    on_context-Kept o url backend db_pool u (some c, v) e =
        let (new, adds, kept) = laws.init_some u v c e in
        on_url-Kept o url backend db_pool c u v (machine.host.nfs_parse_url_dir c (strip_nul url) v)
          (Extra-first c (contexts u) (contexts v) new adds, kept) refl

    -- However the mount goes, when `main` exits it has given back every context and every URL that it
    -- took from libnfs, those of the extra connections of the pool included, and freed nothing else:
    -- after a failed init, a bad or incomplete URL, a failed `nfs_mount`, and the main loop.
    pub mount_share-Kept :
        (o : Opts) (url : Text) (backend : Backend W) (db_pool : PoolState) (w : W)
        → let v = (mount_share machine o url backend db_pool w).1 in
          ((d : ℕ) → contexts v d ≡ contexts w d) × ((d : ℕ) → urls v d ≡ urls w d)
    unfolding mount_share
    mount_share-Kept o url backend db_pool w =
        on_context-Kept o url backend db_pool w (machine.host.nfs_init_context w) refl
