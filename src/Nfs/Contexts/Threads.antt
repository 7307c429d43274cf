-- ===== src/Nfs/Contexts/Threads.antt =====
-- src/nfscli.rs, `ensure_started` and `shutdown`: the thread of a slot.
use yourfs.Base.{ℕ, zero, suc, true, false, List, ◌∷◌, if◌then◌else◌, ◌==◌, ◌≡◌, refl, arith}
use yourfs.Nfs.Contexts.{Host, Slot, new_slot, ensure_started, stop}

pub data Event : Type 0 where
  spawned quit joined destroyed : ℕ → Event

-- `log` is what was done to threads and contexts, newest first.
pub record IsLogged {W : Type 0} (host : Host W) (log : W → List Event) : Type 0 where
  pub spawns : (c : ℕ) (w : W) → log (host.spawn c w) ≡ spawned c ∷ log w
  pub quits : (c : ℕ) (w : W) → log (host.send_quit c w) ≡ quit c ∷ log w
  pub joins : (c : ℕ) (w : W) → log (host.join c w) ≡ joined c ∷ log w
  pub destroys : (c : ℕ) (w : W) → log (host.nfs_destroy_context c w) ≡ destroyed c ∷ log w

module _ {W : Type 0} (host : Host W) where
  -- That many operations on one slot, each of which makes sure that its thread runs.
  unfoldable pub operate : ℕ → Slot → W → Slot × W
  operate zero s w = (s, w)
  operate (suc n) s w = let r = ensure_started host s w in operate n r.0 r.1

  operate-started :
      (n c : ℕ) (w : W)
      → operate n (record { ctx = c; receiver = false; thread = true }) w
        ≡ (record { ctx = c; receiver = false; thread = true }, w)
  unfolding operate ensure_started
  operate-started zero c w = refl
  operate-started (suc n) c w = operate-started n c w

  -- The life of a slot: however many operations it serves, its thread is spawned once, at the first of
  -- them and not before, and at the shutdown it is told to quit and joined before the context is
  -- destroyed; a slot that served none has no thread to join. Each context is destroyed once.
  pub operate-stop :
      (log : W → List Event) (n c : ℕ) (w : W)
      → IsLogged host log
      → let r = operate n (new_slot c) w in
        log (stop host r.0 r.1) ≡ (
          if n == 0
          then destroyed c ∷ quit c ∷ log w
          else destroyed c ∷ joined c ∷ quit c ∷ spawned c ∷ log w)
  unfolding operate ensure_started stop
  operate-stop log zero c w l = rw (l.destroys c (host.send_quit c w), l.quits c w) refl
  operate-stop log (suc n) c w l =
      let v = host.spawn c w in
      rw
        (
          operate-started n c v,
          l.destroys c (host.join c (host.send_quit c v)),
          l.joins c (host.send_quit c v),
          l.quits c v,
          l.spawns c w,
        )
        (ground arith)
