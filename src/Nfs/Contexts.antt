-- ===== src/Nfs/Contexts.antt =====
-- src/nfscli.rs: the contexts of the pool, from `init` to `shutdown`, and the threads that serve them.
-- libnfs and the threads of the standard library are a parameter `Host` over a world `W`; a pointer
-- is a number, and a null pointer is `none`.
pub mod Extra
pub mod Laws
pub mod Owned
pub mod Threads
use yourfs.Base.{
  ℕ, zero, suc, Bool, true, false, List, [], ◌∷◌, ◌++◌, Option, none, some, if◌then◌else◌, map,
  length,
}
use yourfs.Base.Text.{Text}
use yourfs.Base.Int.{ℤ, pos, int_eq}
use yourfs.Nfs.Credentials.{Cfg}
use yourfs.Nfs.Defs.{NfsPool, rounds}

pub record Host (W : Type 0) : Type 0 where
  pub nfs_init_context : W → Option ℕ × W
  pub nfs_mount : ℕ → Text → Text → W → ℤ × W
  pub nfs_destroy_context : ℕ → W → W
  pub nfs_parse_url_dir : ℕ → Text → W → Option ℕ × W
  pub server_of : ℕ → W → Option Text
  pub path_of : ℕ → W → Option Text
  pub nfs_destroy_url : ℕ → W → W
  pub spawn : ℕ → W → W
  pub send_quit : ℕ → W → W
  pub join : ℕ → W → W

-- `receiver` and `thread` say whether the two fields of the slot's state are `Some`.
pub record Slot : Type 0 where
  pub ctx : ℕ
  pub receiver : Bool
  pub thread : Bool

-- What `NFS` is set to: the pool's slots, their configuration, and the rest of the pool.
pub record Connections : Type 0 where
  pub slots : List Slot
  pub cfg : Cfg
  pub pool : NfsPool

abbrev pub new_slot : ℕ → Slot
new_slot c = record { ctx = c; receiver = true; thread = false }

module _ {W : Type 0} (host : Host W) where
  -- The end of `mount_extra`, after `nfs_mount`.
  mounted : ℕ → ℤ × W → Option ℕ × W
  mounted c (r, w) = if int_eq r (pos 0) then (some c, w) else (none, host.nfs_destroy_context c w)

  extra_on : Text → Text → Option ℕ × W → Option ℕ × W
  unfolding mounted
  extra_on server export (none, w) = (none, w)
  extra_on server export (some c, w) = mounted c (host.nfs_mount c server export w)

  unfoldable pub mount_extra : Text → Text → W → Option ℕ × W
  unfolding extra_on
  mount_extra server export w = extra_on server export (host.nfs_init_context w)

  -- A round of the loop of `init`, with the rounds after it.
  grown : (List ℕ → W → List ℕ × W) → List ℕ → Option ℕ × W → List ℕ × W
  grown again cs (none, w) = (cs, w)
  grown again cs (some c, w) = again (cs ++ c ∷ []) w

  -- The loop, for the rounds that are left.
  unfoldable pub more_contexts : ℕ → Text → Text → List ℕ → W → List ℕ × W
  unfolding grown
  more_contexts zero server export cs w = (cs, w)
  more_contexts (suc n) server export cs w =
      grown (λ ds v. more_contexts n server export ds v) cs (mount_extra server export w)

  unfoldable pub init : ℕ → Text → Text → Cfg → ℕ → W → Connections × W
  unfolding rounds
  init first_ctx server export cfg pool_size w =
      let r = more_contexts (rounds pool_size) server export (first_ctx ∷ []) w in
      let slots = map new_slot r.0 in
      (
        record {
          slots = slots;
          cfg = cfg;
          pool = record { slots = length slots; next = 0; open_files = [] };
        },
        r.1,
      )

  unfoldable pub ensure_started : Slot → W → Slot × W
  ensure_started s w =
      if s.receiver
      then (record s { receiver = false; thread = true }, host.spawn s.ctx w)
      else (s, w)

  -- One round of the loop of `shutdown`.
  unfoldable pub stop : Slot → W → W
  stop s w =
      let v = host.send_quit s.ctx w in
      host.nfs_destroy_context s.ctx (if s.thread then host.join s.ctx v else v)

  unfoldable pub stop_all : List Slot → W → W
  stop_all [] w = w
  stop_all (s ∷ ss) w = stop_all ss (stop s w)

  -- `shutdown`: the contexts are gone and no file is open.
  unfoldable pub shutdown : Connections → W → NfsPool × W
  shutdown c w = (record c.pool { open_files = [] }, stop_all c.slots w)
