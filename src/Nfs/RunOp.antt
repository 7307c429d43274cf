-- ===== src/Nfs/RunOp.antt =====
-- src/nfscli.rs, `run_op`: an operation is sent to the thread of a slot, which is started if it has to
-- be, and its reply awaited. The channel to the thread and back is a parameter: `send` says whether the
-- thread could be told, `receive` gives no reply where the thread has gone. A slot that is not there,
-- which Nfs.Routing excludes, counts as one whose thread has gone.
use yourfs.Base.{ℕ, Bool, true, false, List, Option, none, some, get_elem?, set, ◌≡◌, ◌⊎◌}
use yourfs.Base.Text.{Text}
use yourfs.Base.Int.{neg}
use yourfs.Base.Outcome.{Outcome}
use yourfs.Fs.Defs.{NfsStat, Caller, eio}
use yourfs.Nfs.Contexts.{Host, Slot, ensure_started}
use yourfs.Nfs.Defs.{Request, Completion, Link}
use yourfs.Nfs.Readlink as nfs_readlink

-- The slots of the pool, and the world.
pub record Serving (W : Type 0) : Type 0 where
  pub slots : List Slot
  pub outside : W

pub record Channels (W Statvfs : Type 0) : Type 0 where
  pub send : ℕ → Option Caller → Request → W → Bool × W
  pub receive : ℕ → W → Option (Completion Statvfs) × W
  pub no_stat : NfsStat
  pub no_svfs : Statvfs

module _ {W Statvfs : Type 0} (host : Host W) (channels : Channels W Statvfs) where
  -- `Reply::err(-libc::EIO)`, with what the caller's structs hold by default.
  abbrev gone : Completion Statvfs
  gone = record {
    status = neg eio;
    ptr = 0;
    bytes = none;
    stat = channels.no_stat;
    svfs = channels.no_svfs;
  }

  received : Option (Completion Statvfs) × W → Completion Statvfs × W
  received (none, w) = (gone, w)
  received (some c, w) = (c, w)

  on_send : ℕ → Bool × W → Completion Statvfs × W
  unfolding received
  on_send i (false, w) = (gone, w)
  on_send i (true, w) = received (channels.receive i w)

  on_slot : ℕ → Option Caller → Request → Option Slot → Serving W → Completion Statvfs × Serving W
  unfolding on_send
  on_slot i creds q none s = (gone, s)
  on_slot i creds q (some slot) s =
      let started = ensure_started host slot s.outside in
      let r = on_send i (channels.send i creds q started.1) in
      (r.0, record { slots = set s.slots i started.0; outside = r.1 })

  -- It is the link that the operations of the pool run over.
  pub run_op : Link (Serving W) Statvfs
  unfolding on_slot
  run_op i creds q s = on_slot i creds q (get_elem? s.slots i) s

  -- No thread takes a task, or none replies.
  abbrev pub IsDown : Type 0
  IsDown =
      ((i : ℕ) (c : Option Caller) (q : Request) (w : W) → (channels.send i c q w).0 ≡ false)
      ⊎ ((i : ℕ) (w : W) → (channels.receive i w).0 ≡ none)
