-- ===== src/Fs/Live.antt =====
-- src/fs.rs: the handlers with the state that they change, which is the whitelist's (`DB`), the pool's
-- (src/nfscli.rs) and the network's. `lossy` is that of Nfs.Readlink.
pub mod Frozen
pub mod Requests
use yourfs.Base.{ℕ, List, [], ◌∷◌, Option, none, some, if◌then◌else◌}
use yourfs.Base.Text.{Text, codes, text_eq}
use yourfs.Base.Int.{ℤ, pos, neg}
use yourfs.Base.Outcome.{Outcome, ok, err, and_then, ◌>>=◌}
use yourfs.Db.Cache.{Database}
use yourfs.Fs.Defs.{enoent, eio, Stat, Ids, fill_stat, store_link, fill_names}
use yourfs.Nfs.Defs.{NfsPool, Link, lstat64, statvfs, open_file}
use yourfs.Nfs.Readlink as nfs_readlink
use yourfs.Nfs.Files.{read_file, release_file}

-- The state of a mount.
pub record Mount (V W : Type 0) : Type 0 where
  pub whitelist : V
  pub pool : NfsPool
  pub net : W

-- The match on the result of `resolve`.
unfoldable pub answered : Outcome Text (Option Text) → Outcome ℤ Text
answered (ok (some real)) = ok real
answered (ok none) = err (neg enoent)
answered (err e) = err (neg eio)

-- The calls of libfuse, with what the kernel hands in.
pub data Call : Type 0 where
  getattrs : Text → Call
  readlinks : Text → List ℕ → ℕ → Call
  opens : Text → ℤ → ℕ → Call
  reads : ℕ → ℤ → List ℕ → Call
  releases : ℕ → Call
  readdirs : Text → Call
  statfses : Text → Call

-- What each returns, and what it stores for the caller.
pub data Result (Statvfs : Type 0) : Type 0 where
  stat_is : Outcome ℤ Stat → Result Statvfs
  link_is : Outcome ℤ (List ℕ) → Result Statvfs
  handle_is : ℤ × ℕ → Result Statvfs
  bytes_are : ℤ × List ℕ → Result Statvfs
  released : Result Statvfs
  names_are : Outcome ℤ (List Text) → Result Statvfs
  statvfs_is : Outcome ℤ Statvfs → Result Statvfs

module _ {V W Statvfs : Type 0} (db : Database V) (table : Text) (link : Link W Statvfs)
    (lossy : List ℕ → List ℕ) where
  -- A call of the NFS client.
  unfoldable pub on_nfs : {A : Type 0} → (NfsPool × W → A × NfsPool × W) → Mount V W → A × Mount V W
  on_nfs call m = let r = call (m.pool, m.net) in (r.0, record m { pool = r.1; net = r.2 })

  unfoldable pub real_path : Text → Mount V W → Outcome ℤ Text × Mount V W
  unfolding answered
  real_path path m =
      let r = db.resolve table path m.whitelist in (answered r.0, record m { whitelist = r.1 })

  unfoldable pub real_or_root : Text → Mount V W → Outcome ℤ Text × Mount V W
  real_or_root path m = if text_eq path (codes "/") then (ok (codes "/"), m) else real_path path m

  unfoldable pub getattr : Ids → Text → Mount V W → Outcome ℤ Stat × Mount V W
  unfolding and_then
  getattr ids path m = and_then (real_or_root path m) (λ real n.
      and_then (on_nfs (lstat64 link real ids.caller) n) (λ st o. (ok (fill_stat ids st), o)))

  unfoldable pub readlink : Ids → Text → List ℕ → ℕ → Mount V W → Outcome ℤ (List ℕ) × Mount V W
  unfolding and_then
  readlink ids path buf size m = and_then (real_path path m) (λ real n.
      and_then (on_nfs (nfs_readlink.readlink link lossy real size ids.caller) n)
        (λ target o. (ok (store_link target size buf), o)))

  -- The end of `open`, with `fi.fh` reset.
  opened : Outcome ℤ ℕ × Mount V W → (ℤ × ℕ) × Mount V W
  opened (ok h, m) = ((pos 0, h), m)
  opened (err e, m) = ((e, 0), m)

  open_on : Ids → ℤ → ℕ → Outcome ℤ Text × Mount V W → (ℤ × ℕ) × Mount V W
  unfolding opened
  open_on ids flags fh (ok real, m) = opened (on_nfs (open_file link real flags ids.caller) m)
  open_on ids flags fh (err e, m) = ((e, fh), m)

  unfoldable pub open_handle : Ids → Text → ℤ → ℕ → Mount V W → (ℤ × ℕ) × Mount V W
  unfolding open_on
  open_handle ids path flags fh m = open_on ids flags fh (real_path path m)

  unfoldable pub statfs : Text → Mount V W → Outcome ℤ Statvfs × Mount V W
  unfolding and_then
  statfs path m = and_then (real_or_root path m) (λ real n. on_nfs (statvfs link real) n)

  filled : Outcome Text (List Text) → Outcome ℤ (List Text)
  filled (ok names) = ok (codes "." ∷ codes ".." ∷ fill_names names)
  filled (err e) = err (neg eio)

  unfoldable pub readdir : Text → Mount V W → Outcome ℤ (List Text) × Mount V W
  unfolding filled
  readdir path m =
      let r = db.list table path m.whitelist in (filled r.0, record m { whitelist = r.1 })

  -- One entry of the table of operations.
  unfoldable pub serve : Ids → Call → Mount V W → Result Statvfs × Mount V W
  serve ids (getattrs path) m = let r = getattr ids path m in (stat_is r.0, r.1)
  serve ids (readlinks path buf size) m = let r = readlink ids path buf size m in (link_is r.0, r.1)
  serve ids (opens path flags fh) m =
      let r = open_handle ids path flags fh m in (handle_is r.0, r.1)
  serve ids (reads fh offset buf) m =
      let r = on_nfs (read_file link fh offset buf ids.caller) m in (bytes_are r.0, r.1)
  serve ids (releases fh) m =
      let r = release_file link fh (m.pool, m.net) in (released, record m { pool = r.0; net = r.1 })
  serve ids (readdirs path) m = let r = readdir path m in (names_are r.0, r.1)
  serve ids (statfses path) m = let r = statfs path m in (statvfs_is r.0, r.1)

  -- The main loop, for the calls that come.
  unfoldable pub serve_all : List (Ids × Call) → Mount V W → List (Result Statvfs) × Mount V W
  serve_all [] m = ([], m)
  serve_all ((ids, call) ∷ calls) m =
      let r = serve ids call m in let rest = serve_all calls r.1 in (r.0 ∷ rest.0, rest.1)
