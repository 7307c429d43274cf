-- ===== src/Fs/Live/Frozen.antt =====
-- src/fs.rs: the handlers with their state, against the handlers over fixed answers (Fs.Defs).
use yourfs.Base.{ℕ, List}
use yourfs.Base.Text.{Text}
use yourfs.Base.Outcome.{Outcome}
use yourfs.Db.Cache.{Database}
use yourfs.Fs.Defs.{Whitelist, Nfs}
use yourfs.Fs.Defs as fixed
use yourfs.Nfs.Defs.{NfsPool, Link, lstat64, statvfs, open_file}
use yourfs.Nfs.Readlink as nfs_readlink
use yourfs.Fs.Live.{Mount, readlink}

module _ {V W Statvfs : Type 0} (db : Database V) (table : Text) (link : Link W Statvfs)
    (lossy : List ℕ → List ℕ) where
  -- What the whitelist and the client would answer next, in a state.
  abbrev pub whitelist_at : Mount V W → Whitelist
  whitelist_at m = record {
    resolve = λ path. (db.resolve table path m.whitelist).0;
    list = λ path. (db.list table path m.whitelist).0;
  }

  abbrev pub nfs_at : Mount V W → Nfs Statvfs
  nfs_at m = record {
    lstat64 = λ real caller. (lstat64 link real caller (m.pool, m.net)).0;
    readlink =
        λ real size caller. (nfs_readlink.readlink link lossy real size caller (m.pool, m.net)).0;
    open_file = λ real flags caller. (open_file link real flags caller (m.pool, m.net)).0;
    statvfs = λ real. (statvfs link real (m.pool, m.net)).0;
  }

  -- The whitelist's query leaves the client as it was.
  abbrev client_of : Mount V W → NfsPool × W
  client_of m = (m.pool, m.net)
