-- ===== src/Mount/ReadOnly.antt =====
-- src/bin/yourfs.rs: what a mount has, whatever the command line.
use yourfs.Base.{◌≤◌, ◌<◌, true, List, none, any, ◌≡◌, ◌≢◌}
use yourfs.Base.Text.{Text, codes, text_eq}
use yourfs.Mount.{Opts}

-- The arguments have one.
abbrev pub Has : Text → List Text → Type 0
Has t args = any (text_eq t) args ≡ true

-- A mount point comes with the read-only argument, and the number of connections is in range.
record Inv (o : Opts) : Type 0 where
  read_only : o.mnt ≢ none → Has (codes "-oro") o.fuse_opts
  connections : (0 < o.nfs_connections) × (o.nfs_connections ≤ 64)
