-- ===== src/Tests/Mount.antt =====
-- Tests of src/bin/yourfs.rs.
use yourfs.Base.{List, [], ◌∷◌, some, none}
use yourfs.Base.Text.{codes}
use yourfs.Cli.Parser.{Command, opt}
use yourfs.Mount.{Opts, defaults}

abbrev commands : List Command
commands =
    opt b'n' (some (codes "nfs://s/e"))
    ∷ opt b'm' (some (codes "/mnt"))
    ∷ opt b'F' (some (codes "redis"))
    ∷ opt b'Z' (some (codes "t_1"))
    ∷ opt b'a' none
    ∷ []

abbrev pub settings : Opts
settings = record defaults {
  url = some (codes "nfs://s/e");
  mnt = some (codes "/mnt");
  database_type = codes "redis";
  table = codes "t_1";
  fuse_opts = codes "-oro" ∷ codes "-oallow_other" ∷ [];
}
