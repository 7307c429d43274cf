-- ===== src/Mount.antt =====
-- src/bin/yourfs.rs: the options of a mount, the checks before it, and the arguments for FUSE. The
-- time, and the number behind `-M` (an `f64`), are parameters.
pub mod ReadOnly
pub mod UrlIds
pub mod Startup
use yourfs.Base.{
  ℕ, suc, ◌+◌, Bool, true, false, ◌&&◌, ◌||◌, not, List, [], ◌∷◌, ◌++◌, Option, none, some, ◌==◌,
  ltb, any, if◌then◌else◌,
}
use yourfs.Base.Text.{Text, codes, text_eq}
use yourfs.Base.Int.{ℤ, pos, negsuc, neg, int_eq}
use yourfs.Base.Outcome.{Outcome, ok, err}
use yourfs.Cli.Parser.{Command, opt, unknown}
use yourfs.Cli.Number.{parse_i64}
use yourfs.Key.{default_key, key_is_good}
use yourfs.Db.Keys.{check_ident}

pub record Opts : Type 0 where
  pub url : Option Text
  pub mnt : Option Text
  pub custom_uid : ℤ
  pub custom_gid : ℤ
  pub allow_other_own_ids : Bool
  pub default_permissions : Bool
  pub multithreads : Bool
  pub fsname_given : Bool
  pub subtype_given : Bool
  pub database_type : Text
  pub database : Text
  pub table : Text
  pub cache_memory : ℤ
  pub whitelist_cache : Bool
  pub nfs_connections : ℕ
  pub your_key : Text
  pub fuse_opts : List Text
  pub unknown_option : Option Text

unfoldable pub defaults : Opts
unfolding default_key
defaults = record {
  url = none;
  mnt = none;
  custom_uid = neg 1;
  custom_gid = neg 1;
  allow_other_own_ids = false;
  default_permissions = true;
  multithreads = true;
  fsname_given = false;
  subtype_given = false;
  database_type = [];
  database = [];
  table = [];
  cache_memory = pos 10000;
  whitelist_cache = false;
  nfs_connections = 4;
  your_key = default_key;
  fuse_opts = [];
  unknown_option = none;
}

-- The options that add an argument for FUSE, without and with a value.
abbrev plain_args : List (ℕ × Text)
plain_args =
    (b'm', codes "-oro")
    ∷ (b'a', codes "-oallow_other")
    ∷ (b'D', codes "-odebug")
    ∷ (b'd', codes "-odirect_io")
    ∷ (b'r', codes "-oallow_root")
    ∷ (b'k', codes "-okernel_cache")
    ∷ (b'c', codes "-oauto_cache")
    ∷ (b'l', codes "-olarge_read")
    ∷ (b'h', codes "-ohard_remove")
    ∷ (b'b', codes "-oblkdev")
    ∷ (b'i', codes "-ointr")
    ∷ (b'A', codes "-oasync_read")
    ∷ (b'S', codes "-osync_read")
    ∷ (b'Y', codes "-ononempty")
    ∷ (b'q', codes "-ouse_ino")
    ∷ (b'Q', codes "-oreaddir_ino")
    ∷ (b'O', codes "-oro")
    ∷ []

abbrev valued_args : List (ℕ × Text)
valued_args =
    (b'u', codes "-ouid=")
    ∷ (b'g', codes "-ogid=")
    ∷ (b'f', codes "-ofsname=")
    ∷ (b's', codes "-osubtype=")
    ∷ (b'R', codes "-omax_read=")
    ∷ (b'H', codes "-omax_readahead=")
    ∷ (b'K', codes "-oumask=")
    ∷ (b'E', codes "-oentry_timeout=")
    ∷ (b'N', codes "-onegative_timeout=")
    ∷ (b'T', codes "-oattr_timeout=")
    ∷ (b'C', codes "-oac_attr_timeout=")
    ∷ (b'I', codes "-ointr_signal=")
    ∷ []

unfoldable pub entry : ℕ → List (ℕ × Text) → Option Text
entry c [] = none
entry c ((k, t) ∷ m) = let rest = entry c m in if k == c then some t else rest

unfoldable pub fuse_args : ℕ → Text → List Text
fuse_args c v = elim (entry c plain_args) [
  | some t ↦ t ∷ []
  | none ↦ elim (entry c valued_args) [ some t ↦ (t ++ v) ∷ [] | none ↦ [] ]
]

-- `clamp(1, 64) as usize`.
unfoldable pub clamp : ℤ → ℕ
clamp (negsuc n) = 1
clamp (pos n) = if n == 0 then 1 else if ltb 64 n then 64 else n

-- The field that an option sets.
unfoldable pub set_field : (Text → ℤ) → ℕ → Text → Opts → Opts
set_field memory c v o =
    if c == b'n'
    then record o { url = some v }
    else if c == b'm'
    then record o { mnt = some v }
    else if c == b'U'
    then record o { custom_uid = parse_i64 v }
    else if c == b'G'
    then record o { custom_gid = parse_i64 v }
    else if c == b'o'
    then record o { allow_other_own_ids = true }
    else if c == b'p'
    then record o { default_permissions = not (int_eq (parse_i64 v) (pos 0)) }
    else if c == b't'
    then record o { multithreads = not (int_eq (parse_i64 v) (pos 0)) }
    else if c == b'f'
    then record o { fsname_given = true }
    else if c == b's'
    then record o { subtype_given = true }
    else if c == b'X'
    then record o { database = v }
    else if c == b'Z'
    then record o { table = v }
    else if c == b'M'
    then record o { cache_memory = memory v }
    else if c == b'w'
    then record o { whitelist_cache = true }
    else if c == b'V'
    then record o { nfs_connections = clamp (parse_i64 v) }
    else if c == b'F'
    then record o { database_type = v }
    else if c == b'y'
    then record o { your_key = v }
    else o

unfoldable pub apply : (Text → ℤ) → ℕ → Text → Opts → Opts
apply memory c v o =
    let q = set_field memory c v o in record q { fuse_opts = o.fuse_opts ++ fuse_args c v }

abbrev pub unwrap_or_default : Option Text → Text
unwrap_or_default none = []
unwrap_or_default (some t) = t

-- The loop of `main`; `none` is the usage text, which ends the program.
unfoldable pub read_opts : (Text → ℤ) → List Command → Opts → Option Opts
read_opts memory [] o = some o
read_opts memory (unknown msg ∷ cs) o = some (record o { unknown_option = some msg })
read_opts memory (opt c v ∷ cs) o =
    let rest = read_opts memory cs (apply memory c (unwrap_or_default v) o) in
    if c == b'?' then none else rest

-- The checks in front of the database: the exit code, or the URL and the mount point.
unfoldable pub preflight : ℤ → Opts → Outcome ℕ (Text × Text)
preflight now o = elim o.url [
  | none ↦ err 10
  | some url ↦ elim o.mnt [
    | none ↦ err 10
    | some mnt ↦
        if not (key_is_good o.your_key now)
        then err 0
        else if not (
            text_eq o.database_type (codes "sqlite3")
            || text_eq o.database_type (codes "postgres")
            || text_eq o.database_type (codes "redis"))
        then err 1
        else if not (check_ident o.table)
        then err 1
        else ok (url, mnt)
  ]
]

abbrev pub base_args : Opts → List Text
base_args o = codes "yourfs" ∷ unwrap_or_default o.mnt ∷ o.fuse_opts

-- What `main` adds to the arguments of the user.
abbrev pub added_args : Opts → List Text
added_args o =
    (if o.allow_other_own_ids && not (any (text_eq (codes "-oallow_other")) o.fuse_opts)
      then codes "-oallow_other" ∷ []
      else [])
    ++ ((if o.fsname_given then [] else (codes "-ofsname=" ++ unwrap_or_default o.url) ∷ [])
        ++ ((if o.subtype_given then [] else codes "-osubtype=fuse-nfs" ∷ [])
            ++ ((if o.default_permissions then codes "-odefault_permissions" ∷ [] else [])
                ++ (if o.multithreads then [] else codes "-s" ∷ []))))

unfoldable pub build_fuse_args : Opts → List Text
build_fuse_args o = base_args o ++ added_args o
