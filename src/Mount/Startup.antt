-- ===== src/Mount/Startup.antt =====
-- src/bin/yourfs.rs, the end of `main`, from the database on; and `run` of src/fs.rs. The client
-- libraries, libnfs and the main loop of libfuse are parameters over one world `W`. What is printed is
-- left out, and so is `nfs_get_error`, which only gives a text to print. A C string is the text less its
-- NUL characters (Paths.to_cstring-strip_nul).
pub mod Released
use yourfs.Base.{
  ℕ, suc, ◌%◌, ◌^◌, Bool, true, false, List, [], ◌∷◌, Option, none, some, if◌then◌else◌, map,
}
use yourfs.Base.Text.{Text}
use yourfs.Base.Int.{ℤ, pos, negsuc, int_eq, to_i32, to_u32}
use yourfs.Base.Outcome.{Outcome, ok, err}
use yourfs.Paths.{strip_nul}
use yourfs.Db.Pool.{PoolState}
use yourfs.Db.Cache.{Database}
use yourfs.Db.Retry.{State}
use yourfs.Db.Factory.{Libraries, Backend, open_backend}
use yourfs.Db.Mounted.{database_of}
use yourfs.Nfs.Credentials.{Cfg}
use yourfs.Nfs.Contexts.{Host, Slot, Connections, init, shutdown}
use yourfs.Mount.{Opts, build_fuse_args}
use yourfs.Mount.UrlIds.{url_ids}

-- What the callbacks find in the statics: the whitelist with its table, the ids, the pool.
pub record Context (W : Type 0) : Type 0 where
  pub backend : Backend W
  pub db_pool : PoolState
  pub cached : Bool
  pub table : Text
  pub custom_uid : ℤ
  pub custom_gid : ℤ
  pub connections : Connections

-- `fuse_main` is `fuse_main_real` with the table of operations: it gives the code and the slots as the
-- operations have left them. `fuel` is for the rounds of `check_table`.
pub record Machine (W : Type 0) : Type 0 where
  pub libraries : Libraries W
  pub debug : Text → Text
  pub fuel : ℕ
  pub host : Host W
  pub getuid : ℕ
  pub getgid : ℕ
  pub fuse_main : Context W → List Text → W → (ℤ × List Slot) × W

-- `x as i32` for an `i64`.
as_i32 : ℤ → ℤ
as_i32 x = to_i32 (to_u32 x)

-- The code of the exit after `nfs_mount` has failed: the negation wraps at the least `i32`.
unfoldable pub mount_code : ℤ → ℤ
mount_code (pos n) = pos n
mount_code (negsuc n) = to_i32 (suc n % 2 ^ 32)

module _ {W : Type 0} (machine : Machine W) where
  cfg_of : Opts → Cfg
  unfolding as_i32
  cfg_of o = record {
    custom_uid = as_i32 o.custom_uid;
    custom_gid = as_i32 o.custom_gid;
    allow_other_own_ids = o.allow_other_own_ids;
    mount_user_uid = machine.getuid;
    mount_user_gid = machine.getgid;
  }

  context_of : Opts → Backend W → PoolState → Connections → Context W
  unfolding as_i32
  context_of o backend db_pool connections = record {
    backend = backend;
    db_pool = db_pool;
    cached = o.whitelist_cache;
    table = o.table;
    custom_uid = as_i32 o.custom_uid;
    custom_gid = as_i32 o.custom_gid;
    connections = connections;
  }

  -- From `nfscli::init` to the exit.
  unfoldable pub main_loop : Opts → Backend W → PoolState → ℕ → Text → Text → W → ℤ × W
  unfolding cfg_of context_of
  main_loop o backend db_pool nfs server export w =
      let i = init machine.host nfs server export (cfg_of o) o.nfs_connections w in
      let f =
        machine.fuse_main (context_of o backend db_pool i.0) (map strip_nul (build_fuse_args o))
          i.1 in
      (f.0.0, (shutdown machine.host (record i.0 { slots = f.0.1 }) f.1).1)

  -- After `nfs_mount`.
  on_mount : Opts → Backend W → PoolState → ℕ → ℕ → Text → Text → ℤ × W → ℤ × W
  unfolding main_loop
  on_mount o backend db_pool nfs urls server export (ret, w) =
      if int_eq ret (pos 0)
      then main_loop o backend db_pool nfs server export (machine.host.nfs_destroy_url urls w)
      else (
        mount_code ret,
        machine.host.nfs_destroy_context nfs (machine.host.nfs_destroy_url urls w),
      )

  -- The server and the export of the URL.
  on_parts : Opts → Backend W → PoolState → ℕ → ℕ → Option Text → Option Text → W → ℤ × W
  unfolding on_mount
  on_parts o backend db_pool nfs urls (some server) (some export) w =
      on_mount o backend db_pool nfs urls server export (machine.host.nfs_mount nfs server export w)
  on_parts o backend db_pool nfs urls _ _ w =
      (pos 10, machine.host.nfs_destroy_context nfs (machine.host.nfs_destroy_url urls w))

  -- After `nfs_parse_url_dir`; the ids of the URL override the options.
  on_url : Opts → Text → Backend W → PoolState → ℕ → Option ℕ × W → ℤ × W
  unfolding on_parts
  on_url o url backend db_pool nfs (none, w) = (pos 10, machine.host.nfs_destroy_context nfs w)
  on_url o url backend db_pool nfs (some urls, w) =
      on_parts (url_ids url o) backend db_pool nfs urls (machine.host.server_of urls w)
        (machine.host.path_of urls w) w

  -- After `nfs_init_context`.
  on_context : Opts → Text → Backend W → PoolState → Option ℕ × W → ℤ × W
  unfolding on_url
  on_context o url backend db_pool (none, w) = (pos 10, w)
  on_context o url backend db_pool (some nfs, w) =
      on_url o url backend db_pool nfs (machine.host.nfs_parse_url_dir nfs (strip_nul url) w)

  -- `main` from the call of libnfs on: the exit code and the world.
  unfoldable pub mount_share : Opts → Text → Backend W → PoolState → W → ℤ × W
  unfolding on_context
  mount_share o url backend db_pool w =
      on_context o url backend db_pool (machine.host.nfs_init_context w)

  on_table : Opts → Text → Backend W → Outcome Text (Unit {0}) × State W → ℤ × W
  on_table o url backend (ok u, s) = mount_share o url backend s.pool s.world
  on_table o url backend (err e, s) = (pos 1, s.world)

  on_database : Opts → Text → Outcome Text (Backend W) × W → ℤ × W
  unfolding on_table
  on_database o url (err e, w) = (pos 1, w)
  on_database o url (ok backend, w) =
      let db = database_of 8 machine.libraries machine.fuel backend in
      on_table o url backend
        (db.check_table o.table (record { pool = record { idle = []; created = 0 }; world = w }))

  -- `main` after its first checks (Mount.preflight), with the URL.
  unfoldable pub start : Opts → Text → W → ℤ × W
  unfolding on_database
  start o url w =
      on_database o url
        (open_backend machine.libraries machine.debug o.database_type o.database o.cache_memory w)
