-- ===== src/Lib.antt =====
-- yourfs mounts a read-only view of an NFS export: a whitelist in a database says which names a
-- directory shows and which real path of the export stands behind each. This library models the
-- program and proves what makes it correct.
--
-- The parts and their files
--   * src/scan.rs writes the tree of a directory as a text file, one row of three columns for each
--     entry. Scan.Row has the row format (`pad_field`, `write_row` for the body of `walk`,
--     `parse_row`), Scan.Walk the traversal (`walk`, `scan_to_file`) over a tree that holds what
--     `read_dir` reports of the local disk, in its order and with its failures.
--   * src/paths.rs is Paths: `split_path` and `to_cstring`, with `from_nul` in FromNul.
--   * src/bin/yourfs_tool.rs reads the file back and writes it to a database: Load has the lines and
--     the rows that they come to, Tool has `main` with its options, its two modes and its exits, over
--     the trait `Writer`. Tool.Publish is `main` with the redis writer, Tool.SqlWriters has the other
--     two, and Tool.Served goes from the tree of a scan to the answers of a mount.
--   * src/db.rs is Db. Pool has `Pool` and `Pooled` as a step relation: each critical section of
--     the mutex is one step of one thread, waits may end with no notification, and connections are
--     numbers. Retry has `query_retry` (and `cmd_retry`, which has the same body) of a thread that
--     runs alone, over a server with a state of its own. Cache has `CachingDb` in front of any
--     database. Keys has `check_ident`, the keys of the redis backend and `redis_url`, Unsigned the
--     numbers that are parsed. Redis, Postgres and Sqlite are the backends, each with its reader, a
--     Writer below it, and what it relies on of its client library; the SQL text is built as in the
--     source. Factory has `open` and `writer`. Mounted has the backends as the `Database` that a mount
--     asks, and the contract (Speaks) that they and the cache keep to.
--   * src/fs.rs is Fs.Defs: the handlers `getattr`, `readlink`, `open`, `readdir` and `statfs`, over
--     two interfaces, the whitelist and the NFS client, with fixed answers. Fs.Live has all seven
--     handlers with the state that they change, and the calls of a mount one after the other.
--     Fs.Operations is the table of callbacks (`operations`, and `fuse_operations` of src/fuse2.rs).
--   * src/nfscli.rs is Nfs. Defs has the pool of contexts with its round robin and its table of
--     handles, over a link that says what an operation comes to on the connection of a slot, and
--     `read_cb` of src/libnfs.rs. Credentials has `update_rpc_credentials`. Readlink has `readlink`
--     with its callback, Files the handlers `read` and `release` of src/fs.rs over the pool. Actor has
--     the thread that owns a connection (`runner`, `handle_task`, `complete`) as a step relation.
--     Contexts has `mount_extra`, `init`, `ensure_started` and `shutdown`, Callbacks the callbacks of
--     src/libnfs.rs over the memory of the process.
--   * src/cli.rs is Cli: the option parser (Parser), the tables (Specs) and the numbers (Number, Float).
--     Cli.Parser.Items describes command lines independently of the parser.
--   * src/key.rs is Key: the keys, their dates and `days_from_civil`.
--   * src/bin/yourfs.rs is Mount: the options, the checks in front of the database,
--     `build_fuse_args`, the ids in the URL (UrlIds), and `main` from the database to its exit, with
--     `run` of src/fs.rs (Startup).
--   * Tool.Isolated puts the parts together, from a scan to the requests of a mount.
-- A function has the name that it has in the source; `open` is `open_file` in Nfs and `open_handle`
-- in Fs, and the parts of a long function have names of their own, under its comment.
--
-- How the parts interact: the tool loads what the scanner writes, and the reader of a backend asks
-- for what its writer wrote; the handlers ask the whitelist, through the cache if there is one, and
-- hand the real path to the NFS client; the client sends each operation to one connection, and a
-- handle to the connection that opened it; the two programs read their options with the same parser.
--
-- Numbers: lengths, counters and characters are natural numbers, with the width written out where the
-- code wraps (`next` is a `usize`), casts (`as i64`, `as i32`, `as u32`) or can underflow
-- (`created`, `inflight`); signed integers are Base.Int. Text is a list of Unicode scalar values; the
-- code's byte offsets are modelled where it slices by them (Base.Text). An error is a value of
-- Base.Outcome; a panic is `none`.
--
-- Fuel: `next_command` calls itself at most once for one call, so `next_on 2` is the whole function;
-- the loop over the options takes one round more than the line has arguments and characters. Both
-- are proved in Cli.Parser.Progress. The SCAN loops of the redis backend (`check_table`, `create`)
-- take fuel for the rounds of the server: `left` of a View bounds them, and more fuel than that is
-- enough (Db.Redis.Reader.Probe, Db.Redis.Writer.Drop). Every other loop is structural recursion.
--
-- Not modelled: the foreign declarations of src/fuse2.rs and src/libnfs.rs, and the main loop of libfuse,
-- which is a parameter of Mount.Startup; the client libraries of the three databases; the channels
-- between a worker and the thread of a connection, and `pump`, which polls a socket; the
-- floating-point numbers that `parse_f64` reads from its prefix; the messages of both programs; lines
-- of a file that are not UTF-8, which the tool passes over; build.rs, which probes the file system
-- and prints linker flags.
--
-- Parameters: the time of `key_is_good`, the database behind the cache, the server behind the retry,
-- the whitelist and the NFS client of the handlers, the link of the pool, the local disk of the tool,
-- the client libraries, libnfs with the threads of the standard library (Host), and the main loop of
-- libfuse are arguments. Where a theorem needs something of them, it is a named predicate among its
-- hypotheses: IsStatic, Counts, Agrees, GivesData, IsPush, Calm, Speaks; IsUp for a server that takes
-- connections and answers; IsRedis, IsPostgres and IsSqlite for what the commands and the queries do
-- to the data; IsHost for the pointers that libnfs has handed out, and LeavesContexts for a main loop
-- that takes and frees none; IsLog and IsLogged for records of requests, statements and threads.
-- Tests has a concrete library for each of them that a result counts on.
pub mod Base
pub mod Paths
pub mod Scan
pub mod Load
pub mod Db
pub mod Fs
pub mod Nfs
pub mod Key
pub mod Mount
pub mod Tool
pub mod Cli
mod Tests
