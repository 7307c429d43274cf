-- ===== src/Tests/Mounted.antt =====
-- Tests of src/fs.rs over the redis backend of src/db.rs, with an NFS server that logs its requests.
use yourfs.Base.{ℕ, List, [], ◌∷◌, none, some, length, ◌⊎◌, ◌≡◌, ◌≢◌, refl, arith}
use yourfs.Base.Text.{Text, codes}
use yourfs.Base.Outcome.{and_then}
use yourfs.Base.Int.{pos, to_u64}
use yourfs.Scan.Walk.{dir, scan_to_file}
use yourfs.Scan.Walk.Rows.{rows}
use yourfs.Db.Cache.{Database, caching, empty}
use yourfs.Db.Retry.{State, waits, overflow, query_retry, round, get, finish}
use yourfs.Db.Retry.Lone.{Lone, query_retry-Lone}
use yourfs.Db.Redis.{Write, server, hget, resolve, cmd_retry}
use yourfs.Db.Redis.Contents.{lookup, child_of}
use yourfs.Db.Mounted.{redis_database, settled}
use yourfs.Db.Pool.{try_get, give_back}
use yourfs.Db.Keys.{hash_key}
use yourfs.Db.Redis.Laws.{stored}
use yourfs.Db.Redis.Writer.{writes, finish as send}
use yourfs.Paths.{split_path, rfind}
use yourfs.Nfs.Files.{read_file, release_file}
use yourfs.Db.Mounted.Redis.{HoldsRows, redis_database-Speaks}
use yourfs.Db.Mounted.Speaks.{Speaks}
use yourfs.Fs.Defs.{Ids, Stat}
use yourfs.Fs.Defs as fixed
use yourfs.Fs.Live.{
  Mount, Call, getattrs, opens, reads, releases, readdirs, serve_all, getattr, open_handle, readdir,
  serve, real_or_root, real_path, answered, on_nfs,
}
use yourfs.Fs.Live.Requests.{IsLog}
use yourfs.Nfs.Defs.{
  lstat64, open_file, close, pread, pick, find, insert, remove, pread_on, closed, Request, closes,
  preads, lstats, opens as asks_open, NfsPool, Link,
}
use yourfs.Tool.{Exit, loaded, failed, write_mode}
use yourfs.Tool.Publish.{Session, redis_writer}
use yourfs.Tool.Isolated.{IsConfined, scan-IsConfined}
use yourfs.Tests.Fs.{stat, ids}
use yourfs.Tests.Redis.{before, writer, tree, one_round, names, after_state}
use yourfs.Tests.Store.{store, contents, reply}
use yourfs.Tests.Store.Laws.{store-IsRedis}

-- Every request succeeds, with a handle 77.
abbrev link : Link (List Request) ℕ
link i c q log =
    (record { status = pos 0; ptr = 77; bytes = none; stat = stat 5; svfs = 9 }, q ∷ log)

abbrev lossy : List ℕ → List ℕ
lossy bytes = bytes

abbrev whole_log : List Request → List Request
whole_log log = log

link-IsLog : IsLog link whole_log
link-IsLog i c q log = refl

abbrev one : NfsPool
one = record { slots = 1; next = 0; open_files = [] }

abbrev calls : List (Ids × Call)
calls =
    (ids, getattrs (codes "/a/b"))
    ∷ (ids, opens (codes "/a/b") (pos 0) 0)
    ∷ (ids, reads 77 (pos 0) (1 ∷ 2 ∷ []))
    ∷ (ids, releases 77)
    ∷ (ids, getattrs (codes "/secret"))
    ∷ (ids, readdirs (codes "/"))
    ∷ []

abbrev data_db : Database (State (List Write))
data_db = redis_database 10 store 1

abbrev mount : Mount (State (List Write)) (List Request)
mount = record { whitelist = after_state; pool = one; net = [] }

query_retry-Lone_example :
    (((query_retry 10 (server 10 store (hget [] [])) after_state).0 ≢ waits)
      × ((query_retry 10 (server 10 store (hget [] [])) after_state).0 ≢ overflow))
    × Lone 10
        (server 10 store (hget [] []))
        (omega arith)
        (query_retry 10 (server 10 store (hget [] [])) after_state).1
query_retry-Lone_example =
    query_retry-Lone 10 (server 10 store (hget [] [])) (omega arith) after_state refl

abbrev data_speaks :
    Speaks data_db
      (codes "data")
      (HoldsRows 10 store contents store-IsRedis (codes "data") (rows [] tree))
      (lookup (rows [] tree))
      (child_of (rows [] tree))
data_speaks = redis_database-Speaks 10 store contents store-IsRedis (codes "data") (rows [] tree) 1

scan-IsConfined_example :
    (file : Text) × (scan_to_file (codes "/srv") (dir tree) ≡ some file)
    × ((x : Exit × Session (List Write)) × (write_mode
            (redis_writer store 1)
            (codes "data")
            file
            (record { writer = writer; outside = before })
          ≡ some x)
        × ((x.0 ≡ failed)
            ⊎ ((x.0 ≡ loaded (length (rows [] tree)) 0)
                × ((s : State (List Write))
                    → s.world ≡ x.1.outside
                    → IsConfined link lossy whole_log
                        (redis_database 10 store 1)
                        (codes "data")
                        tree
                        s
                      × IsConfined link lossy whole_log
                          (caching (redis_database 10 store 1))
                          (codes "data")
                          tree
                          (empty s)))))
scan-IsConfined_example =
    scan-IsConfined link lossy whole_log store contents store-IsRedis 1 10 (codes "data")
      (codes "/srv") tree writer before link-IsLog names refl one_round

-- The requests of the calls, newest first: the path that is not whitelisted makes none.
requests :
    (serve_all data_db (codes "data") link lossy calls mount).1.net
    ≡ closes 77 ∷ preads 77 0 2 ∷ asks_open (codes "/a/b") (pos 0) ∷ lstats (codes "/a/b") ∷ []
unfolding serve_all serve getattr real_or_root real_path answered and_then on_nfs open_handle
    redis_database settled resolve cmd_retry server query_retry round get try_get give_back finish
    store reply lstat64 open_file close pread pick find insert remove read_file release_file stored
    split_path rfind hash_key pread_on closed writes send to_u64 readdir rows
requests = refl
