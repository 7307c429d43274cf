-- ===== src/Tool/Isolated/Tables.antt =====
-- src/scan.rs, src/db.rs, src/fs.rs and src/nfscli.rs: the requests of a mount over a sqlite3 table that
-- holds the rows of a scan.
use yourfs.Base.{ℕ, List, [], ◌≡◌}
use yourfs.Base.Text.{Text}
use yourfs.Base.Int.{ℤ}
use yourfs.Scan.Walk.{Entries}
use yourfs.Scan.Walk.Rows.{Row, rows, IsPlain, AllNames}
use yourfs.Db.Cache.{caching, empty}
use yourfs.Db.Retry.{State}
use yourfs.Db.Sqlite.{Client}
use yourfs.Db.Sqlite.Laws.{IsSqlite}
use yourfs.Db.Redis.Contents.{lookup, child_of}
use yourfs.Db.Mounted.{sqlite_database}
use yourfs.Db.Mounted.Speaks.{GoodCache, empty-GoodCache, caching-Speaks}
use yourfs.Db.Mounted.Sqlite.{HasRows, sqlite_database-Speaks}
use yourfs.Fs.Live.Requests.{IsLog}
use yourfs.Nfs.Defs.{Request, Link}
use yourfs.Tool.Isolated.{IsConfined, Speaks-IsConfined}
use yourfs.Tool.Served.Single.{rows-IsSingle}

-- A mount of the table, with the whitelist cache or without it, names to the NFS server the root and
-- the paths of the tree's entries, and no other path.
table-IsConfined :
    {N Statvfs W : Type 0} (link : Link N Statvfs) (lossy : List ℕ → List ℕ)
    (log : N → List Request) (client : Client W) (file : Text) (cache_kb : ℤ) (max : ℕ)
    (table : Text) (held : W → List Row) (es : Entries) (s : State W)
    → IsLog link log
    → IsSqlite client table held
    → AllNames IsPlain es
    → held s.world ≡ rows [] es
    → IsConfined link lossy log (sqlite_database max client file cache_kb) table es s
      × IsConfined link lossy log
          (caching (sqlite_database max client file cache_kb))
          table
          es
          (empty s)
table-IsConfined link lossy log client file cache_kb max table held es s logged laws plain e =
    let rs = rows [] es in
    let db = sqlite_database max client file cache_kb in
    let Good = HasRows client file cache_kb max table held laws rs in
    let speaks =
      sqlite_database-Speaks client file cache_kb max table held laws rs (rows-IsSingle es plain) in
    (
      Speaks-IsConfined link lossy log db table Good (child_of rs) es s speaks logged e,
      Speaks-IsConfined link lossy log (caching db) table
          (GoodCache db table Good (lookup rs) (child_of rs) speaks) (child_of rs) es (empty s)
          (caching-Speaks db table Good (lookup rs) (child_of rs) speaks) logged
          (empty-GoodCache db table Good (lookup rs) (child_of rs) speaks s e),
    )
