-- ===== src/Tool/Isolated.antt =====
-- src/scan.rs, src/bin/yourfs_tool.rs, src/db.rs, src/fs.rs and src/nfscli.rs: from a scan to the
-- requests of a mount.
pub mod Inside
pub mod Tables
use yourfs.Base.{
  ℕ, ◌<◌, List, [], ◌∷◌, Option, some, length, All, All-imp, Bool, ◌⊎◌, ◌≡◌, sym, inl, inr,
}
use mathlib.Core.Path.{subst}
use yourfs.Base.Text.{Text}
use yourfs.Scan.Walk.{dir, Entries, scan_to_file}
use yourfs.Scan.Walk.Rows.{rows, AllNames}
use yourfs.Load.RoundTrip.{IsName}
use yourfs.Db.Cache.{Database, caching, empty}
use yourfs.Db.Retry.{State}
use yourfs.Db.Redis.{Client}
use yourfs.Db.Redis.Laws.{View, IsRedis}
use yourfs.Db.Redis.Writer.{RedisWriter}
use yourfs.Db.Redis.Contents.{lookup, child_of, Holds}
use yourfs.Db.Mounted.{redis_database}
use yourfs.Db.Mounted.Speaks.{Speaks, GoodCache, empty-GoodCache, caching-Speaks}
use yourfs.Db.Mounted.Redis.{HoldsRows, redis_database-Speaks}
use yourfs.Fs.Defs.{Ids}
use yourfs.Fs.Live.{Mount, Call, serve_all}
use yourfs.Fs.Live.Requests.{Listed, IsLog, serve_all-Listed}
use yourfs.Nfs.Defs.{Request, lstats, opens, closes, preads, statvfses, readlinks, NfsPool, Link}
use yourfs.Nfs.Named.{Names}
use yourfs.Tool.{Exit, loaded, failed as fails, write_mode}
use yourfs.Tool.Publish.{Session, redis_writer}
use yourfs.Tool.Served.{scan-Holds}
use yourfs.Tool.Isolated.Inside.{IsInside, lookup-IsInside}

Listed-IsInside :
    (es : Entries) (real : Text) → Listed (lookup (rows [] es)) real → IsInside es real
Listed-IsInside es real (inl r) = inl r
Listed-IsInside es real (inr (path, e)) = lookup-IsInside es path real e

Names-imp : (P Q : Text → Type 0) → ((x : Text) → P x → Q x) → (q : Request) → Names P q → Names Q q
Names-imp P Q f (lstats path) h = f path h
Names-imp P Q f (opens path flags) h = f path h
Names-imp P Q f (statvfses path) h = f path h
Names-imp P Q f (readlinks path) h = f path h
Names-imp P Q f (closes fh) h = h
Names-imp P Q f (preads fh offset size) h = h

-- An NFS server that logs what it is asked.
module _ {N Statvfs : Type 0} (link : Link N Statvfs) (lossy : List ℕ → List ℕ)
    (log : N → List Request) where
  -- A mount with this whitelist, whatever its calls, names the root and the entries of the tree
  -- to the server, and no other path.
  abbrev pub IsConfined : {V : Type 0} → Database V → Text → Entries → V → Type 0
  IsConfined db table es v =
      (calls : List (Ids × Call)) (pool : NfsPool) (net : N)
      → log net ≡ []
      → let m : Mount _ N = record { whitelist = v; pool = pool; net = net } in
        All (Names (IsInside es)) (log (serve_all db table link lossy calls m).1.net)

  Speaks-IsConfined :
      {V : Type 0} (db : Database V) (table : Text) (Good : V → Type 0) (child : Text → Text → Bool)
      (es : Entries) (v : V)
      → Speaks db table Good (lookup (rows [] es)) child
      → IsLog link log
      → Good v
      → IsConfined db table es v
  Speaks-IsConfined db table Good child es v speaks logged good calls pool net none_yet =
      let says = lookup (rows [] es) in
      let m : Mount _ N = record { whitelist = v; pool = pool; net = net } in
      let asked =
        (serve_all-Listed db table link lossy Good says child log calls m speaks logged good
          (subst (All (Names (Listed says))) (sym none_yet) tt)).0 in
      All-imp (Names (Listed says)) (Names (IsInside es)) _
        (Names-imp (Listed says) (IsInside es) (Listed-IsInside es)) asked

  module _ {W : Type 0} (client : Client W) (view : View W) (laws : IsRedis view client)
      (fuel max : ℕ) (table : Text) where
    Holds-IsConfined :
        (es : Entries) (s : State W)
        → IsLog link log
        → Holds view table (rows [] es) s.world
        → IsConfined (redis_database max client fuel) table es s
          × IsConfined (caching (redis_database max client fuel)) table es (empty s)
    Holds-IsConfined es s logged held =
        let rs = rows [] es in
        let db = redis_database max client fuel in
        let Good = HoldsRows max client view laws table rs in
        let speaks = redis_database-Speaks max client view laws table rs fuel in
        (
          Speaks-IsConfined db table Good (child_of rs) es s speaks logged held,
          Speaks-IsConfined (caching db) table
              (GoodCache db table Good (lookup rs) (child_of rs) speaks) (child_of rs) es (empty s)
              (caching-Speaks db table Good (lookup rs) (child_of rs) speaks) logged
              (empty-GoodCache db table Good (lookup rs) (child_of rs) speaks s held),
        )

    -- From a scan to the requests. A tree whose names have no newline is scanned to a file, and the
    -- write mode on that file fails, or it counts every row and skips none. In the second case a mount
    -- over that server, with the whitelist cache or without it, names to the NFS server the root and
    -- the paths of the tree's entries, and no other path, whatever calls come and however the queries
    -- and requests end. `fuel` covers the rounds of the server's SCAN.
    pub scan-IsConfined :
        (scan_path : Text) (es : Entries) (r : RedisWriter) (u : W)
        → IsLog link log
        → AllNames IsName es
        → r.batch ≡ []
        → view.left u 0 < fuel
        → (file : Text) × (scan_to_file scan_path (dir es) ≡ some file)
          × ((x : Exit × Session W) × (write_mode
                  (redis_writer client fuel)
                  table
                  file
                  (record { writer = r; outside = u })
                ≡ some x)
              × ((x.0 ≡ fails)
                  ⊎ ((x.0 ≡ loaded (length (rows [] es)) 0)
                      × ((s : State W)
                          → s.world ≡ x.1.outside
                          → IsConfined (redis_database max client fuel) table es s
                            × IsConfined
                                (caching (redis_database max client fuel))
                                table
                                es
                                (empty s)))))
    scan-IsConfined scan_path es r u logged h b f =
        let (file, e, (x, q, ends)) =
          scan-Holds client view laws fuel table scan_path es r u h b f in
        (
          file,
          e,
          (
            x,
            q,
            elim ends [
              | inl g ↦ inl g
              | inr (g, held) ↦ inr (
                g,
                λ s same.
                    Holds-IsConfined es s logged
                      (subst (Holds view table (rows [] es)) (sym same) held),
              )
            ],
          ),
        )
