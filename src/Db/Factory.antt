-- ===== src/Db/Factory.antt =====
-- src/db.rs, `open` and `writer`: the backend of a name. The three client libraries share the world `W`;
-- `debug` is the `Debug` form of a text.
use yourfs.Base.{◌++◌, if◌then◌else◌}
use yourfs.Base.Text.{Text, codes, text_eq}
use yourfs.Base.Int.{ℤ}
use yourfs.Base.Outcome.{Outcome, ok, err, and_then}
use yourfs.Db.Keys.{redis_url}
use yourfs.Db.Sqlite as lite
use yourfs.Db.Sqlite.Writer as lite_writer
use yourfs.Db.Postgres as pg
use yourfs.Db.Postgres.Writer as pg_writer
use yourfs.Db.Redis as redis
use yourfs.Db.Redis.Writer as redis_writer

-- The client libraries.
pub record Libraries (W : Type 0) : Type 0 where
  pub sqlite : lite.Client W
  pub postgres : pg.Client W
  pub redis_dial : Text → Outcome Text (redis.Client W)

-- What `open` gives: the file with its cache size, the configuration, or the client of the URL.
pub data Backend (W : Type 0) : Type 0 where
  sqlite_db : Text → ℤ → Backend W
  pg_db : pg.Config → Backend W
  redis_db : redis.Client W → Backend W

pub data TableWriter : Type 0 where
  to_sqlite : lite_writer.SqliteWriter → TableWriter
  to_postgres : pg_writer.PgWriter → TableWriter
  to_redis : redis_writer.RedisWriter → TableWriter

unfoldable pub unsupported : (Text → Text) → Text → Text
unsupported debug name = codes "unsupported database type: " ++ debug name

module _ {W : Type 0} (libraries : Libraries W) (debug : Text → Text) where
  unfoldable pub open_backend : Text → Text → ℤ → W → Outcome Text (Backend W) × W
  open_backend name database cache_kb w =
      if text_eq name (codes "sqlite3")
      then and_then (lite.open_db libraries.sqlite database cache_kb w)
          (λ u v. (ok (sqlite_db database cache_kb), v))
      else if text_eq name (codes "postgres")
      then and_then (pg.connect libraries.postgres database w) (λ config v. (ok (pg_db config), v))
      else if text_eq name (codes "redis")
      then and_then (redis.connect libraries.redis_dial database w)
          (λ client v. (ok (redis_db client), v))
      else (err (unsupported debug name), w)

  unfoldable pub writer : Text → Text → ℤ → W → Outcome Text TableWriter × W
  writer name database cache_kb w =
      if text_eq name (codes "sqlite3")
      then and_then (lite_writer.open_writer libraries.sqlite database cache_kb w)
          (λ r v. (ok (to_sqlite r), v))
      else if text_eq name (codes "postgres")
      then and_then (pg_writer.new_writer database, w) (λ r v. (ok (to_postgres r), v))
      else if text_eq name (codes "redis")
      then elim (libraries.redis_dial (redis_url database)) [
        | ok client ↦ and_then (redis_writer.open_writer client w) (λ r v. (ok (to_redis r), v))
        | err e ↦ (err e, w)
      ]
      else (err (unsupported debug name), w)
