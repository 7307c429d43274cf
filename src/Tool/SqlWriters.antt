-- ===== src/Tool/SqlWriters.antt =====
-- src/db.rs, `impl Writer for SqliteWriter` and `for PgWriter`, as the tool uses them.
use yourfs.Base.{some}
use yourfs.Base.Outcome.{Outcome, ok}
use yourfs.Db.Keys.{Failure}
use yourfs.Db.Sqlite as lite
use yourfs.Db.Sqlite.Writer as lite_writer
use yourfs.Db.Postgres as pg
use yourfs.Db.Postgres.Writer as pg_writer
use yourfs.Tool.{Writer}

paired : {R W : Type 0} → Outcome Failure (Unit {0}) × R × W → Outcome Failure (Unit {0}) × (R × W)
paired (o, r, w) = (o, (r, w))

unfoldable pub sqlite_writer :
    {W : Type 0} → lite.Client W → Writer (lite_writer.SqliteWriter × W) Failure
unfolding paired
sqlite_writer client = record {
  create = λ table s. some (paired (lite_writer.create client table s.0 s.1));
  insert = λ table row s. (ok tt, (lite_writer.insert row s.0, s.1));
  finish = λ s. paired (lite_writer.finish client s.0 s.1);
}

unfoldable pub pg_table_writer :
    {W : Type 0} → pg.Client W → Writer (pg_writer.PgWriter × W) Failure
unfolding paired
pg_table_writer client = record {
  create = λ table s. some (paired (pg_writer.create client table s.0 s.1));
  insert = λ table row s. (ok tt, (pg_writer.insert row s.0, s.1));
  finish = λ s. paired (pg_writer.finish client s.0 s.1);
}
