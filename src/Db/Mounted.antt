-- ===== src/Db/Mounted.antt =====
-- src/db.rs: the backends as the `Database` that a mount asks. The mount's thread is alone with the
-- pool here, so that a query comes to an answer or an error (Db.Retry.Lone).
pub mod Speaks
pub mod Redis
pub mod Sqlite
pub mod Postgres
use yourfs.Base.{ℕ, [], Option, none, some, ◌≡◌, ap}
use yourfs.Base.Text.{Text}
use yourfs.Base.Int.{ℤ}
use yourfs.Base.Outcome.{Outcome, ok, err}
use yourfs.Db.Retry.{Ended, answer, error, waits, overflow, State}
use yourfs.Db.Cache.{Database}
use yourfs.Db.Sqlite as lite
use yourfs.Db.Postgres as pg
use yourfs.Db.Redis as redis
use yourfs.Db.Factory.{Libraries, Backend, sqlite_db, pg_db, redis_db}

-- The last two ends are those of a pool that other threads use.
unfoldable pub settled : {A : Type 0} → Ended A → Outcome Text A
settled (answer a) = ok a
settled (error e) = err e
settled waits = err []
settled overflow = err []

-- A loop that the fuel does not cover.
unfoldable pub covered :
    {A W : Type 0} → Option (Ended A × State W) → State W → Outcome Text A × State W
unfolding settled
covered (some r) s = (settled r.0, r.1)
covered none s = (err [], s)

module _ {W : Type 0} (max : ℕ) where
  unfoldable pub sqlite_database : lite.Client W → Text → ℤ → Database (State W)
  sqlite_database client path cache_kb = record {
    resolve =
        λ table p s. let r = lite.resolve client path cache_kb max table p s in (settled r.0, r.1);
    list = λ table p s. let r = lite.list client path cache_kb max table p s in (settled r.0, r.1);
    check_table =
        λ table s. let r = lite.check_table client path cache_kb max table s in (settled r.0, r.1);
  }

  unfoldable pub postgres_database : pg.Client W → pg.Config → Database (State W)
  postgres_database client config = record {
    resolve = λ table p s. let r = pg.resolve max client config table p s in (settled r.0, r.1);
    list = λ table p s. let r = pg.list max client config table p s in (settled r.0, r.1);
    check_table = λ table s. let r = pg.check_table max client config table s in (settled r.0, r.1);
  }

  -- The fuel is for the rounds of `check_table`.
  unfoldable pub redis_database : redis.Client W → ℕ → Database (State W)
  redis_database client fuel = record {
    resolve = λ table p s. let r = redis.resolve max client table p s in (settled r.0, r.1);
    list = λ table p s. let r = redis.list max client table p s in (settled r.0, r.1);
    check_table = λ table s. covered (redis.check_table max client fuel table s) s;
  }

  -- The boxed database that `open` returns.
  unfoldable pub database_of : Libraries W → ℕ → Backend W → Database (State W)
  unfolding sqlite_database postgres_database redis_database
  database_of libraries fuel (sqlite_db path cache_kb) =
      sqlite_database libraries.sqlite path cache_kb
  database_of libraries fuel (pg_db config) = postgres_database libraries.postgres config
  database_of libraries fuel (redis_db client) = redis_database client fuel

settled-ok : {A : Type 0} (e : Ended A) (a : A) → settled e ≡ ok a → e ≡ answer a
unfolding settled
settled-ok (answer b) a h =
    ap (λ (o : Outcome Text _). elim o [ ok x ↦ answer x | err m ↦ answer b ]) h
settled-ok (error e) a h = cc
settled-ok waits a h = cc
settled-ok overflow a h = cc

-- An answer of the database is an answer of the backend.
pub settled-answer :
    {A W : Type 0} (r : Ended A × State W) (a : A) → settled r.0 ≡ ok a → r ≡ (answer a, r.1)
settled-answer (e, s) a h = ap (λ (x : Ended _). (x, s)) (settled-ok e a h)
