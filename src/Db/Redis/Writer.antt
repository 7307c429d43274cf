-- ===== src/Db/Redis/Writer.antt =====
-- src/db.rs, `RedisWriter`: the table is dropped key by key, and the rows are written at the end.
pub mod Drop
use yourfs.Base.{
  ℕ, zero, suc, Bool, true, false, not, List, [], ◌∷◌, ◌++◌, Option, none, some, if◌then◌else◌,
  is_empty,
}
use yourfs.Base.Text.{Text}
use yourfs.Base.Outcome.{Outcome, ok, err}
use yourfs.Db.Keys.{Failure, bad_name, reported, check_ident, dir_key, hash_key}
use yourfs.Db.Retry.{Reply, rows, failed}
use yourfs.Db.Redis.{Write, zadd, hset, scan, del, atomic, Client, parse_u64, pattern}
use yourfs.Scan.Walk.Rows.{Row}

pub record RedisWriter : Type 0 where
  pub conn : ℕ
  pub table : Text
  pub batch : List Row

-- `Writer::insert` of the three backends pushes a row.
unfoldable pub insert : Row → RedisWriter → RedisWriter
insert row w = record w { batch = w.batch ++ row ∷ [] }

-- The transaction of `finish`.
unfoldable pub writes : Text → List Row → List Write
writes table [] = []
writes table ((parent, name, realpath) ∷ rs) =
    zadd (dir_key table parent) name ∷ hset (hash_key table parent) name realpath ∷ writes table rs

module _ {W : Type 0} (client : Client W) where
  -- What a call comes to: its result, the writer and the state after it.
  abbrev pub Did : Type 0
  Did = Outcome Failure (Unit {0}) × RedisWriter × W

  -- `RedisWriter::connect`, for the client of the URL.
  unfoldable pub open_writer : W → Outcome Text RedisWriter × W
  open_writer w = elim (client.make w).0 [
    | ok c ↦ (ok (record { conn = c; table = []; batch = [] }), (client.make w).1)
    | err e ↦ (err e, (client.make w).1)
  ]

  -- The end of a round: the next cursor.
  unfoldable pub advance : (ℕ → W → Option Did) → RedisWriter → Outcome Text ℕ → W → Option Did
  advance again r (err e) w = some (err (reported e), r, w)
  advance again r (ok zero) w = some (ok tt, r, w)
  advance again r (ok (suc n)) w = again (suc n) w

  unfoldable pub deleted : (ℕ → W → Option Did) → RedisWriter → Text → Reply ℕ × W → Option Did
  unfolding advance
  deleted again r next (rows n, w) = advance again r (parse_u64 next) w
  deleted again r next (failed io e, w) = some (err (reported e), r, w)

  unfoldable pub found :
      (ℕ → W → Option Did) → RedisWriter → Reply (Text × List Text) × W → Option Did
  unfolding advance deleted
  found again r (failed io e, w) = some (err (reported e), r, w)
  found again r (rows (next, []), w) = advance again r (parse_u64 next) w
  found again r (rows (next, k ∷ ks), w) =
      deleted again r next (client.query r.conn (del (k ∷ ks)) w)

  -- The loop of `create`; `none` is more rounds than the fuel covers.
  unfoldable pub drop_from : ℕ → RedisWriter → ℕ → W → Option Did
  unfolding found
  drop_from zero r cursor w = none
  drop_from (suc n) r cursor w =
      found (λ c v. drop_from n r c v) r (client.query r.conn (scan cursor (pattern r.table)) w)

  unfoldable pub create : ℕ → Text → RedisWriter → W → Option Did
  create fuel table r w =
      if check_ident table
      then drop_from fuel (record r { table = table }) 0 w
      else some (err (bad_name table), r, w)

  unfoldable pub sent : RedisWriter → Reply (Unit {0}) × W → Did
  sent r (rows u, w) = (ok tt, record r { batch = [] }, w)
  sent r (failed io e, w) = (err (reported e), r, w)

  unfoldable pub finish : RedisWriter → W → Did
  unfolding sent
  finish r w =
      if is_empty r.batch
      then (ok tt, r, w)
      else sent r (client.query r.conn (atomic (writes r.table r.batch)) w)
