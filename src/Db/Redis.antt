-- ===== src/Db/Redis.antt =====
-- src/db.rs, `RedisDb` and `RedisWriter`: the redis backend, over the client library. A command has
-- a reply of its own type; the connections, the server and the network are a state `W`.
pub mod Writer
pub mod Laws
pub mod Sorted
pub mod Pattern
pub mod Contents
pub mod Reader
use yourfs.Base.{
  ℕ, zero, suc, ◌*◌, ◌+◌, ◌-◌, ◌^◌, Bool, true, false, List, [], ◌∷◌, ◌++◌, Option, none, some, ltb,
  if◌then◌else◌, is_empty, all, ◌==◌,
}
use yourfs.Base.Text.{Text, codes, text_eq}
use yourfs.Base.Outcome.{Outcome, ok, err}
use yourfs.Paths.{split_path}
use yourfs.Db.Unsigned.{parse_unsigned}
use yourfs.Db.Pool.{PoolState}
use yourfs.Db.Keys.{check_ident, dir_key, hash_key, redis_url}
use yourfs.Db.Retry.{
  Reply, rows, failed, Server, Ended, answer, error, waits, overflow, State, query_retry,
}
use yourfs.Scan.Walk.Rows.{Row}

-- The writes of a transaction; the score of a member is 0.
pub data Write : Type 0 where
  zadd : Text → Text → Write
  hset : Text → Text → Text → Write

-- The commands that are sent. `scan` has its cursor and its pattern, with a COUNT of 1000.
pub data Cmd : Type 0 where
  ping : Cmd
  hget : Text → Text → Cmd
  zrange : Text → Cmd
  scan : ℕ → Text → Cmd
  del : List Text → Cmd
  atomic : List Write → Cmd

abbrev pub Answer : Cmd → Type 0
Answer ping = Text
Answer (hget key field) = Option Text
Answer (zrange key) = List Text
Answer (scan cursor pattern) = Text × List Text
Answer (del keys) = ℕ
Answer (atomic writes) = Unit {0}

pub record Client (W : Type 0) : Type 0 where
  pub make : W → Outcome Text ℕ × W
  pub query : ℕ → (c : Cmd) → W → Reply (Answer c) × W

abbrev pub parse_u64 : Text → Outcome Text ℕ
parse_u64 = parse_unsigned 64

unfoldable pub pattern : Text → Text
pattern table = table ++ codes "|*"

-- `RedisDb::connect`: the pool, once a connection of its own has answered a PING. `dial` is
-- `Client::open` and `get_connection` for a URL.
probed : {W : Type 0} → Client W → Outcome Text ℕ × W → Outcome Text (Client W) × W
probed client (err e, w) = (err e, w)
probed client (ok c, w) =
    let r = client.query c ping w in (elim r.0 [ rows pong ↦ ok client | failed io e ↦ err e ], r.1)

unfoldable pub connect :
    {W : Type 0} → (Text → Outcome Text (Client W)) → Text → W → Outcome Text (Client W) × W
unfolding probed
connect dial spec w = elim (dial (redis_url spec)) [
  | err e ↦ (err e, w)
  | ok client ↦ probed client (client.make w)
]

module _ {W : Type 0} (max : ℕ) (client : Client W) where
  unfoldable pub server : (c : Cmd) → Server W (Answer c)
  server c = record { make = client.make; query = λ n w. client.query n c w }

  unfoldable pub cmd_retry : (c : Cmd) → State W → Ended (Answer c) × State W
  cmd_retry c s = query_retry max (server c) s

  unfoldable pub resolve : Text → Text → State W → Ended (Option Text) × State W
  resolve table path s =
      if text_eq path (codes "/")
      then (answer (some (codes "/")), s)
      else (let (parent, name) = split_path path in cmd_retry (hget (hash_key table parent) name) s)

  unfoldable pub list : Text → Text → State W → Ended (List Text) × State W
  list table path s = cmd_retry (zrange (dir_key table path)) s

  -- The loop of `check_table`; `none` is more rounds than the fuel covers.
  unfoldable pub next_round :
      (ℕ → State W → Option (Ended (Unit {0}) × State W))
      → Text
      → State W
      → Outcome Text ℕ
      → Option (Ended (Unit {0}) × State W)
  next_round again table s (err e) = some (error e, s)
  next_round again table s (ok zero) = some (
    error (
        codes "no keys for table '"
        ++ (table ++ codes "' in this redis database (build it with yourfs-tool)")),
    s,
  )
  next_round again table s (ok (suc n)) = again (suc n) s

  unfoldable pub scanned :
      (ℕ → State W → Option (Ended (Unit {0}) × State W))
      → Text
      → Ended (Text × List Text) × State W
      → Option (Ended (Unit {0}) × State W)
  scanned again table (answer (next, []), s) = next_round again table s (parse_u64 next)
  scanned again table (answer (next, k ∷ ks), s) = some (answer tt, s)
  scanned again table (error e, s) = some (error e, s)
  scanned again table (waits, s) = some (waits, s)
  scanned again table (overflow, s) = some (overflow, s)

  unfoldable pub scan_from : ℕ → Text → ℕ → State W → Option (Ended (Unit {0}) × State W)
  scan_from zero table cursor s = none
  scan_from (suc n) table cursor s =
      scanned (λ c t. scan_from n table c t) table (cmd_retry (scan cursor (pattern table)) s)

  unfoldable pub check_table : ℕ → Text → State W → Option (Ended (Unit {0}) × State W)
  check_table fuel table s = scan_from fuel table 0 s
