-- ===== src/Db/Postgres.antt =====
-- src/db.rs, `PgDb`: the postgres reader, over the client library. The text of a statement is what the
-- source builds; a row is what `try_get(0)` gives on it.
pub mod Writer
pub mod Laws
pub mod Trimmed
pub mod Answers
use yourfs.Base.{ℕ, Bool, true, false, List, [], ◌∷◌, ◌++◌, Option, none, some, if◌then◌else◌}
use yourfs.Base.Text.{Text, codes, text_eq, trim_end_matches}
use yourfs.Base.Outcome.{Outcome, ok, err}
use yourfs.Paths.{split_path}
use yourfs.Db.Unsigned.{parse_unsigned}
use yourfs.Db.Keys.{split}
use yourfs.Db.Retry.{Reply, Server, Ended, answer, error, waits, overflow, State, query_retry}

unfoldable pub trim_padded : Text → Text
trim_padded s = trim_end_matches b' ' s

abbrev pub Column : Type 0
Column = Outcome Text (Option Text)

pub record Config : Type 0 where
  pub host : Text
  pub port : ℕ
  pub user : Text
  pub password : Text
  pub dbname : Text

-- `Config::connect`, a query, the simple protocol, a statement of a transaction. A query of the last
-- two kinds has no rows that are read.
pub record Client (W : Type 0) : Type 0 where
  pub dial : Config → W → Outcome Text ℕ × W
  pub query : ℕ → Text → List Text → W → Reply (List Column) × W
  pub simple_query : ℕ → Text → W → Outcome Text (Unit {0}) × W
  pub prepare : ℕ → Text → W → Outcome Text (Unit {0}) × W
  pub execute : ℕ → Text → List Text → W → Outcome Text (Unit {0}) × W

abbrev pub expects : Text
expects = codes "postgres -X expects ip,port,user,passwd,dbname"

with_port : Text → Text → Text → Text → Outcome Text ℕ → Outcome Text Config
with_port host user pass name (ok port) =
    ok (record { host = host; port = port; user = user; password = pass; dbname = name })
with_port host user pass name (err e) = err e

five : List Text → Outcome Text Config
unfolding with_port
five (host ∷ port ∷ user ∷ pass ∷ name ∷ []) =
    with_port host user pass name (parse_unsigned 16 port)
five _ = err expects

-- The spec of `-X`.
unfoldable pub parse_spec : Text → Outcome Text Config
unfolding five
parse_spec spec = five (split b',' spec)

module _ {W : Type 0} (client : Client W) where
  -- `PgDb::connect`: the configuration of the pool, once a connection has been made.
  dialled : Config → Outcome Text ℕ × W → Outcome Text Config × W
  dialled c (ok n, w) = (ok c, w)
  dialled c (err e, w) = (err e, w)

  unfoldable pub connect : Text → W → Outcome Text Config × W
  unfolding dialled
  connect spec w = elim (parse_spec spec) [
    | ok c ↦ dialled c (client.dial c w)
    | err e ↦ (err e, w)
  ]

unfoldable pub select_realpath : Text → Text
select_realpath table =
    codes "SELECT realpath FROM " ++ (table ++ codes " WHERE parent=$1 AND name=$2 LIMIT 1")

unfoldable pub select_names : Text → Text
select_names table = codes "SELECT name FROM " ++ (table ++ codes " WHERE parent=$1 ORDER BY name")

abbrev pub to_regclass : Text
to_regclass = codes "SELECT to_regclass($1)"

-- What follows an answer of `query_retry`; the other ends are passed on.
unfoldable pub then_read : {A B : Type 0} → (A → Outcome Text B) → Ended A → Ended B
then_read read (answer a) = elim (read a) [ ok b ↦ answer b | err e ↦ error e ]
then_read read (error e) = error e
then_read read waits = waits
then_read read overflow = overflow

trimmed : Column → Outcome Text (Option Text)
trimmed (ok (some v)) = ok (some (trim_padded v))
trimmed (ok none) = ok none
trimmed (err e) = err e

unfoldable pub first_realpath : List Column → Outcome Text (Option Text)
unfolding trimmed
first_realpath [] = ok none
first_realpath (row ∷ rows) = trimmed row

name_then : Column → Outcome Text (List Text) → Outcome Text (List Text)
name_then (err e) rest = err e
name_then (ok none) rest = rest
name_then (ok (some v)) (ok out) = ok (trim_padded v ∷ out)
name_then (ok (some v)) (err e) = err e

unfoldable pub all_names : List Column → Outcome Text (List Text)
unfolding name_then
all_names [] = ok []
all_names (row ∷ rows) = name_then row (all_names rows)

missing : Text → Outcome Text (Unit {0})
missing table = err (
    codes "table '"
    ++ (table ++ codes "' does not exist in this postgres database (build it with yourfs-tool)"))

unfoldable pub regclass : Text → List Column → Outcome Text (Unit {0})
unfolding missing
regclass table [] = missing table
regclass table (ok (some v) ∷ rows) = ok tt
regclass table (ok none ∷ rows) = missing table
regclass table (err e ∷ rows) = err e

module _ {W : Type 0} (max : ℕ) (client : Client W) (config : Config) where
  unfoldable pub server : Text → List Text → Server W (List Column)
  server sql params = record {
    make = client.dial config;
    query = λ n w. client.query n sql params w;
  }

  unfoldable pub ask :
      {B : Type 0} → (List Column → Outcome Text B) → Text → List Text → State W → Ended B × State W
  ask read sql params s = let r = query_retry max (server sql params) s in (then_read read r.0, r.1)

  unfoldable pub resolve : Text → Text → State W → Ended (Option Text) × State W
  resolve table path s =
      if text_eq path (codes "/")
      then (answer (some (codes "/")), s)
      else let (parent, name) = split_path path in
        ask first_realpath (select_realpath table) (parent ∷ name ∷ []) s

  unfoldable pub list : Text → Text → State W → Ended (List Text) × State W
  list table path s = ask all_names (select_names table) (path ∷ []) s

  unfoldable pub check_table : Text → State W → Ended (Unit {0}) × State W
  check_table table s = ask (regclass table) to_regclass (table ∷ []) s
