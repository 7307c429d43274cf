-- ===== src/Db/Postgres/Writer.antt =====
-- src/db.rs, `PgWriter`: the connection is made at the first need, and the rows are written in one
-- transaction.
use yourfs.Base.{ℕ, List, [], ◌∷◌, ◌++◌, Option, none, some, if◌then◌else◌, is_empty}
use yourfs.Base.Text.{Text, codes}
use yourfs.Base.Outcome.{Outcome, ok, err, and_then}
use yourfs.Db.Keys.{Failure, bad_name, reported, check_ident, split}
use yourfs.Db.Unsigned.{parse_unsigned}
use yourfs.Db.Postgres.{Client, expects}
use yourfs.Scan.Walk.Rows.{Row}

-- The five fields of the spec.
pub record Spec : Type 0 where
  pub ip : Text
  pub port : Text
  pub user : Text
  pub passwd : Text
  pub dbname : Text

pub record PgWriter : Type 0 where
  pub client : Option ℕ
  pub spec : Spec
  pub table : Text
  pub batch : List Row

five : List Text → Outcome Text Spec
five (ip ∷ port ∷ user ∷ passwd ∷ name ∷ []) =
    ok (record { ip = ip; port = port; user = user; passwd = passwd; dbname = name })
five _ = err expects

-- `PgWriter::new`.
unfoldable pub new_writer : Text → Outcome Text PgWriter
unfolding five
new_writer spec = elim (five (split b',' spec)) [
  | ok fields ↦ ok (record { client = none; spec = fields; table = []; batch = [] })
  | err e ↦ err e
]

unfoldable pub insert : Row → PgWriter → PgWriter
insert row w = record w { batch = w.batch ++ row ∷ [] }

unfoldable pub create_sql : Text → Text
create_sql table =
    codes "DROP TABLE IF EXISTS "
    ++ (table
        ++ (codes ";\n                 CREATE TABLE "
            ++ (table
                ++ codes
                    " (id SERIAL primary key, parent VARCHAR(4096), name VARCHAR(256), realpath VARCHAR(4096));")))

unfoldable pub insert_sql : Text → Text
insert_sql table =
    codes "INSERT INTO " ++ (table ++ codes "(parent, name, realpath) VALUES ($1, $2, $3);")

unfoldable pub index_sql : Text → Text
index_sql table =
    codes "CREATE INDEX index_"
    ++ (table
        ++ (codes "_parent ON "
            ++ (table
                ++ (codes " USING hash(parent);\n                 CREATE INDEX index_"
                    ++ (table
                        ++ (codes "_parent_name ON " ++ (table ++ codes "(parent,name);")))))))

module _ {W : Type 0} (client : Client W) where
  abbrev pub Did : Type 0
  Did = Outcome Failure (Unit {0}) × PgWriter × W

  dialled : Spec → Outcome Text ℕ → W → Outcome Text ℕ × W
  dialled s (err e) w = (err e, w)
  dialled s (ok port) w =
      client.dial
        (record { host = s.ip; port = port; user = s.user; password = s.passwd; dbname = s.dbname })
        w

  -- `ensure`: the connection that the writer has from then on.
  unfoldable pub ensure : PgWriter → W → Outcome Text ℕ × W
  unfolding dialled
  ensure r w = elim r.client [
    | some c ↦ (ok c, w)
    | none ↦ dialled r.spec (parse_unsigned 16 r.spec.port) w
  ]

  -- What a call leaves: `quiet` is the writer after a success, with the connection.
  connected :
      (ℕ → W → Outcome Text (Unit {0}) × W)
      → (PgWriter → PgWriter)
      → PgWriter
      → Outcome Text ℕ × W
      → Did
  connected body quiet r (err e, w) = (err (reported e), r, w)
  connected body quiet r (ok c, w) =
      let s = record r { client = some c } in
      let d = body c w in
      elim d.0 [ ok u ↦ (ok tt, quiet s, d.1) | err e ↦ (err (reported e), s, d.1) ]

  unfoldable pub create : Text → PgWriter → W → Did
  unfolding connected
  create table r w =
      if check_ident table
      then connected (λ c v. client.simple_query c (create_sql table) v) (λ s. s)
          (record r { table = table }) (ensure (record r { table = table }) w)
      else (err (bad_name table), r, w)

  unfoldable pub inserts : ℕ → Text → List Row → W → Outcome Text (Unit {0}) × W
  unfolding and_then
  inserts c sql [] w = (ok tt, w)
  inserts c sql ((parent, name, realpath) ∷ rows) w =
      and_then (client.execute c sql (parent ∷ name ∷ realpath ∷ []) w)
        (λ u v. inserts c sql rows v)

  unfoldable pub transaction : Text → List Row → ℕ → W → Outcome Text (Unit {0}) × W
  unfolding and_then
  transaction table rows c w = and_then (client.execute c (codes "BEGIN") [] w) (λ u w1.
      and_then (client.prepare c (insert_sql table) w1) (λ u w2.
        and_then (inserts c (insert_sql table) rows w2) (λ u w3.
          and_then (client.execute c (codes "COMMIT") [] w3)
            (λ u w4. client.simple_query c (index_sql table) w4))))

  unfoldable pub finish : PgWriter → W → Did
  unfolding connected
  finish r w =
      if is_empty r.batch
      then (ok tt, r, w)
      else connected (λ c v. transaction r.table r.batch c v) (λ s. record s { batch = [] }) r
          (ensure r w)
