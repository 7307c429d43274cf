-- ===== src/Db/Sqlite/Writer.antt =====
-- src/db.rs, `SqliteWriter`: the table is made anew, and the rows are numbered and written in one
-- transaction.
pub mod Commits
use yourfs.Base.{ℕ, ◌+◌, Bool, true, false, List, [], ◌∷◌, ◌++◌, if◌then◌else◌, is_empty}
use yourfs.Base.Text.{Text, codes}
use yourfs.Base.Int.{ℤ, pos}
use yourfs.Base.Outcome.{Outcome, ok, err, and_then}
use yourfs.Db.Keys.{Failure, bad_name, reported, check_ident}
use yourfs.Db.Sqlite.{Value, text, int, Client}
use yourfs.Scan.Walk.Rows.{Row}

pub record SqliteWriter : Type 0 where
  pub conn : ℕ
  pub table : Text
  pub batch : List Row

unfoldable pub insert : Row → SqliteWriter → SqliteWriter
insert row w = record w { batch = w.batch ++ row ∷ [] }

index_on : Text → Text → Text → Text
index_on table suffix columns =
    codes "\n             CREATE INDEX index_"
    ++ (table ++ (suffix ++ (codes " ON " ++ (table ++ columns))))

unfoldable pub create_sql : Text → Text
unfolding index_on
create_sql table =
    codes "DROP TABLE IF EXISTS "
    ++ (table
        ++ (codes ";\n             CREATE TABLE "
            ++ (table
                ++ (codes
                      " (id INTEGER PRIMARY KEY AUTOINCREMENT,parent CHAR(4096),name CHAR(256),realpath CHAR(4096));"
                    ++ (index_on table (codes "_id") (codes "(id);")
                        ++ (index_on table (codes "_parent") (codes "(parent);")
                            ++ index_on table (codes "_parent_name") (codes "(parent, name);")))))))

unfoldable pub insert_sql : Text → Text
insert_sql table =
    codes "INSERT INTO " ++ (table ++ codes "(id,parent,name,realpath) VALUES (?,?,?,?)")

module _ {W : Type 0} (client : Client W) where
  abbrev pub Did : Type 0
  Did = Outcome Failure (Unit {0}) × SqliteWriter × W

  -- `SqliteWriter::open`.
  unfoldable pub open_writer : Text → ℤ → W → Outcome Text SqliteWriter × W
  open_writer path cache_kb w = and_then (client.open_file path w) (λ c w1.
      and_then (client.pragma_update c (codes "synchronous") (text (codes "OFF")) w1) (λ u w2.
        and_then (client.pragma_update c (codes "cache_size") (int cache_kb) w2)
          (λ u w3. (ok (record { conn = c; table = []; batch = [] }), w3))))

  -- The end of a call: the writer after a success, or as it was.
  concluded : (SqliteWriter → SqliteWriter) → SqliteWriter → Outcome Text (Unit {0}) × W → Did
  concluded quiet r (ok u, w) = (ok tt, quiet r, w)
  concluded quiet r (err e, w) = (err (reported e), r, w)

  unfoldable pub create : Text → SqliteWriter → W → Did
  unfolding concluded
  create table r w =
      if check_ident table
      then concluded (λ s. s) (record r { table = table })
          (client.execute_batch r.conn (create_sql table) w)
      else (err (bad_name table), r, w)

  -- The rows, numbered from `i + 1` on.
  unfoldable pub inserts : ℕ → Text → ℕ → List Row → W → Outcome Text (Unit {0}) × W
  inserts c sql i [] w = (ok tt, w)
  inserts c sql i ((parent, name, realpath) ∷ rows) w =
      and_then
        (client.execute c sql (int (pos (i + 1)) ∷ text parent ∷ text name ∷ text realpath ∷ []) w)
        (λ u v. inserts c sql (i + 1) rows v)

  unfoldable pub transaction : Text → List Row → ℕ → W → Outcome Text (Unit {0}) × W
  transaction table rows c w = and_then (client.execute_batch c (codes "BEGIN") w) (λ u w1.
      and_then (client.prepare c (insert_sql table) w1) (λ u w2.
        and_then (inserts c (insert_sql table) 0 rows w2)
          (λ u w3. client.execute_batch c (codes "COMMIT") w3)))

  unfoldable pub finish : SqliteWriter → W → Did
  unfolding concluded
  finish r w =
      if is_empty r.batch
      then (ok tt, r, w)
      else concluded (λ s. record s { batch = [] }) r (transaction r.table r.batch r.conn w)
