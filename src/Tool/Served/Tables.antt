-- ===== src/Tool/Served/Tables.antt =====
-- src/scan.rs with the sqlite3 reader of src/db.rs: a table that holds the rows of a scan.
use yourfs.Base.{ℕ, List, [], ◌∷◌, ◌++◌, Option, none, some, if◌then◌else◌, All, ◌≡◌, sym, ap, ◌∙◌}
use mathlib.Core.Path.{subst}
use yourfs.Base.Text.{Text}
use yourfs.Base.Int.{ℤ}
use yourfs.Scan.Walk.{Entries}
use yourfs.Scan.Walk.Rows.{Row, rows, IsPlain, AllNames}
use yourfs.Db.Retry.{answer, State}
use yourfs.Db.Postgres.Laws.{IsSingle}
use yourfs.Db.Redis.Contents.{lookup}
use yourfs.Db.Sqlite.{Client, resolve}
use yourfs.Db.Sqlite.Laws.{IsSqlite}
use yourfs.Db.Sqlite.Answers.{answers-rows}
use yourfs.Tool.Served.{lookup-rows}
use yourfs.Tool.Served.Spelled.{spell, has_entry}
use yourfs.Tool.Served.Single.{rows-IsSingle}

-- An answer for a path is that path when the tree has an entry there, and none when it has not.
resolve-has_entry :
    {W : Type 0} (client : Client W) (file : Text) (cache_kb : ℤ) (max : ℕ) (table : Text)
    (held : W → List Row) (es : Entries) (ds : List Text) (n : Text) (s t : State W)
    (o : Option Text)
    → IsSqlite client table held
    → held s.world ≡ rows [] es
    → AllNames IsPlain es
    → All IsPlain ds
    → IsPlain n
    → resolve client file cache_kb max table (spell ds ++ b'/' ∷ n) s ≡ (answer o, t)
    → o ≡ (if has_entry es ds n then some (spell ds ++ b'/' ∷ n) else none)
resolve-has_entry client file cache_kb max table held es ds n s t o laws e h k p q =
    let single = subst IsSingle (sym e) (rows-IsSingle es h) in
    let (a, kept) =
      (answers-rows client file cache_kb max table held laws (spell ds ++ b'/' ∷ n) s t).0 o single
        q in
    a ∙ ap (λ (rs : List Row). lookup rs (spell ds ++ b'/' ∷ n)) e ∙ lookup-rows es ds n h k p
