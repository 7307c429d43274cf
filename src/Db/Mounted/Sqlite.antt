-- ===== src/Db/Mounted/Sqlite.antt =====
-- src/db.rs, `SqliteDb`: as the whitelist of a mount.
use yourfs.Base.{ℕ, true, List, ◌≡◌, sym, ap, ◌∙◌, Bool-cases, inl, inr, [], ◌∷◌}
use mathlib.Core.Path.{subst}
use yourfs.Base.Text.{Text, codes, text_eq}
use yourfs.Base.Int.{ℤ}
use yourfs.Base.Outcome.{Outcome}
use yourfs.Paths.{split_path}
use yourfs.Db.Keys.{is_prefix}
use yourfs.Db.Retry.{Server, State}
use yourfs.Db.Retry.Keeps.{once-Keeps}
use yourfs.Db.Postgres.Laws.{IsSingle}
use yourfs.Db.Redis.Contents.{child_of, lookup}
use yourfs.Db.Sqlite.{
  Value, text, Client, select_realpath, select_names, first_row, every_row, reply_of, make, on_pool,
  select, resolve, list,
}
use yourfs.Db.Sqlite.Laws.{IsSqlite, select_realpath-reads, select_names-reads}
use yourfs.Db.Sqlite.Answers.{make-Kept, reply_of-Kept, select-Kept, answers-rows}
use yourfs.Db.Mounted.{sqlite_database, settled-answer}
use yourfs.Db.Mounted.Speaks.{Speaks}
use yourfs.Scan.Walk.Rows.{Row}

module _ {W : Type 0} (client : Client W) (file : Text) (cache_kb : ℤ) (max : ℕ) (table : Text)
    (held : W → List Row) (laws : IsSqlite client table held) (rs : List Row) where
  -- The table holds the rows.
  abbrev pub HasRows : State W → Type 0
  HasRows s = held s.world ≡ rs

  select-HasRows :
      {B : Type 0} (read : List (Outcome Text Text) → Outcome Text B) (sql : Text)
      (params : List Value) (s : State W)
      → is_prefix (codes "SELECT ") sql ≡ true
      → HasRows s
      → HasRows
          (on_pool client file cache_kb max (select client file cache_kb max read sql params) s).1
  unfolding on_pool
  select-HasRows read sql params s r h =
      let body = select client file cache_kb max read sql params in
      let server : Server W _ = record {
        make = make client file cache_kb;
        query = λ c w. reply_of (body c w);
      } in
      once-Keeps max server (λ w. held w ≡ rs)
        (λ w g. make-Kept client file cache_kb max table held laws w ∙ g)
        (λ c w g.
          reply_of-Kept client file cache_kb max table held laws w (body c w)
            (select-Kept client file cache_kb max table held laws read sql params c w r)
          ∙ g)
        s h

  resolve-HasRows :
      (path : Text) (s : State W)
      → HasRows s
      → HasRows (resolve client file cache_kb max table path s).1
  unfolding resolve
  resolve-HasRows path s h = elim (Bool-cases (text_eq path (codes "/"))) [
    | inl r ↦ rw r h
    | inr r ↦
        let pn = split_path path in
        rw r (
          select-HasRows first_row (select_realpath table) (text pn.0 ∷ text pn.1 ∷ []) s
            (select_realpath-reads table) h)
  ]

  list-HasRows :
      (path : Text) (s : State W)
      → HasRows s
      → HasRows (list client file cache_kb max table path s).1
  unfolding list
  list-HasRows path s h =
      select-HasRows every_row (select_names table) (text path ∷ []) s (select_names-reads table) h

  -- While the table holds rows that agree on their real paths, every answer is what they say, and
  -- they stay.
  pub sqlite_database-Speaks :
      IsSingle rs
      → Speaks (sqlite_database max client file cache_kb) table HasRows (lookup rs) (child_of rs)
  unfolding sqlite_database
  sqlite_database-Speaks single = record {
    resolves = λ path s o h e.
        let r = resolve client file cache_kb max table path s in
        ((answers-rows client file cache_kb max table held laws path s r.1).0 o
          (subst IsSingle (sym h) single) (settled-answer r o e)).0
        ∙ ap (λ (l : List Row). lookup l path) h;
    resolve_keeps = resolve-HasRows;
    lists = λ path s names h e n.
        let r = list client file cache_kb max table path s in
        ((answers-rows client file cache_kb max table held laws path s r.1).1 names
            (settled-answer r names e)).0
          n
        ∙ ap (λ (l : List Row). child_of l path n) h;
    list_keeps = list-HasRows;
  }
