-- ===== src/Db/Mounted/Postgres.antt =====
-- src/db.rs, `PgDb`: as the whitelist of a mount.
use yourfs.Base.{ℕ, List, [], ◌∷◌, ◌≡◌, refl, sym, ap, ◌∙◌, Bool-cases, inl, inr}
use mathlib.Core.Path.{subst}
use yourfs.Base.Text.{Text, codes, text_eq}
use yourfs.Base.Outcome.{Outcome}
use yourfs.Paths.{split_path}
use yourfs.Db.Retry.{Reply, rows, failed, State}
use yourfs.Db.Retry.Keeps.{query_retry-Keeps}
use yourfs.Db.Postgres.{
  Column, Config, Client, select_realpath, select_names, first_realpath, all_names, server, ask,
  resolve, list,
}
use yourfs.Db.Postgres.Laws.{IsSingle, IsPostgres}
use yourfs.Db.Postgres.Trimmed.{real_trimmed, child_trimmed}
use yourfs.Db.Postgres.Answers.{select_realpath-reads, select_names-reads, answers-trimmed}
use yourfs.Db.Mounted.{postgres_database, settled-answer}
use yourfs.Db.Mounted.Speaks.{Speaks}
use yourfs.Scan.Walk.Rows.{Row}

module _ {W : Type 0} (max : ℕ) (client : Client W) (config : Config) (table : Text)
    (held : W → List Row) (laws : IsPostgres client config table held) (rs : List Row) where
  -- The table holds the rows.
  abbrev pub HasRows : State W → Type 0
  HasRows s = held s.world ≡ rs

  find-keeps :
      (c : ℕ) (p n : Text) (w : W) (r : Reply (List Column) × W)
      → client.query c (select_realpath table) (p ∷ n ∷ []) w ≡ r
      → held r.1 ≡ held w
  find-keeps c p n w (rows a, v) e = (laws.finds c p n w v a e).0
  find-keeps c p n w (failed io m, v) e =
      subst (λ (q : Reply (List Column) × W). held q.1 ≡ held w) e
        (laws.fails c (select_realpath table) (p ∷ n ∷ []) w io m (select_realpath-reads table)
          (ap (λ (q : Reply (List Column) × W). q.0) e))

  names-keeps :
      (c : ℕ) (p : Text) (w : W) (r : Reply (List Column) × W)
      → client.query c (select_names table) (p ∷ []) w ≡ r
      → held r.1 ≡ held w
  names-keeps c p w (rows a, v) e = (laws.names c p w v a e).0
  names-keeps c p w (failed io m, v) e =
      subst (λ (q : Reply (List Column) × W). held q.1 ≡ held w) e
        (laws.fails c (select_names table) (p ∷ []) w io m (select_names-reads table)
          (ap (λ (q : Reply (List Column) × W). q.0) e))

  ask-HasRows :
      {B : Type 0} (read : List Column → Outcome Text B) (sql : Text) (params : List Text)
      (s : State W)
      → ((c : ℕ) (w : W) → held (client.query c sql params w).1 ≡ held w)
      → HasRows s
      → HasRows (ask max client config read sql params s).1
  unfolding ask server
  ask-HasRows read sql params s keeps h =
      query_retry-Keeps max (server max client config sql params) (λ w. held w ≡ rs)
        (λ w g. laws.makes w ∙ g) (λ c w g. keeps c w ∙ g) s h

  resolve-HasRows :
      (path : Text) (s : State W) → HasRows s → HasRows (resolve max client config table path s).1
  unfolding resolve
  resolve-HasRows path s h = elim (Bool-cases (text_eq path (codes "/"))) [
    | inl r ↦ rw r h
    | inr r ↦
        let (p, n) = split_path path in
        rw r (
          ask-HasRows first_realpath (select_realpath table) (p ∷ n ∷ []) s
            (λ c w. find-keeps c p n w (client.query c (select_realpath table) (p ∷ n ∷ []) w) refl)
            h)
  ]

  list-HasRows :
      (path : Text) (s : State W) → HasRows s → HasRows (list max client config table path s).1
  unfolding list
  list-HasRows path s h =
      ask-HasRows all_names (select_names table) (path ∷ []) s
        (λ c w. names-keeps c path w (client.query c (select_names table) (path ∷ []) w) refl) h

  -- While the table holds rows that agree on their real paths, every answer is what they say less
  -- the spaces at the ends, and they stay.
  postgres_database-Speaks :
      IsSingle rs
      → Speaks
          (postgres_database max client config)
          table
          HasRows
          (real_trimmed rs)
          (child_trimmed rs)
  unfolding postgres_database
  postgres_database-Speaks single = record {
    resolves = λ path s o h e.
        let r = resolve max client config table path s in
        ((answers-trimmed max client config table held laws path s r.1).0 o
          (subst IsSingle (sym h) single) (settled-answer r o e)).0
        ∙ ap (λ (l : List Row). real_trimmed l path) h;
    resolve_keeps = resolve-HasRows;
    lists = λ path s names h e n.
        let r = list max client config table path s in
        ((answers-trimmed max client config table held laws path s r.1).1 names
            (settled-answer r names e)).0
          n
        ∙ ap (λ (l : List Row). child_trimmed l path n) h;
    list_keeps = list-HasRows;
  }
