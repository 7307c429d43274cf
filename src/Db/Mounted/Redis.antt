-- ===== src/Db/Mounted/Redis.antt =====
-- src/db.rs, `RedisDb`: as the whitelist of a mount.
use yourfs.Base.{ℕ, List, Option, ◌≡◌, refl, ap, Bool-cases, inl, inr}
use mathlib.Core.Path.{subst}
use yourfs.Base.Text.{Text, codes, text_eq}
use yourfs.Paths.{split_path}
use yourfs.Db.Keys.{dir_key, hash_key}
use yourfs.Db.Retry.{Reply, rows, failed, State}
use yourfs.Db.Retry.Keeps.{query_retry-Keeps}
use yourfs.Db.Redis.{Cmd, hget, zrange, Client, server, cmd_retry, resolve, list}
use yourfs.Db.Redis.Laws.{View, Same, IsRedis}
use yourfs.Db.Redis.Contents.{child_of, lookup, Holds}
use yourfs.Db.Redis.Reader.{Holds-Same, answers-lookup}
use yourfs.Db.Mounted.{redis_database, settled-answer}
use yourfs.Db.Mounted.Speaks.{Speaks}
use yourfs.Scan.Walk.Rows.{Row}

module _ {W : Type 0} (max : ℕ) (client : Client W) (view : View W) (laws : IsRedis view client)
    (table : Text) (rs : List Row) where
  -- The server holds the rows under the table.
  abbrev pub HoldsRows : State W → Type 0
  HoldsRows s = Holds view table rs s.world

  hget-keeps :
      (n : ℕ) (k f : Text) (w : W) (r : Reply (Option Text) × W)
      → client.query n (hget k f) w ≡ r
      → Same view w r.1
  hget-keeps n k f w (rows a, v) e = (laws.hgets n k f w v a e).0
  hget-keeps n k f w (failed io m, v) e =
      subst (λ (q : Reply (Option Text) × W). Same view w q.1) e
        (laws.fails n (hget k f) w io m refl (ap (λ (q : Reply (Option Text) × W). q.0) e)).same

  zrange-keeps :
      (n : ℕ) (k : Text) (w : W) (r : Reply (List Text) × W)
      → client.query n (zrange k) w ≡ r
      → Same view w r.1
  zrange-keeps n k w (rows a, v) e = (laws.zranges n k w v a e).0
  zrange-keeps n k w (failed io m, v) e =
      subst (λ (q : Reply (List Text) × W). Same view w q.1) e
        (laws.fails n (zrange k) w io m refl (ap (λ (q : Reply (List Text) × W). q.0) e)).same

  -- A command that keeps the data keeps the rows.
  cmd_retry-HoldsRows :
      (c : Cmd) (s : State W)
      → ((n : ℕ) (w : W) → Same view w (client.query n c w).1)
      → HoldsRows s
      → HoldsRows (cmd_retry max client c s).1
  unfolding cmd_retry server
  cmd_retry-HoldsRows c s keeps h =
      query_retry-Keeps max (server max client c) (λ w. Holds view table rs w)
        (λ w g. Holds-Same view table rs w (client.make w).1 (laws.makes w).same g)
        (λ n w g. Holds-Same view table rs w (client.query n c w).1 (keeps n w) g) s h

  resolve-HoldsRows :
      (path : Text) (s : State W) → HoldsRows s → HoldsRows (resolve max client table path s).1
  unfolding resolve
  resolve-HoldsRows path s h = elim (Bool-cases (text_eq path (codes "/"))) [
    | inl r ↦ rw r h
    | inr r ↦
        let pn = split_path path in
        rw r (
          cmd_retry-HoldsRows (hget (hash_key table pn.0) pn.1) s
            (λ n w.
              hget-keeps n (hash_key table pn.0) pn.1 w
                (client.query n (hget (hash_key table pn.0) pn.1) w) refl)
            h)
  ]

  list-HoldsRows :
      (path : Text) (s : State W) → HoldsRows s → HoldsRows (list max client table path s).1
  unfolding list
  list-HoldsRows path s h =
      cmd_retry-HoldsRows (zrange (dir_key table path)) s
        (λ n w.
          zrange-keeps n (dir_key table path) w (client.query n (zrange (dir_key table path)) w)
            refl)
        h

  -- While the server holds the rows of the table, every answer is what they say, and they stay.
  pub redis_database-Speaks :
      (fuel : ℕ) → Speaks (redis_database max client fuel) table HoldsRows (lookup rs) (child_of rs)
  unfolding redis_database
  redis_database-Speaks fuel = record {
    resolves = λ path s o h e.
        let r = resolve max client table path s in
        ((answers-lookup max client view laws table rs path s r.1 h).0 o (settled-answer r o e)).0;
    resolve_keeps = resolve-HoldsRows;
    lists = λ path s names h e.
        let r = list max client table path s in
        ((answers-lookup max client view laws table rs path s r.1 h).1 names
          (settled-answer r names e)).1;
    list_keeps = list-HoldsRows;
  }
