-- ===== src/Db/Sqlite.antt =====
-- src/db.rs, `SqliteDb`: the sqlite3 reader, over the client library.
pub mod Writer
pub mod Laws
pub mod Answers
use yourfs.Base.{ℕ, Bool, true, false, List, [], ◌∷◌, ◌++◌, Option, none, some, if◌then◌else◌}
use yourfs.Base.Text.{Text, codes, text_eq}
use yourfs.Base.Int.{ℤ}
use yourfs.Base.Outcome.{Outcome, ok, err, and_then}
use yourfs.Paths.{split_path}
use yourfs.Db.Retry.{Reply, rows, failed, Server, Ended, answer, State, round, finish}

-- A value that is bound to a statement.
pub data Value : Type 0 where
  text : Text → Value
  int : ℤ → Value

-- `open` makes a connection, and a file that is not there. `step_rows` is `query_map` with what the
-- iterator gives: for each row its column 0, or an error.
pub record Client (W : Type 0) : Type 0 where
  pub exists : Text → W → Bool
  pub open_file : Text → W → Outcome Text ℕ × W
  pub pragma_update : ℕ → Text → Value → W → Outcome Text (Unit {0}) × W
  pub prepare : ℕ → Text → W → Outcome Text (Unit {0}) × W
  pub step_rows : ℕ → Text → List Value → W → Outcome Text (List (Outcome Text Text)) × W
  pub execute : ℕ → Text → List Value → W → Outcome Text (Unit {0}) × W
  pub execute_batch : ℕ → Text → W → Outcome Text (Unit {0}) × W

unfoldable pub not_there : Text → Text
not_there path =
    codes "sqlite database '"
    ++ (path
        ++ (codes "' does not exist (build it with yourfs-tool -F sqlite3 -X "
            ++ (path ++ codes " -i input.txt)")))

unfoldable pub select_realpath : Text → Text
select_realpath table =
    codes "SELECT realpath FROM " ++ (table ++ codes " WHERE parent=?1 AND name=?2 LIMIT 1")

unfoldable pub select_names : Text → Text
select_names table = codes "SELECT name FROM " ++ (table ++ codes " WHERE parent=?1 ORDER BY name")

unfoldable pub select_one : Text → Text
select_one table = codes "SELECT name FROM " ++ (table ++ codes " LIMIT 1")

unfoldable pub not_usable : Text → Text → Text
not_usable table e =
    codes "table '"
    ++ (table
        ++ (codes "' is not usable in this sqlite database ("
            ++ (e ++ codes "; build it with yourfs-tool)")))

-- `rows.next()` and its value.
unfoldable pub first_row : List (Outcome Text Text) → Outcome Text (Option Text)
first_row [] = ok none
first_row (ok v ∷ rs) = ok (some v)
first_row (err e ∷ rs) = err e

pushed : Text → Outcome Text (List Text) → Outcome Text (List Text)
pushed v (ok out) = ok (v ∷ out)
pushed v (err e) = err e

-- The loop of `list`.
unfoldable pub every_row : List (Outcome Text Text) → Outcome Text (List Text)
unfolding pushed
every_row [] = ok []
every_row (ok v ∷ rs) = pushed v (every_row rs)
every_row (err e ∷ rs) = err e

-- An error of the library leaves the connection as it is.
unfoldable pub reply_of : {A W : Type 0} → Outcome Text A × W → Reply A × W
reply_of (ok a, w) = (rows a, w)
reply_of (err e, w) = (failed false e, w)

module _ {W : Type 0} (client : Client W) (path : Text) (cache_kb : ℤ) where
  -- The connections of the pool.
  unfoldable pub make : W → Outcome Text ℕ × W
  unfolding and_then
  make w = and_then (client.open_file path w) (λ c v.
      and_then (client.pragma_update c (codes "cache_size") (int cache_kb) v) (λ u x. (ok c, x)))

  -- `SqliteDb::open`: the eager open, after a look at the file.
  unfoldable pub open_db : W → Outcome Text (Unit {0}) × W
  unfolding and_then
  open_db w =
      if client.exists path w
      then and_then (make w) (λ c v. (ok tt, v))
      else (err (not_there path), w)

  module _ (max : ℕ) where
    -- One round on a pooled connection; there is no second.
    unfoldable pub on_pool :
        {A : Type 0} → (ℕ → W → Outcome Text A × W) → State W → Ended A × State W
    on_pool body s =
        let server : Server W _ = record { make = make; query = λ c w. reply_of (body c w) } in
        finish max server (round max server s)

    -- A statement with its parameters, and what is made of its rows.
    unfoldable pub select :
        {B : Type 0}
        → (List (Outcome Text Text) → Outcome Text B)
        → Text
        → List Value
        → ℕ
        → W
        → Outcome Text B × W
    unfolding and_then
    select read sql params c w =
        and_then (client.prepare c sql w)
          (λ u v. and_then (client.step_rows c sql params v) (λ rs x. (read rs, x)))

    unfoldable pub resolve : Text → Text → State W → Ended (Option Text) × State W
    resolve table path s =
        if text_eq path (codes "/")
        then (answer (some (codes "/")), s)
        else let (parent, name) = split_path path in
          on_pool (select first_row (select_realpath table) (text parent ∷ text name ∷ [])) s

    unfoldable pub list : Text → Text → State W → Ended (List Text) × State W
    list table path s = on_pool (select every_row (select_names table) (text path ∷ [])) s

    usable : Text → Outcome Text (Unit {0}) × W → Outcome Text (Unit {0}) × W
    usable table (ok u, w) = (ok tt, w)
    usable table (err e, w) = (err (not_usable table e), w)

    unfoldable pub check_table : Text → State W → Ended (Unit {0}) × State W
    unfolding usable
    check_table table s = on_pool (λ c w. usable table (client.prepare c (select_one table) w)) s
