-- ===== src/Tests/Sql.antt =====
-- Tests of the postgres and the sqlite3 reader of src/db.rs, on a table in memory.
use yourfs.Base.{
  true, false, ◌&&◌, List, [], ◌∷◌, none, some, if◌then◌else◌, map, ◌≡◌, refl, ap, arith,
}
use yourfs.Base.Text.{Text, codes, text_eq, text_eq_iff, trim_end_matches}
use yourfs.Paths.{split_path, rfind}
use yourfs.Base.Int.{pos}
use yourfs.Base.Outcome.{Outcome, ok, and_then}
use yourfs.Db.Retry.{Reply, rows, failed, answer, State, query_retry, round, get, finish}
use yourfs.Db.Pool.{try_get, give_back}
use yourfs.Db.Postgres as pg
use yourfs.Db.Postgres.Laws.{IsSingle}
use yourfs.Db.Postgres.Trimmed.{real_trimmed, child_trimmed}
use yourfs.Db.Sqlite as lite
use yourfs.Db.Redis.Contents.{real_of}
use yourfs.Scan.Walk.Rows.{Row}

-- The realpath of the first row that matches, as a list, and the names of a folder.
match_of : List Row → Text → Text → List Text
match_of [] p n = []
match_of ((q, m, x) ∷ rs) p n = if text_eq q p && text_eq m n then x ∷ [] else match_of rs p n

names_of : List Row → Text → List Text
names_of [] p = []
names_of ((q, m, x) ∷ rs) p = if text_eq q p then m ∷ names_of rs p else names_of rs p

-- The value of each parameter, and the rows that a statement selects.
selected : (sql realpath names : Text) → List Text → List Row → List Text
unfolding match_of names_of
selected sql realpath names (p ∷ n ∷ []) rs = if text_eq sql realpath then match_of rs p n else []
selected sql realpath names (p ∷ []) rs = if text_eq sql names then names_of rs p else []
selected sql realpath names params rs = []

abbrev data_table : Text
data_table = codes "data"

postgres : pg.Client (List Row)
unfolding selected
postgres = record {
  dial = λ config w. (ok 0, w);
  query = λ c sql params w. (
    rows (
        map (λ x. ok (some x))
          (selected sql (pg.select_realpath data_table) (pg.select_names data_table) params w)),
    w,
  );
  simple_query = λ c sql w. (ok tt, w);
  prepare = λ c sql w. (ok tt, w);
  execute = λ c sql params w. (ok tt, w);
}

abbrev config : pg.Config
config = record {
  host = codes "db";
  port = 5432;
  user = codes "u";
  password = codes "p";
  dbname = codes "d";
}

answered :
    {A B : Type 0} (a b : A) (u v : B)
    → ◌≡◌ {A = Reply A × B} (rows a, u) (rows b, v)
    → (a ≡ b) × (u ≡ v)
answered a b u v h = (
  ap (λ (r : Reply _ × _). elim r.0 [ rows x ↦ x | failed io e ↦ a ]) h,
  ap (λ (r : Reply _ × _). r.1) h,
)

-- A name that ends in a space.
abbrev spaced : List Row
spaced = (codes "/", codes "a ", codes "/a ") ∷ []

spaced-IsSingle : IsSingle spaced
unfolding real_of
spaced-IsSingle p n x h =
    rw (← (text_eq_iff (codes "/a ") x).0 (ground (arith, h))) (ground (arith, h))

abbrev state : State (List Row)
state = record { pool = record { idle = []; created = 0 }; world = spaced }

abbrev after : State (List Row)
after = record { pool = record { idle = 0 ∷ []; created = 1 }; world = spaced }

-- The calls come to an end.
resolves_trimmed :
    (pg.resolve 10 postgres config data_table (codes "/a ") state
      ≡ (answer (some (codes "/a")), after))
    × (pg.list 10 postgres config data_table (codes "/") state ≡ (answer (codes "a" ∷ []), after))
unfolding pg.resolve pg.list pg.ask pg.then_read query_retry round get try_get pg.server postgres
    give_back pg.first_realpath pg.select_realpath split_path rfind pg.trim_padded trim_end_matches
    pg.all_names pg.select_names
resolves_trimmed = (refl, refl)

-- The space is lost.
space_lost :
    (real_trimmed spaced (codes "/a ") ≡ some (codes "/a"))
    × (real_trimmed spaced (codes "/a") ≡ none)
    × (child_trimmed spaced (codes "/") (codes "a") ≡ true)
    × (child_trimmed spaced (codes "/") (codes "a ") ≡ false)
unfolding real_of split_path rfind pg.trim_padded trim_end_matches
space_lost = (refl, refl, refl, refl)

texts : List lite.Value → List Text
texts [] = []
texts (lite.text t ∷ vs) = t ∷ texts vs
texts (lite.int n ∷ vs) = [] ∷ texts vs

sqlite : lite.Client (List Row)
unfolding selected
sqlite = record {
  exists = λ path w. true;
  open_file = λ path w. (ok 0, w);
  pragma_update = λ c name v w. (ok tt, w);
  prepare = λ c sql w. (ok tt, w);
  step_rows = λ c sql params w. (
    ok (
        map ok (
          selected sql (lite.select_realpath data_table) (lite.select_names data_table)
            (texts params) w)),
    w,
  );
  execute = λ c sql params w. (ok tt, w);
  execute_batch = λ c sql w. (ok tt, w);
}

resolves_rows :
    (lite.resolve sqlite (codes "w.db") (pos 1000) 10 data_table (codes "/a ") state
      ≡ (answer (some (codes "/a ")), after))
    × (lite.list sqlite (codes "w.db") (pos 1000) 10 data_table (codes "/") state
        ≡ (answer (codes "a " ∷ []), after))
unfolding lite.resolve lite.list lite.on_pool lite.select lite.make and_then sqlite finish round get
    try_get give_back lite.reply_of lite.first_row lite.every_row lite.select_realpath
    lite.select_names split_path rfind texts
resolves_rows = (refl, refl)
