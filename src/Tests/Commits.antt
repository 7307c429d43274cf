-- ===== src/Tests/Commits.antt =====
-- Tests of the transaction of the sqlite3 writer of src/db.rs, on a library that keeps a log.
use yourfs.Base.{true, List, [], ◌∷◌, ◌++◌, ◌≡◌, refl, sym, ap}
use yourfs.Base.Text.{Text, codes}
use yourfs.Base.Outcome.{Outcome, ok, err}
use yourfs.Db.Sqlite as lite
use yourfs.Db.Sqlite.Writer.{SqliteWriter, finish as commit}
use yourfs.Db.Sqlite.Writer.Commits.{Sent, batched, executed, IsLogged, Finished, finish-Finished}

-- A library that carries everything out, and keeps the log.
logging : lite.Client (List Sent)
logging = record {
  exists = λ path w. true;
  open_file = λ path w. (ok 0, w);
  pragma_update = λ c name v w. (ok tt, w);
  prepare = λ c sql w. (ok tt, w);
  step_rows = λ c sql params w. (ok [], w);
  execute = λ c sql params w. (ok tt, w ++ executed sql params ∷ []);
  execute_batch = λ c sql w. (ok tt, w ++ batched sql ∷ []);
}

done_with :
    {A : Type 0} (a b : A) (u v : List Sent)
    → ◌≡◌ {A = Outcome Text A × List Sent} (ok a, u) (ok b, v)
    → v ≡ u
done_with a b u v h = ap (λ (r : Outcome Text _ × List Sent). r.1) (sym h)

not_failed :
    {A B : Type 0} (a : A) (e : Text) (u v : List Sent)
    → ◌≡◌ {A = Outcome Text A × List Sent} (ok a, u) (err e, v)
    → B
not_failed a e u v h = absurd cc

logging-IsLogged : IsLogged logging (λ w. w)
unfolding logging
logging-IsLogged = record {
  prepares = λ c sql u. refl;
  batches = λ c sql u v a h. done_with _ _ _ _ h;
  executes = λ c sql params u v a h. done_with _ _ _ _ h;
  batch_fails = λ c sql u v e h. not_failed _ _ _ _ h;
  execute_fails = λ c sql params u v e h. not_failed _ _ _ _ h;
}

abbrev one_row : SqliteWriter
one_row = record {
  conn = 0;
  table = codes "data";
  batch = (codes "/", codes "a ", codes "/a ") ∷ [];
}

finish-Finished_example :
    Finished logging (λ w. w) logging-IsLogged one_row [] (commit logging one_row [])
finish-Finished_example = finish-Finished logging (λ w. w) logging-IsLogged one_row [] (λ e. cc)
