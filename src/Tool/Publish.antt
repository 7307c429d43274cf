-- ===== src/Tool/Publish.antt =====
-- src/bin/yourfs_tool.rs with the redis backend of src/db.rs: from a directory tree to the answers.
use yourfs.Base.{
  ℕ, ◌<◌, true, false, List, [], ◌∷◌, ◌++◌, Option, none, some, ◌≡◌, refl, sym, ap, ◌∙◌, inl, inr,
  append_assoc, append-nil, ◌⊎◌,
}
use mathlib.Core.Path.{subst}
use yourfs.Base.Text.{Text}
use yourfs.Base.Outcome.{Outcome, ok, err}
use yourfs.Scan.Walk.Rows.{Row}
use yourfs.Load.{Loaded, load}
use yourfs.Db.Keys.{Failure, check_ident, is_prefix}
use yourfs.Db.Redis.{Client}
use yourfs.Db.Redis.Laws.{View, IsRedis}
use yourfs.Db.Redis.Writer.{RedisWriter, insert, create, finish}
use yourfs.Db.Redis.Writer.Drop.{KeptAt, KeptAt-trans, Dropped, create-Dropped}
use yourfs.Db.Redis.Contents.{prefix_of, Holds, finish-Holds}
use yourfs.Tool.{Writer, Exit, loaded, failed, committed, write_mode}
use yourfs.Tool.WriteMode.{IsPush, push_all, batch_mode, write_mode-load}

-- The writer and the world.
pub record Session (W : Type 0) : Type 0 where
  pub writer : RedisWriter
  pub outside : W

unfoldable pub session :
    {W : Type 0}
    → Outcome Failure (Unit {0}) × RedisWriter × W
    → Outcome Failure (Unit {0}) × Session W
session (o, r, w) = (o, record { writer = r; outside = w })

-- `RedisWriter` as a `Writer`, with fuel for the rounds of `create`.
unfoldable pub redis_writer : {W : Type 0} → Client W → ℕ → Writer (Session W) Failure
unfolding session
redis_writer client fuel = record {
  create = λ table s. elim (create client fuel table s.writer s.outside) [
    | some d ↦ some (session d)
    | none ↦ none
  ];
  insert = λ table row s. (ok tt, record s { writer = insert row s.writer });
  finish = λ s. session (finish client s.writer s.outside);
}

abbrev pub kept_row : {W : Type 0} → Row → Session W → Session W
kept_row row s = record s { writer = insert row s.writer }

pub redis_writer-IsPush :
    {W : Type 0} (client : Client W) (fuel : ℕ) → IsPush (redis_writer client fuel) kept_row
unfolding redis_writer
redis_writer-IsPush client fuel table row s = refl

push_all-batch :
    {W : Type 0} (rs : List Row) (c : ℕ) (t : Text) (b : List Row) (w : W)
    → push_all kept_row rs
        (record { writer = record { conn = c; table = t; batch = b }; outside = w })
      ≡ record { writer = record { conn = c; table = t; batch = b ++ rs }; outside = w }
unfolding push_all insert
push_all-batch {W} [] c t b w =
    ap
      (λ (l : List Row). record { writer = record { conn = c; table = t; batch = l }; outside = w })
      (sym (append-nil b))
push_all-batch {W} (row ∷ rs) c t b w =
    push_all-batch rs c t (b ++ row ∷ []) w
    ∙ ap
        (λ (l : List Row). record {
          writer = record { conn = c; table = t; batch = l };
          outside = w;
        })
        (append_assoc b (row ∷ []) rs)

-- The server after a load: it holds the rows of the file under the table's keys, and the other keys
-- are as they were.
pub record Published {W : Type 0} (view : View W) (table : Text) (rs : List Row) (u v : W)
    : Type 0 where
  pub held : Holds view table rs v
  pub others : (k : Text) → is_prefix (prefix_of table) k ≡ false → KeptAt view u v k

committed-cases :
    {S E : Type 0} (w : Writer S E) (n k : ℕ) (r : Outcome E (Unit {0}) × S)
    → ((r.0 ≡ ok tt) × (committed w n k r ≡ (loaded n k, r.1))) ⊎ ((committed w n k r).0 ≡ failed)
unfolding committed
committed-cases w n k (ok u, s) = inl (refl, refl)
committed-cases w n k (err e, s) = inr refl

module _ {W : Type 0} (client : Client W) (view : View W) (laws : IsRedis view client) (fuel : ℕ)
    (table : Text) where
  abbrev writer_of : Writer (Session W) Failure
  writer_of = redis_writer client fuel

  abbrev start : ℕ → W → Session W
  start c w = record { writer = record { conn = c; table = table; batch = [] }; outside = w }

  abbrev filled : ℕ → List Row → W → Session W
  filled c rs v = record { writer = record { conn = c; table = table; batch = rs }; outside = v }

  abbrev Ending : Loaded → Session W → Exit × Session W
  Ending l s = committed writer_of l.n l.skipped (writer_of.finish s)

  -- How the write mode ends, from `u`, for a file that is loaded as `l`.
  abbrev pub Ends : Loaded → W → Exit × Session W → Type 0
  Ends l u (e, s) =
      (e ≡ failed)
      ⊎ ((e ≡ loaded l.n l.skipped)
          × (check_ident table ≡ true)
          × Published view table l.inserted u s.outside)

  filled-Ends :
      (l : Loaded) (c : ℕ) (u v : W)
      → check_ident table ≡ true
      → Dropped view (prefix_of table) u v
      → Ends l u (Ending l (filled c l.inserted v))
  unfolding redis_writer session
  filled-Ends l c u v i d =
      let r : RedisWriter = record { conn = c; table = table; batch = l.inserted } in
      elim (committed-cases writer_of l.n l.skipped (session (finish client r v))) [
        | inl (o, e) ↦
            let (held, rest) = finish-Holds view client r v laws d.gone o in
            subst (Ends l u) (sym e) (
              inr (
                refl,
                i,
                record {
                  held = held;
                  others =
                      λ j f. KeptAt-trans view u v (finish client r v).2 j (d.kept j f) (rest j f);
                },
              ))
        | inr e ↦ inl e
      ]

  batch_mode-Ends :
      (file : Text) (c : ℕ) (u : W) (t : Outcome Failure (Unit {0}) × RedisWriter × W)
      → (t.0 ≡ ok tt
          → (check_ident table ≡ true)
            × (t.1 ≡ (start c u).writer)
            × Dropped view (prefix_of table) u t.2)
      → Ends
          (load file)
          u
          (batch_mode writer_of kept_row (redis_writer-IsPush client fuel) table file (session t))
  unfolding session
  batch_mode-Ends file c u (err e, r, v) h = inl refl
  batch_mode-Ends file c u (ok a, r, v) h =
      let l = load file in
      let (i, e, d) = h refl in
      rw (e, push_all-batch l.inserted c table [] v) (filled-Ends l c u v i d)

  -- With fuel for the rounds of the server, the write mode comes to an end: the program fails, or it
  -- reports the counters of the load, and the server holds its rows under the table's keys, and every
  -- other key as it was.
  pub write_mode-Published :
      (file : Text) (r : RedisWriter) (u : W)
      → r.batch ≡ []
      → view.left u 0 < fuel
      → (x : Exit × Session W) × (write_mode writer_of table file
            (record { writer = r; outside = u })
          ≡ some x)
        × Ends (load file) u x
  unfolding redis_writer
  write_mode-Published file r u b f =
      let (t, e, d) = create-Dropped client view fuel table r u laws f in
      let q : writer_of.create table (record { writer = r; outside = u }) ≡ some (session t) =
        ap
          (λ (o : Option (Outcome Failure (Unit {0}) × RedisWriter × W)). elim o [
            | some x ↦ some (session x)
            | none ↦ none
          ])
          e in
      let fresh : record r { table = table } ≡ (start r.conn u).writer =
        ap (λ (rs : List Row). record { conn = r.conn; table = table; batch = rs }) b in
      (
        _,
        write_mode-load writer_of kept_row (redis_writer-IsPush client fuel) table file _ _ q,
        batch_mode-Ends file r.conn u t (λ o. let (i, k, g) = d o in (i, k ∙ fresh, g)),
      )
