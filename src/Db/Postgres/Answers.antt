-- ===== src/Db/Postgres/Answers.antt =====
-- src/db.rs, `PgDb`: its answers are those of the rows of the table, less the spaces at their ends.
use yourfs.Base.{
  ℕ, true, List, [], ◌∷◌, Option, none, some, map, ◌≡◌, refl, sym, ap, ◌∙◌, Bool-cases, inl, inr,
}
use mathlib.Core.Path.{subst}
use yourfs.Base.Text.{Text, codes, text_eq}
use yourfs.Base.Outcome.{Outcome, ok, err}
use yourfs.Paths.{split_path}
use yourfs.Db.Keys.{is_prefix}
use yourfs.Db.Retry.{rows, Ended, answer, error, waits, overflow, State, query_retry}
use yourfs.Db.Retry.Answers.{Calm, Answers, query_retry-Answers}
use yourfs.Db.Postgres.{
  trim_padded, Column, Config, Client, select_realpath, select_names, then_read, first_realpath,
  all_names, server, ask, resolve, list,
}
use yourfs.Db.Postgres.Laws.{IsSingle, Found, IsPostgres}
use yourfs.Db.Redis.Laws.{elem}
use yourfs.Db.Redis.Contents.{real_of, child_of}
use yourfs.Scan.Walk.Rows.{Row}
use yourfs.Db.Postgres.Trimmed.{
  real_trimmed, child_trimmed, elem-child_trimmed, all_names-map, first_realpath-Found,
}

read-answer :
    {B : Type 0} (o : Outcome Text B) (b : B)
    → ◌≡◌ {A = Ended B} (elim o [ ok c ↦ answer c | err m ↦ error m ]) (answer b)
    → o ≡ ok b
read-answer (ok c) b h = ap (λ (e : Ended _). elim e [ answer x ↦ ok x | _ ↦ ok c ]) h
read-answer (err m) b h = cc

-- An answer after a reading of the rows comes from an answer with them.
then_read-answer :
    {A B : Type 0} (read : A → Outcome Text B) (e : Ended A) (b : B)
    → then_read read e ≡ answer b
    → (a : A) × (e ≡ answer a) × (read a ≡ ok b)
unfolding then_read
then_read-answer read (answer a) b h = (a, refl, read-answer (read a) b h)
then_read-answer read (error m) b h = cc
then_read-answer read waits b h = cc
then_read-answer read overflow b h = cc

pub select_realpath-reads :
    (table : Text) → is_prefix (codes "SELECT ") (select_realpath table) ≡ true
unfolding select_realpath
select_realpath-reads table = refl

pub select_names-reads : (table : Text) → is_prefix (codes "SELECT ") (select_names table) ≡ true
unfolding select_names
select_names-reads table = refl

module _ {W : Type 0} (max : ℕ) (client : Client W) (config : Config) (table : Text)
    (held : W → List Row) (laws : IsPostgres client config table held) where
  abbrev Kept : W → W → Type 0
  Kept u v = held v ≡ held u

  calm :
      (sql : Text) (params : List Text)
      → is_prefix (codes "SELECT ") sql ≡ true
      → Calm (server max client config sql params) Kept
  unfolding server
  calm sql params h = record {
    same = λ w. refl;
    trans = λ u v w a b. b ∙ a;
    makes = laws.makes;
    fails = λ c w io e f. laws.fails c sql params w io e h f;
  }

  -- An answer comes from a run of the statement on the same rows.
  asked :
      {B : Type 0} (read : List Column → Outcome Text B) (sql : Text) (params : List Text)
      (s t : State W) (b : B)
      → is_prefix (codes "SELECT ") sql ≡ true
      → ask max client config read sql params s ≡ (answer b, t)
      → (c : ℕ) × (w : W) × (a : List Column) × Kept s.world w
        × (client.query c sql params w ≡ (rows a, t.world))
        × (read a ≡ ok b)
  unfolding ask server
  asked read sql params s t b h e =
      let q = query_retry max (server max client config sql params) s in
      let (a, f, g) = then_read-answer read q.0 b (ap (λ (r : Ended _ × State W). r.0) e) in
      let k : q ≡ (answer a, t) = (λ i. (f i, (e i).1)) in
      let (c, w, r, m) =
        subst (Answers max (server max client config sql params) Kept (calm sql params h) s.world) k
          (query_retry-Answers max (server max client config sql params) Kept (calm sql params h)
            s) in
      (c, w, a, r, m, g)

  find-Found :
      (p n : Text) (s t : State W) (o : Option Text)
      → IsSingle (held s.world)
      → ask max client config first_realpath (select_realpath table) (p ∷ n ∷ []) s ≡ (answer o, t)
      → (o ≡ (elim (real_of (held s.world) p n) [ some x ↦ some (trim_padded x) | none ↦ none ]))
        × Kept s.world t.world
  find-Found p n s t o single e =
      let (c, w, a, r, q, g) =
        asked first_realpath (select_realpath table) (p ∷ n ∷ []) s t o
          (select_realpath-reads table) e in
      let (k, (xs, f, m)) = laws.finds c p n w t.world a q in
      (
        first_realpath-Found (held s.world) p n xs o single
            (subst (λ (l : List Row). Found l p n xs) r m) (ap first_realpath (sym f) ∙ g),
        k ∙ r,
      )

  pub answers-trimmed :
      (path : Text) (s t : State W)
      → ((o : Option Text)
          → IsSingle (held s.world)
          → resolve max client config table path s ≡ (answer o, t)
          → (o ≡ real_trimmed (held s.world) path) × Kept s.world t.world)
        × ((ns : List Text)
            → list max client config table path s ≡ (answer ns, t)
            → ((m : Text) → elem m ns ≡ child_trimmed (held s.world) path m) × Kept s.world t.world)
  unfolding resolve list
  answers-trimmed path s t = (
    (λ o single e. elim (Bool-cases (text_eq path (codes "/"))) [
      | inl r ↦
          let f = rw r at e in
          rw r (
            ap (λ (q : Ended (Option Text) × State W). elim q.0 [ answer x ↦ x | _ ↦ o ]) (sym f),
            ap (λ (q : Ended (Option Text) × State W). held q.1.world) (sym f),
          )
      | inr r ↦ let pn = split_path path in rw r (find-Found pn.0 pn.1 s t o single (rw r at e))
    ]),
    λ ns e.
        let (c, w, a, r, q, g) =
          asked all_names (select_names table) (path ∷ []) s t ns (select_names-reads table) e in
        let (k, (xs, f, m)) = laws.names c path w t.world a q in
        let same : ns ≡ map trim_padded xs =
          ap (λ (z : Outcome Text (List Text)). elim z [ ok x ↦ x | err y ↦ ns ])
            (sym g ∙ ap all_names f ∙ all_names-map xs) in
        (
          (λ z.
              ap (elem z) same
              ∙ elem-child_trimmed xs (held s.world) path z
                  (λ y. m y ∙ ap (λ (l : List Row). child_of l path y) r)),
          k ∙ r,
        ),
  )
