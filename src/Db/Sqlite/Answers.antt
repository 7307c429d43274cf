-- ===== src/Db/Sqlite/Answers.antt =====
-- src/db.rs, `SqliteDb`: its answers are those of the rows of the table.
use yourfs.Base.{ℕ, true, List, [], ◌∷◌, Option, ◌≡◌, refl, sym, ap, ◌∙◌, Bool-cases, inl, inr}
use mathlib.Core.Path.{subst}
use yourfs.Base.Text.{Text, codes, text_eq}
use yourfs.Base.Int.{ℤ}
use yourfs.Base.Outcome.{Outcome, ok, err, and_then}
use yourfs.Paths.{split_path}
use yourfs.Db.Keys.{is_prefix}
use yourfs.Db.Retry.{Reply, rows, failed, Server, Ended, answer, State}
use yourfs.Db.Retry.Answers.{Calm, Answers, round-Answers}
use yourfs.Db.Sqlite.{
  Value, text, int, Client, select_realpath, select_names, first_row, every_row, reply_of, make,
  on_pool, select, resolve, list,
}
use yourfs.Db.Postgres.Laws.{IsSingle, Found}
use yourfs.Db.Redis.Laws.{elem}
use yourfs.Db.Redis.Contents.{real_of, child_of, lookup}
use yourfs.Scan.Walk.Rows.{Row}
use yourfs.Db.Sqlite.Laws.{
  IsSqlite, every_row-map, every_row-is_err, ok-injective, first_row-Found, first_row-err,
  select_realpath-reads, select_names-reads,
}

reply_of-rows :
    {A W : Type 0} (r : Outcome Text A × W) (a : A) (v : W)
    → reply_of r ≡ (rows a, v)
    → r ≡ (ok a, v)
unfolding reply_of
reply_of-rows (ok x, w) a v h =
    ap (λ (r : Reply _ × _). (elim r.0 [ rows y ↦ ok y | failed io e ↦ ok x ], r.1)) h
reply_of-rows (err e, w) a v h = cc

and_then-ok :
    {A B W : Type 0} (r : Outcome Text A × W) (next : A → W → Outcome Text B × W) (b : B) (v : W)
    → and_then r next ≡ (ok b, v)
    → (a : A) × (w : W) × (r ≡ (ok a, w)) × (next a w ≡ (ok b, v))
unfolding and_then
and_then-ok (ok a, w) next b v h = (a, w, refl, h)
and_then-ok (err e, w) next b v h = cc

module _ {W : Type 0} (client : Client W) (path : Text) (cache_kb : ℤ) (max : ℕ) (table : Text)
    (held : W → List Row) (laws : IsSqlite client table held) where
  abbrev Kept : W → W → Type 0
  Kept u v = held v ≡ held u

  -- A call that keeps the rows, and then another.
  and_then-Kept :
      {A B : Type 0} (u : W) (r : Outcome Text A × W) (next : A → W → Outcome Text B × W)
      → Kept u r.1
      → ((a : A) (v : W) → Kept v (next a v).1)
      → Kept u (and_then r next).1
  unfolding and_then
  and_then-Kept u (ok a, w) next h k = k a w ∙ h
  and_then-Kept u (err e, w) next h k = h

  pub make-Kept : (w : W) → Kept w (make client path cache_kb w).1
  unfolding make
  make-Kept w = and_then-Kept w (client.open_file path w) _ (laws.opens path w) (λ c v.
      and_then-Kept v (client.pragma_update c (codes "cache_size") (int cache_kb) v) _
        (laws.tunes c (codes "cache_size") (int cache_kb) v) (λ u x. refl))

  pub reply_of-Kept :
      {A : Type 0} (u : W) (r : Outcome Text A × W) → Kept u r.1 → Kept u (reply_of r).1
  unfolding reply_of
  reply_of-Kept u (ok a, w) h = h
  reply_of-Kept u (err e, w) h = h

  pub select-Kept :
      {B : Type 0} (read : List (Outcome Text Text) → Outcome Text B) (sql : Text)
      (params : List Value) (c : ℕ) (w : W)
      → is_prefix (codes "SELECT ") sql ≡ true
      → Kept w (select client path cache_kb max read sql params c w).1
  unfolding select
  select-Kept read sql params c w h =
      and_then-Kept w (client.prepare c sql w) _ (laws.prepares c sql w) (λ u v.
        and_then-Kept v (client.step_rows c sql params v) _ (laws.reads c sql params v h)
          (λ rs x. refl))

  read_on :
      (c : ℕ) (sql : Text) (params : List Value) (u v : W) (a : List (Outcome Text Text))
      → is_prefix (codes "SELECT ") sql ≡ true
      → client.step_rows c sql params u ≡ (ok a, v)
      → Kept u v
  read_on c sql params u v a h e =
      sym (ap (λ (r : Outcome Text (List (Outcome Text Text)) × W). held r.1) e)
      ∙ laws.reads c sql params u h

  -- An answer comes from a run of the statement on the same rows.
  asked :
      {B : Type 0} (read : List (Outcome Text Text) → Outcome Text B) (sql : Text)
      (params : List Value) (s t : State W) (b : B)
      → is_prefix (codes "SELECT ") sql ≡ true
      → on_pool client path cache_kb max (select client path cache_kb max read sql params) s
        ≡ (answer b, t)
      → (c : ℕ) × (w : W) × (a : List (Outcome Text Text)) × Kept s.world w
        × (client.step_rows c sql params w ≡ (ok a, t.world))
        × (read a ≡ ok b)
  unfolding on_pool select
  asked read sql params s t b h e =
      let body = select client path cache_kb max read sql params in
      let server : Server W _ = record {
        make = make client path cache_kb;
        query = λ c w. reply_of (body c w);
      } in
      let calm : Calm server Kept = record {
        same = λ w. refl;
        trans = λ u v w f g. g ∙ f;
        makes = make-Kept;
        fails = λ c w io m f. reply_of-Kept w (body c w) (select-Kept read sql params c w h);
      } in
      let (c, w, k, q) =
        subst (Answers max server Kept calm s.world) e (round-Answers max server Kept calm s) in
      let f = reply_of-rows (body c w) b t.world q in
      let (u, v, g, i) = and_then-ok (client.prepare c sql w) _ b t.world f in
      let (a, x, j, l) = and_then-ok (client.step_rows c sql params v) _ b t.world i in
      (
        c,
        v,
        a,
        sym (ap (λ (r : Outcome Text (Unit {0}) × W). held r.1) g) ∙ laws.prepares c sql w ∙ k,
        j ∙ ap (λ (y : W). (ok a, y)) (ap (λ (r : Outcome Text _ × W). r.1) l),
        ap (λ (r : Outcome Text _ × W). r.0) l,
      )

  find-Found :
      (p n : Text) (s t : State W) (o : Option Text)
      → IsSingle (held s.world)
      → on_pool client path cache_kb max
          (select client path cache_kb max first_row (select_realpath table) (text p ∷ text n ∷ []))
          s
        ≡ (answer o, t)
      → (o ≡ real_of (held s.world) p n) × Kept s.world t.world
  find-Found p n s t o single e =
      let params = text p ∷ text n ∷ [] in
      let (c, w, a, r, q, g) =
        asked first_row (select_realpath table) params s t o (select_realpath-reads table) e in
      let k =
        read_on c (select_realpath table) params w t.world a (select_realpath-reads table) q in
      (
        elim (laws.finds c p n w t.world a q) [
          | inl (m, f) ↦ absurd (first_row-err m o (ap first_row (sym f) ∙ g))
          | inr (xs, f, m) ↦
              first_row-Found (held s.world) p n xs o single
                (subst (λ (l : List Row). Found l p n xs) r m) (ap first_row (sym f) ∙ g)
        ],
        k ∙ r,
      )

  pub answers-rows :
      (virtual : Text) (s t : State W)
      → ((o : Option Text)
          → IsSingle (held s.world)
          → resolve client path cache_kb max table virtual s ≡ (answer o, t)
          → (o ≡ lookup (held s.world) virtual) × Kept s.world t.world)
        × ((ns : List Text)
            → list client path cache_kb max table virtual s ≡ (answer ns, t)
            → ((m : Text) → elem m ns ≡ child_of (held s.world) virtual m) × Kept s.world t.world)
  unfolding resolve list lookup
  answers-rows virtual s t = (
    (λ o single e. elim (Bool-cases (text_eq virtual (codes "/"))) [
      | inl r ↦
          let f = rw r at e in
          rw r (
            ap (λ (q : Ended (Option Text) × State W). elim q.0 [ answer x ↦ x | _ ↦ o ]) (sym f),
            ap (λ (q : Ended (Option Text) × State W). held q.1.world) (sym f),
          )
      | inr r ↦ let pn = split_path virtual in rw r (find-Found pn.0 pn.1 s t o single (rw r at e))
    ]),
    λ ns e.
        let params = text virtual ∷ [] in
        let (c, w, a, r, q, g) =
          asked every_row (select_names table) params s t ns (select_names-reads table) e in
        let k = read_on c (select_names table) params w t.world a (select_names-reads table) q in
        elim (laws.names c virtual w t.world a q) [
          | inl f ↦ absurd (every_row-is_err a ns f g)
          | inr (xs, f, m) ↦
              let same : ns ≡ xs = ok-injective _ _ (sym g ∙ ap every_row f ∙ every_row-map xs) in
              ((λ z. ap (elem z) same ∙ m z ∙ ap (λ (l : List Row). child_of l virtual z) r), k ∙ r)
        ],
  )
