-- ===== src/Db/Redis/Reader.antt =====
-- src/db.rs, `RedisDb`: its answers are those of the whitelist that was written.
pub mod Probe
use yourfs.Base.{
  ℕ, Bool, true, false, ◌||◌, List, [], ◌∷◌, Option, none, some, if◌then◌else◌, ◌≡◌, refl, sym, ap,
  ◌∙◌, arith, Bool-cases, inl, inr,
}
use mathlib.Core.Path.{subst}
use yourfs.Base.Text.{Text, codes, text_eq}
use yourfs.Paths.{split_path}
use yourfs.Db.Keys.{dir_key, hash_key, is_prefix}
use yourfs.Db.Pool.{PoolState}
use yourfs.Db.Retry.{Reply, rows, failed, Server, Ended, answer, State, query_retry}
use yourfs.Db.Retry.Answers.{
  Calm, IsUp, HasRoom, query_retry-Answers, query_retry-IsUp, Ran, Answers,
}
use yourfs.Db.Redis.{Cmd, hget, zrange, Answer, Client, server, cmd_retry, resolve, list}
use yourfs.Db.Redis.Laws.{elem, IsSorted, View, Same, Still, is_read, IsRedis}
use yourfs.Db.Redis.Contents.{real_of, child_of, lookup, Holds}
use yourfs.Scan.Walk.Rows.{Row}

module _ {W : Type 0} (view : View W) where
  open view use {hash, members, has, due, left}

  pub Same-refl : (u : W) → Same view u u
  Same-refl u = record { hash_same = λ k f. refl; members_same = λ k. refl; has_same = λ k. refl }

  pub Same-trans : (u v w : W) → Same view u v → Same view v w → Same view u w
  Same-trans u v w a b = record {
    hash_same = λ k f. b.hash_same k f ∙ a.hash_same k f;
    members_same = λ k. b.members_same k ∙ a.members_same k;
    has_same = λ k. b.has_same k ∙ a.has_same k;
  }

  pub Still-refl : (u : W) → Still view u u
  Still-refl u = record { same = Same-refl u; due_still = λ c k. refl; left_still = λ c. refl }

  pub Still-trans : (u v w : W) → Still view u v → Still view v w → Still view u w
  Still-trans u v w a b = record {
    same = Same-trans u v w a.same b.same;
    due_still = λ c k. b.due_still c k ∙ a.due_still c k;
    left_still = λ c. b.left_still c ∙ a.left_still c;
  }

  pub Holds-Same :
      (table : Text) (rs : List Row) (u v : W)
      → Same view u v
      → Holds view table rs u
      → Holds view table rs v
  Holds-Same table rs u v s h = record {
    hash_held = λ p n. s.hash_same (hash_key table p) n ∙ h.hash_held p n;
    members_held = λ p n. ap (elem n) (s.members_same (dir_key table p)) ∙ h.members_held p n;
    has_held = λ k e. s.has_same k ∙ h.has_held k e;
  }

answer-injective : {A : Type 0} (a b : A) → ◌≡◌ {A = Ended A} (answer a) (answer b) → a ≡ b
answer-injective {A} a b h = ap (λ (e : Ended A). elim e [ answer x ↦ x | _ ↦ a ]) h

module _ {W : Type 0} (max : ℕ) (client : Client W) (view : View W)
    (laws : IsRedis view client) where
  open view use {hash, members, has, due, left}

  pub calm : (c : Cmd) → is_read c ≡ true → Calm (server max client c) (Still view)
  unfolding server
  calm c r = record {
    same = Still-refl view;
    trans = Still-trans view;
    makes = laws.makes;
    fails = λ n w io e h. laws.fails n c w io e r h;
  }

  -- An answer comes from a run of the command on the same data.
  pub ran :
      (c : Cmd) (s : State W) (a : Answer c) (t : State W)
      → is_read c ≡ true
      → cmd_retry max client c s ≡ (answer a, t)
      → (n : ℕ) × (w : W) × Still view s.world w × (client.query n c w ≡ (rows a, t.world))
  unfolding cmd_retry server
  ran c s a t r e =
      subst (Answers max (server max client c) (Still view) (calm c r) s.world) e
        (query_retry-Answers max (server max client c) (Still view) (calm c r) s)

  resolve_root :
      (table path : Text) (s : State W)
      → text_eq path (codes "/") ≡ true
      → resolve max client table path s ≡ (answer (some (codes "/")), s)
  unfolding resolve
  resolve_root table path s e = rw e refl

  resolve_below :
      (table path : Text) (s : State W)
      → text_eq path (codes "/") ≡ false
      → resolve max client table path s
        ≡ cmd_retry max client (hget (hash_key table (split_path path).0) (split_path path).1) s
  unfolding resolve
  resolve_below table path s e = rw e refl

  hget-Holds :
      (table : Text) (rs : List Row) (p n : Text) (s t : State W) (a : Option Text)
      → Holds view table rs s.world
      → cmd_retry max client (hget (hash_key table p) n) s ≡ (answer a, t)
      → (a ≡ real_of rs p n) × Holds view table rs t.world
  hget-Holds table rs p n s t a h e =
      let (i, w, st, q) = ran (hget (hash_key table p) n) s a t refl e in
      let (sm, r) = laws.hgets i (hash_key table p) n w t.world a q in
      let k = Holds-Same view table rs s.world w st.same h in
      (r ∙ k.hash_held p n, Holds-Same view table rs w t.world sm k)

  pub answers-lookup :
      (table : Text) (rs : List Row) (path : Text) (s t : State W)
      → Holds view table rs s.world
      → ((a : Option Text)
          → resolve max client table path s ≡ (answer a, t)
          → (a ≡ lookup rs path) × Holds view table rs t.world)
        × ((names : List Text)
            → list max client table path s ≡ (answer names, t)
            → IsSorted names
              × ((n : Text) → elem n names ≡ child_of rs path n)
              × Holds view table rs t.world)
  unfolding resolve list lookup
  answers-lookup table rs path s t h = (
    (λ a e. elim (Bool-cases (text_eq path (codes "/"))) [
      | inl r ↦
          let f = sym (resolve_root table path s r) ∙ e in
          (
            answer-injective _ _ (ap (λ (q : Ended (Option Text) × State W). q.0) (sym f))
                ∙ rw r refl,
            subst (λ (q : State W). Holds view table rs q.world)
                (ap (λ (q : Ended (Option Text) × State W). q.1) f) h,
          )
      | inr r ↦
          let pn = split_path path in
          let (k, held) =
            hget-Holds table rs pn.0 pn.1 s t a h (sym (resolve_below table path s r) ∙ e) in
          (k ∙ rw r refl, held)
    ]),
    λ names e.
        let (i, w, st, q) = ran (zrange (dir_key table path)) s names t refl e in
        let (sm, r) = laws.zranges i (dir_key table path) w t.world names q in
        let k = Holds-Same view table rs s.world w st.same h in
        (
          subst IsSorted (sym r) (laws.sorted w (dir_key table path)),
          (λ n. ap (elem n) r ∙ k.members_held path n),
          Holds-Same view table rs w t.world sm k,
        ),
  )

  -- Where the server is up, there is an answer.
  pub resolve-IsUp :
      (table : Text) (rs : List Row) (path : Text) (s : State W)
      → ((c : Cmd) → IsUp (server max client c))
      → HasRoom max s.pool
      → Holds view table rs s.world
      → (t : State W) × (resolve max client table path s ≡ (answer (lookup rs path), t))
        × HasRoom max t.pool
        × Holds view table rs t.world
  resolve-IsUp table rs path s up room h = elim (Bool-cases (text_eq path (codes "/"))) [
    | inl r ↦ (s, resolve_root table path s r ∙ unfold lookup in (rw r refl), room, h)
    | inr r ↦
        let pn = split_path path in
        let c = hget (hash_key table pn.0) pn.1 in
        let (a, t, e, m) = query_retry-IsUp max (server max client c) (up c) s room in
        let f : resolve max client table path s ≡ (answer a, t) =
          resolve_below table path s r ∙ unfold cmd_retry in e in
        let (k, held) = (answers-lookup table rs path s t h).0 a f in
        (
          t,
          subst (λ (x : Option Text). resolve max client table path s ≡ (answer x, t)) k f,
          m,
          held,
        )
  ]

  pub list-IsUp :
      (table : Text) (rs : List Row) (path : Text) (s : State W)
      → ((c : Cmd) → IsUp (server max client c))
      → HasRoom max s.pool
      → Holds view table rs s.world
      → (names : List Text) × (t : State W) × (list max client table path s ≡ (answer names, t))
        × HasRoom max t.pool
        × IsSorted names
        × ((n : Text) → elem n names ≡ child_of rs path n)
  unfolding list cmd_retry
  list-IsUp table rs path s up room h =
      let c = zrange (dir_key table path) in
      let (a, t, e, m) = query_retry-IsUp max (server max client c) (up c) s room in
      let (sorted, same, held) = (answers-lookup table rs path s t h).1 a e in
      (a, t, e, m, sorted, same)
