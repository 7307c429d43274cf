-- ===== src/Db/Cache/Transparent.antt =====
-- src/db.rs, `CachingDb`: when the cache may stand for the database, and when it may not.
use yourfs.Base.{
  List, [], ◌∷◌, Option, some, ◌≡◌, refl, inl, inr, Option-cases, Bool-cases, sym, ◌∙◌,
}
use yourfs.Base.Text.{Text, text_eq, text_eq_iff}
use yourfs.Base.Outcome.{Outcome, ok, err}
use yourfs.Db.Cache.{get, insert, get-insert, Database, Cached, remember, resolve, list, empty}

-- Each entry is a value of the function.
abbrev Holds : {V : Type 0} → (Text → V) → List (Text × V) → Type 0
Holds f m = (p : Text) (v : _) → get p m ≡ some v → v ≡ f p

insert-Holds :
    {V : Type 0} (f : Text → V) (m : List (Text × V)) (p : Text) (v : V)
    → Holds f m
    → v ≡ f p
    → Holds f (insert p v m)
insert-Holds f m p v h e q u g =
    let i = get-insert p q v m in
    elim (Bool-cases (text_eq p q)) [
      | inl hit ↦ let same = (text_eq_iff p q).0 hit in cc (rw hit at i, g, same, e)
      | inr miss ↦ h q u (sym (rw miss at i) ∙ g)
    ]

-- What a database that does not change answers, whenever it answers.
pub record IsStatic {W : Type 0} (db : Database W) (table : Text) (paths : Text → Option Text)
    (dirs : Text → List Text) : Type 0 where
  pub resolves :
      (path : Text) (w : W) (v : Option Text) → (db.resolve table path w).0 ≡ ok v → v ≡ paths path
  pub lists :
      (path : Text) (w : W) (v : List Text) → (db.list table path w).0 ≡ ok v → v ≡ dirs path

pub data Query : Type 0 where
  resolves lists : Text → Query

pub data Answer : Type 0 where
  path_is : Outcome Text (Option Text) → Answer
  names_are : Outcome Text (List Text) → Answer

module _ {W : Type 0} (db : Database W) (table : Text) where
  -- One query on the mount's table.
  unfoldable pub ask : Query → Cached W → Answer × Cached W
  ask (resolves p) s = let r = resolve db table p s in (path_is r.0, r.1)
  ask (lists p) s = let r = list db table p s in (names_are r.0, r.1)

  unfoldable pub ask_all : List Query → Cached W → List Answer
  ask_all [] s = []
  ask_all (q ∷ qs) s = let r = ask q s in r.0 ∷ ask_all qs r.1

  -- The answer to one query agrees with the whitelist as it is; an error says nothing.
  abbrev pub IsRight : (Text → Option Text) → (Text → List Text) → Query → Answer → Type 0
  IsRight paths dirs (resolves p) (path_is (ok v)) = v ≡ paths p
  IsRight paths dirs (resolves p) (path_is (err e)) = Unit
  IsRight paths dirs (resolves p) (names_are r) = ⊥
  IsRight paths dirs (lists p) (names_are (ok v)) = v ≡ dirs p
  IsRight paths dirs (lists p) (names_are (err e)) = Unit
  IsRight paths dirs (lists p) (path_is r) = ⊥

  abbrev pub AllRight :
      (Text → Option Text) → (Text → List Text) → List Query → List Answer → Type 0
  AllRight paths dirs [] [] = Unit
  AllRight paths dirs (q ∷ qs) (a ∷ as') = IsRight paths dirs q a × AllRight paths dirs qs as'
  AllRight paths dirs _ _ = ⊥

  -- Every entry of the cache is an answer of the whitelist.
  record Faithful (paths : Text → Option Text) (dirs : Text → List Text) (s : Cached W)
      : Type 0 where
    found : Holds paths s.paths
    listed : Holds dirs s.dirs

  module _ (paths : Text → Option Text) (dirs : Text → List Text)
      (static : IsStatic db table paths dirs) where
    -- What one query leaves and answers.
    abbrev Kept : Query → Answer × Cached W → Type 0
    Kept q (a, s) = IsRight paths dirs q a × Faithful paths dirs s

    resolved-Kept :
        (p : Text) (s : Cached W) (r : Outcome Text (Option Text) × W)
        → Faithful paths dirs s
        → ((v : Option Text) → r.0 ≡ ok v → v ≡ paths p)
        → let x =
            remember
              (λ v w. record s { paths = insert p v s.paths; inner = w })
              (λ w. record s { inner = w })
              r in
          Kept (resolves p) (path_is x.0, x.1)
    unfolding remember
    resolved-Kept p s (ok v, w) f h = (
      h v refl,
      record { found = insert-Holds paths s.paths p v f.found (h v refl); listed = f.listed },
    )
    resolved-Kept p s (err e, w) f h = (tt, record { found = f.found; listed = f.listed })

    listed-Kept :
        (p : Text) (s : Cached W) (r : Outcome Text (List Text) × W)
        → Faithful paths dirs s
        → ((v : List Text) → r.0 ≡ ok v → v ≡ dirs p)
        → let x =
            remember
              (λ v w. record s { dirs = insert p v s.dirs; inner = w })
              (λ w. record s { inner = w })
              r in
          Kept (lists p) (names_are x.0, x.1)
    unfolding remember
    listed-Kept p s (ok v, w) f h = (
      h v refl,
      record { found = f.found; listed = insert-Holds dirs s.dirs p v f.listed (h v refl) },
    )
    listed-Kept p s (err e, w) f h = (tt, record { found = f.found; listed = f.listed })

    ask-Kept : (q : Query) (s : Cached W) → Faithful paths dirs s → Kept q (ask q s)
    unfolding ask resolve list
    ask-Kept (resolves p) s f = elim (Option-cases (get p s.paths)) [
      | inl miss ↦
          rw (miss, resolve)
            (resolved-Kept p s (db.resolve table p s.inner) f (static.resolves p s.inner))
      | inr (v, hit) ↦ rw (hit, resolve) (f.found p v hit, f)
    ]
    ask-Kept (lists p) s f = elim (Option-cases (get p s.dirs)) [
      | inl miss ↦
          rw (miss, list) (listed-Kept p s (db.list table p s.inner) f (static.lists p s.inner))
      | inr (v, hit) ↦ rw (hit, list) (f.listed p v hit, f)
    ]

    ask_all-Faithful :
        (qs : List Query) (s : Cached W)
        → Faithful paths dirs s
        → AllRight paths dirs qs (ask_all qs s)
    unfolding ask_all
    ask_all-Faithful [] s f = tt
    ask_all-Faithful (q ∷ qs) s f =
        let k = ask-Kept q s f in (k.0, ask_all-Faithful qs (ask q s).1 k.1)

    -- Over a whitelist that does not change, a mount with the cache answers every sequence of
    -- queries as the whitelist is: each answer that is no error is the true one.
    pub ask_all-AllRight : (qs : List Query) (w : W) → AllRight paths dirs qs (ask_all qs (empty w))
    unfolding get
    ask_all-AllRight qs w =
        ask_all-Faithful qs (empty w) (record { found = λ p v e. cc; listed = λ p v e. cc })
