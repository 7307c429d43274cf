-- ===== src/Db/Mounted/Speaks.antt =====
-- src/db.rs, the trait `Database`: what the file system relies on of a whitelist, and `CachingDb` in
-- front of one that keeps to it.
use yourfs.Base.{
  Bool, List, Option, none, some, ◌≡◌, refl, sym, ◌∙◌, inl, inr, Option-cases, Bool-cases, ap,
}
use mathlib.Core.Path.{subst}
use yourfs.Base.Text.{Text, text_eq, text_eq_iff}
use yourfs.Base.Outcome.{Outcome, ok, err}
use yourfs.Db.Cache.{
  get, insert, get-insert, Database, Cached, remember, resolve, list, caching, empty,
}
use yourfs.Db.Redis.Laws.{elem}

-- In a good state every answer is what `says` and `child` have, and each query leaves a good state,
-- whatever it comes to. An error says nothing.
pub record Speaks {V : Type 0} (db : Database V) (table : Text) (Good : V → Type 0)
    (says : Text → Option Text) (child : Text → Text → Bool) : Type 0 where
  pub resolves :
      (path : Text) (v : V) (o : Option Text)
      → Good v
      → (db.resolve table path v).0 ≡ ok o
      → o ≡ says path
  pub resolve_keeps : (path : Text) (v : V) → Good v → Good (db.resolve table path v).1
  pub lists :
      (path : Text) (v : V) (names : List Text)
      → Good v
      → (db.list table path v).0 ≡ ok names
      → (n : Text) → elem n names ≡ child path n
  pub list_keeps : (path : Text) (v : V) → Good v → Good (db.list table path v).1

-- Each entry of a map is true of its key.
abbrev Entries : {A : Type 0} → (Text → A → Type 0) → List (Text × A) → Type 0
Entries True m = (p : Text) (a : _) → get p m ≡ some a → True p a

insert-Entries :
    {A : Type 0} (True : Text → A → Type 0) (m : List (Text × A)) (p : Text) (a : A)
    → Entries True m
    → True p a
    → Entries True (insert p a m)
insert-Entries {A} True m p a h t q b g =
    let i = get-insert p q a m in
    elim (Bool-cases (text_eq p q)) [
      | inl hit ↦
          let same : some a ≡ some b = sym (rw hit at i) ∙ g in
          let value : a ≡ b = ap (λ (o : Option A). elim o [ some x ↦ x | none ↦ a ]) same in
          subst (λ (z : A). True q z) value
            (subst (λ (k : Text). True k a) ((text_eq_iff p q).0 hit) t)
      | inr miss ↦ h q b (sym (rw miss at i) ∙ g)
    ]

module _ {V : Type 0} (db : Database V) (table : Text) (Good : V → Type 0)
    (says : Text → Option Text) (child : Text → Text → Bool)
    (speaks : Speaks db table Good says child) where
  abbrev TruePath : Text → Option Text → Type 0
  TruePath p o = o ≡ says p

  abbrev TrueDir : Text → List Text → Type 0
  TrueDir p names = (n : Text) → elem n names ≡ child p n

  -- The cache has true entries, in front of a good state.
  pub record GoodCache (s : Cached V) : Type 0 where
    pub path_entries : Entries TruePath s.paths
    pub dir_entries : Entries TrueDir s.dirs
    pub inner_Good : Good s.inner

  pub empty-GoodCache : (v : V) → Good v → GoodCache (empty v)
  unfolding get
  empty-GoodCache v g = record {
    path_entries = λ p a e. cc;
    dir_entries = λ p a e. cc;
    inner_Good = g;
  }

  abbrev PathKept : Text → Outcome Text (Option Text) × Cached V → Type 0
  PathKept p r = ((o : Option Text) → r.0 ≡ ok o → TruePath p o) × GoodCache r.1

  abbrev DirKept : Text → Outcome Text (List Text) × Cached V → Type 0
  DirKept p r = ((ns : List Text) → r.0 ≡ ok ns → TrueDir p ns) × GoodCache r.1

  remember-PathKept :
      (p : Text) (s : Cached V) (r : Outcome Text (Option Text) × V)
      → GoodCache s
      → ((o : Option Text) → r.0 ≡ ok o → TruePath p o)
      → Good r.1
      → PathKept p (
          remember
            (λ v w. record s { paths = insert p v s.paths; inner = w })
            (λ w. record s { inner = w })
            r)
  unfolding remember
  remember-PathKept p s (ok v, w) g t k = (
    (λ o e. t o e),
    record {
      path_entries = insert-Entries TruePath s.paths p v g.path_entries (t v refl);
      dir_entries = g.dir_entries;
      inner_Good = k;
    },
  )
  remember-PathKept p s (err e, w) g t k = (
    (λ o f. t o f),
    record { path_entries = g.path_entries; dir_entries = g.dir_entries; inner_Good = k },
  )

  remember-DirKept :
      (p : Text) (s : Cached V) (r : Outcome Text (List Text) × V)
      → GoodCache s
      → ((ns : List Text) → r.0 ≡ ok ns → TrueDir p ns)
      → Good r.1
      → DirKept p (
          remember
            (λ v w. record s { dirs = insert p v s.dirs; inner = w })
            (λ w. record s { inner = w })
            r)
  unfolding remember
  remember-DirKept p s (ok v, w) g t k = (
    (λ o e. t o e),
    record {
      path_entries = g.path_entries;
      dir_entries = insert-Entries TrueDir s.dirs p v g.dir_entries (t v refl);
      inner_Good = k;
    },
  )
  remember-DirKept p s (err e, w) g t k = (
    (λ o f. t o f),
    record { path_entries = g.path_entries; dir_entries = g.dir_entries; inner_Good = k },
  )

  resolve-PathKept : (p : Text) (s : Cached V) → GoodCache s → PathKept p (resolve db table p s)
  unfolding resolve
  resolve-PathKept p s g = elim (Option-cases (get p s.paths)) [
    | inl miss ↦
        rw (miss, resolve)
          (remember-PathKept p s (db.resolve table p s.inner) g
            (λ o e. speaks.resolves p s.inner o g.inner_Good e)
            (speaks.resolve_keeps p s.inner g.inner_Good))
    | inr (v, hit) ↦
        rw (hit, resolve) ((λ o e. g.path_entries p o (hit ∙ ap some (ok_of v o e))), g)
  ]
    where
      ok_of : {A : Type 0} (a b : A) → ◌≡◌ {A = Outcome Text A} (ok a) (ok b) → a ≡ b
      ok_of a b h = ap (λ (o : Outcome Text _). elim o [ ok x ↦ x | err e ↦ a ]) h

  list-DirKept : (p : Text) (s : Cached V) → GoodCache s → DirKept p (list db table p s)
  unfolding list
  list-DirKept p s g = elim (Option-cases (get p s.dirs)) [
    | inl miss ↦
        rw (miss, list)
          (remember-DirKept p s (db.list table p s.inner) g
            (λ ns e. speaks.lists p s.inner ns g.inner_Good e)
            (speaks.list_keeps p s.inner g.inner_Good))
    | inr (v, hit) ↦ rw (hit, list) ((λ ns e. g.dir_entries p ns (hit ∙ ap some (ok_of v ns e))), g)
  ]
    where
      ok_of : {A : Type 0} (a b : A) → ◌≡◌ {A = Outcome Text A} (ok a) (ok b) → a ≡ b
      ok_of a b h = ap (λ (o : Outcome Text _). elim o [ ok x ↦ x | err e ↦ a ]) h

  -- The cache in front of a whitelist that keeps to the contract keeps to it too.
  pub caching-Speaks : Speaks (caching db) table GoodCache says child
  unfolding caching
  caching-Speaks = record {
    resolves = λ p s o g e. (resolve-PathKept p s g).0 o e;
    resolve_keeps = λ p s g. (resolve-PathKept p s g).1;
    lists = λ p s ns g e. (list-DirKept p s g).0 ns e;
    list_keeps = λ p s g. (list-DirKept p s g).1;
  }
