-- ===== src/Db/Cache.antt =====
-- src/db.rs, `CachingDb`: the read-through cache in front of a whitelist. The wrapped database is a
-- parameter: its answers may depend on its state, which a query may change.
pub mod Transparent
use yourfs.Base.{ℕ, Bool, List, [], ◌∷◌, Option, none, some, if◌then◌else◌, ◌≡◌, refl, arith}
use yourfs.Base.Text.{Text, text_eq, text_eq_iff}
use yourfs.Base.Outcome.{Outcome, ok, err}

-- The maps of the source, newest entry in place of an older one.
module _ {ℓ} {V : Type ℓ} where
  unfoldable pub get : Text → List (Text × V) → Option V
  get k [] = none
  get k ((j, v) ∷ m) = if text_eq j k then some v else get k m

  unfoldable pub insert : Text → V → List (Text × V) → List (Text × V)
  insert k v [] = (k, v) ∷ []
  insert k v ((j, w) ∷ m) = if text_eq j k then (k, v) ∷ m else (j, w) ∷ insert k v m

  pub get-insert :
      (k j : Text) (v : V) (m : List (Text × V))
      → get j (insert k v m) ≡ (if text_eq k j then some v else get j m)
  unfolding get insert
  get-insert k j v [] = refl
  get-insert k j v ((i, w) ∷ m) = ground (
    arith,
    text_eq_iff k j,
    text_eq_iff i k,
    text_eq_iff i j,
    text_eq_iff k k,
    get-insert k j v m,
  )

-- The queries of a database whose state is `W`. An error carries a message.
pub record Database (W : Type 0) : Type 0 where
  pub resolve : Text → Text → W → Outcome Text (Option Text) × W
  pub list : Text → Text → W → Outcome Text (List Text) × W
  pub check_table : Text → W → Outcome Text (Unit {0}) × W

-- The cache and the state of the database behind it.
pub record Cached (W : Type 0) : Type 0 where
  pub paths : List (Text × Option Text)
  pub dirs : List (Text × List Text)
  pub inner : W

-- The second half of a query that misses: an answer is kept, an error is not.
unfoldable pub remember :
    {W V : Type 0}
    → (V → W → Cached W)
    → (W → Cached W)
    → Outcome Text V × W
    → Outcome Text V × Cached W
remember keep skip (ok v, w) = (ok v, keep v w)
remember keep skip (err e, w) = (err e, skip w)

module _ {W : Type 0} (db : Database W) where
  unfoldable pub resolve : Text → Text → Cached W → Outcome Text (Option Text) × Cached W
  unfolding remember
  resolve table path s = elim (get path s.paths) [
    | some v ↦ (ok v, s)
    | none ↦
        remember (λ v w. record s { paths = insert path v s.paths; inner = w })
          (λ w. record s { inner = w }) (db.resolve table path s.inner)
  ]

  unfoldable pub list : Text → Text → Cached W → Outcome Text (List Text) × Cached W
  unfolding remember
  list table path s = elim (get path s.dirs) [
    | some v ↦ (ok v, s)
    | none ↦
        remember (λ v w. record s { dirs = insert path v s.dirs; inner = w })
          (λ w. record s { inner = w }) (db.list table path s.inner)
  ]

  unfoldable pub check_table : Text → Cached W → Outcome Text (Unit {0}) × Cached W
  check_table table s = let r = db.check_table table s.inner in (r.0, record s { inner = r.1 })

  -- `CachingDb` is a `Database`, and `caching` wraps one.
  unfoldable pub caching : Database (Cached W)
  caching = record { resolve = resolve; list = list; check_table = check_table }

abbrev pub empty : {W : Type 0} → W → Cached W
empty w = record { paths = []; dirs = []; inner = w }
