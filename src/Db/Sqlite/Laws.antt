-- ===== src/Db/Sqlite/Laws.antt =====
-- What `SqliteDb` of src/db.rs relies on of its library, and how the rows that it gives are read.
use yourfs.Base.{
  ℕ, Bool, true, false, List, [], ◌∷◌, Option, map, any, ◌≡◌, ◌⊎◌, refl, sym, ap, arith, inl, inr,
}
use yourfs.Base.Text.{Text, codes}
use yourfs.Base.Outcome.{Outcome, ok, err}
use yourfs.Db.Keys.{is_prefix}
use yourfs.Db.Sqlite.{
  Value, text, Client, select_realpath, select_names, first_row, every_row, pushed,
}
use yourfs.Db.Postgres.Laws.{IsSingle, Found, child_of-real_of}
use yourfs.Db.Redis.Laws.{elem}
use yourfs.Db.Redis.Contents.{real_of, child_of}
use yourfs.Scan.Walk.Rows.{Row}

abbrev is_err : Outcome Text Text → Bool
is_err (ok v) = false
is_err (err e) = true

-- What `SqliteDb` relies on, for a table that holds the rows `held`. A row may fail to be read.
pub record IsSqlite {W : Type 0} (client : Client W) (table : Text) (held : W → List Row)
    : Type 0 where
  pub opens : (path : Text) (w : W) → held (client.open_file path w).1 ≡ held w
  pub tunes :
      (c : ℕ) (name : Text) (v : Value) (w : W) → held (client.pragma_update c name v w).1 ≡ held w
  pub prepares : (c : ℕ) (sql : Text) (w : W) → held (client.prepare c sql w).1 ≡ held w
  pub reads :
      (c : ℕ) (sql : Text) (params : List Value) (w : W)
      → is_prefix (codes "SELECT ") sql ≡ true
      → held (client.step_rows c sql params w).1 ≡ held w
  pub finds :
      (c : ℕ) (p n : Text) (u v : W) (a : List (Outcome Text Text))
      → client.step_rows c (select_realpath table) (text p ∷ text n ∷ []) u ≡ (ok a, v)
      → ((e : Text) × (a ≡ err e ∷ []))
        ⊎ ((xs : List Text) × (a ≡ map ok xs) × Found (held u) p n xs)
  pub names :
      (c : ℕ) (p : Text) (u v : W) (a : List (Outcome Text Text))
      → client.step_rows c (select_names table) (text p ∷ []) u ≡ (ok a, v)
      → (any is_err a ≡ true)
        ⊎ ((ns : List Text) × (a ≡ map ok ns) × ((n : Text) → elem n ns ≡ child_of (held u) p n))

pub every_row-map : (ns : List Text) → every_row (map ok ns) ≡ ok ns
unfolding every_row pushed
every_row-map [] = refl
every_row-map (n ∷ ns) = rw (every_row-map ns) refl

pushed-err :
    (v : Text) (o : Outcome Text (List Text)) (ns : List Text)
    → pushed v o ≡ ok ns
    → (ms : List Text) × (o ≡ ok ms)
unfolding pushed
pushed-err v (ok ms) ns h = (ms, refl)
pushed-err v (err e) ns h = cc

pub every_row-is_err :
    (a : List (Outcome Text Text)) (ns : List Text) → any is_err a ≡ true → every_row a ≡ ok ns → ⊥
unfolding every_row
every_row-is_err [] ns h e = cc
every_row-is_err (ok v ∷ a) ns h e =
    let (ms, f) = pushed-err v (every_row a) ns e in every_row-is_err a ms h f
every_row-is_err (err m ∷ a) ns h e = cc

pub ok-injective : {A : Type 0} (a b : A) → ◌≡◌ {A = Outcome Text A} (ok a) (ok b) → a ≡ b
ok-injective a b h = ap (λ (o : Outcome Text _). elim o [ ok x ↦ x | err e ↦ a ]) h

pub first_row-Found :
    (rs : List Row) (p n : Text) (xs : List Text) (o : Option Text)
    → IsSingle rs
    → Found rs p n xs
    → first_row (map ok xs) ≡ ok o
    → o ≡ real_of rs p n
unfolding first_row
first_row-Found rs p n [] o single (inl (e, f)) h =
    rw (child_of-real_of rs p n f) (ground (arith, h))
first_row-Found rs p n (x ∷ xs) o single (inl (e, f)) h = absurd cc
first_row-Found rs p n [] o single (inr (x, e, f)) h = absurd cc
first_row-Found rs p n (y ∷ xs) o single (inr (x, e, f)) h =
    let g : y ≡ x = ap (λ (l : List Text). elim l [ [] ↦ x | z ∷ zs ↦ z ]) e in
    rw (single p n x f, sym g) (ground (arith, h))

pub first_row-err : (e : Text) (o : Option Text) → first_row (err e ∷ []) ≡ ok o → ⊥
unfolding first_row
first_row-err e o h = cc

pub select_realpath-reads :
    (table : Text) → is_prefix (codes "SELECT ") (select_realpath table) ≡ true
unfolding select_realpath
select_realpath-reads table = refl

pub select_names-reads : (table : Text) → is_prefix (codes "SELECT ") (select_names table) ≡ true
unfolding select_names
select_names-reads table = refl
