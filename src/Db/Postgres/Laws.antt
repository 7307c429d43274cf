-- ===== src/Db/Postgres/Laws.antt =====
-- What `PgDb` relies on of a postgres server that holds the rows of a table.
use yourfs.Base.{
  ℕ, Bool, true, false, ◌&&◌, List, [], ◌∷◌, none, some, map, any, ◌≡◌, ◌⊎◌, refl, arith,
}
use yourfs.Base.Text.{Text, codes, text_eq}
use yourfs.Base.Outcome.{ok}
use yourfs.Db.Keys.{is_prefix}
use yourfs.Db.Retry.{rows, failed}
use yourfs.Db.Postgres.{Column, Config, Client, select_realpath, select_names}
use yourfs.Db.Redis.Laws.{elem}
use yourfs.Db.Redis.Contents.{real_of, child_of}
use yourfs.Scan.Walk.Rows.{Row}

abbrev pub has_row : List Row → Text → Text → Text → Bool
has_row rs p n x = any (λ r. text_eq r.0 p && (text_eq r.1 n && text_eq r.2 x)) rs

-- Rows with the same parent and the same name have the same real path.
abbrev pub IsSingle : List Row → Type 0
IsSingle rs = (p n x : Text) → has_row rs p n x ≡ true → real_of rs p n ≡ some x

-- A query for one row: any of those that match, or none where none does.
abbrev pub Found : List Row → Text → Text → List Text → Type 0
Found rs p n a =
    ((a ≡ []) × (child_of rs p n ≡ false)) ⊎ ((x : Text) × (a ≡ x ∷ []) × (has_row rs p n x ≡ true))

pub child_of-real_of :
    (rs : List Row) (p n : Text) → child_of rs p n ≡ false → real_of rs p n ≡ none
unfolding child_of real_of
child_of-real_of [] p n h = refl
child_of-real_of ((q, m, x) ∷ rs) p n h = ground (arith, child_of-real_of rs p n, h)

-- `held` is the rows of the table. Its columns are VARCHAR, which are given back as they were stored.
pub record IsPostgres {W : Type 0} (client : Client W) (config : Config) (table : Text)
    (held : W → List Row) : Type 0 where
  pub makes : (w : W) → held (client.dial config w).1 ≡ held w
  pub fails :
      (c : ℕ) (sql : Text) (params : List Text) (w : W) (io : Bool) (e : Text)
      → is_prefix (codes "SELECT ") sql ≡ true
      → (client.query c sql params w).0 ≡ failed io e
      → held (client.query c sql params w).1 ≡ held w
  pub finds :
      (c : ℕ) (p n : Text) (u v : W) (a : List Column)
      → client.query c (select_realpath table) (p ∷ n ∷ []) u ≡ (rows a, v)
      → (held v ≡ held u)
        × ((xs : List Text) × (a ≡ map (λ x. ok (some x)) xs) × Found (held u) p n xs)
  pub names :
      (c : ℕ) (p : Text) (u v : W) (a : List Column)
      → client.query c (select_names table) (p ∷ []) u ≡ (rows a, v)
      → (held v ≡ held u)
        × ((ns : List Text) × (a ≡ map (λ x. ok (some x)) ns)
            × ((n : Text) → elem n ns ≡ child_of (held u) p n))
