-- ===== src/Tool/Isolated/Inside.antt =====
-- src/scan.rs: the real paths in the rows of a tree are the paths of its entries.
use yourfs.Base.{
  Bool, true, false, ◌&&◌, ◌||◌, List, [], ◌∷◌, ◌++◌, Option, none, some, All, All-append, All-imp,
  ◌≡◌, refl, sym, ap, ◌∙◌, ◌⊎◌, Bool-cases, Option-cases, inl, inr, append_assoc,
}
use mathlib.Core.Path.{subst}
use yourfs.Base.Text.{Text, codes, text_eq, text_eq_refl}
use yourfs.Paths.{split_path}
use yourfs.Scan.Walk.{Tree, leaf, untyped, unreadable, dir, Entries, done, failed, entry, is_dots}
use yourfs.Scan.Walk.Rows.{Row, rows, rows_below}
use yourfs.Db.Redis.Contents.{real_of, lookup}
use yourfs.Tool.Served.Spelled.{spell, has_entry, has_below}

-- The path of an entry of the tree.
abbrev pub IsEntry : Entries → Text → Type 0
IsEntry es x =
    (ds : List Text) × (n : Text) × (has_entry es ds n ≡ true) × (x ≡ spell ds ++ b'/' ∷ n)

-- The root, or the path of an entry.
abbrev pub IsInside : Entries → Text → Type 0
IsInside es x = (x ≡ codes "/") ⊎ IsEntry es x

-- The real path of a row is below `prefix`, where the tree has an entry.
abbrev AtEntry : Text → Entries → Row → Type 0
AtEntry prefix es (p, m, x) =
    (ds : List Text) × (n : Text) × (has_entry es ds n ≡ true)
    × (x ≡ prefix ++ (spell ds ++ b'/' ∷ n))

abbrev AtBelow : Text → Tree → Row → Type 0
AtBelow prefix t (p, m, x) =
    (ds : List Text) × (n : Text) × (has_below t ds n ≡ true)
    × (x ≡ prefix ++ (spell ds ++ b'/' ∷ n))

or_true : (b : Bool) → (b || true) ≡ true
or_true true = refl
or_true false = refl

entry_later :
    (prefix name : Text) (t : Tree) (es : Entries) (row : Row)
    → AtEntry prefix es row
    → AtEntry prefix (entry (some name) t es) row
unfolding has_entry
entry_later prefix name t es (p, m, x) (ds, n, h, e) = elim (Bool-cases (is_dots name)) [
  | inl d ↦ (ds, n, rw d h, e)
  | inr d ↦ (ds, n, rw (d, h) (or_true _), e)
]

entry_below :
    (prefix name : Text) (t : Tree) (es : Entries) (row : Row)
    → is_dots name ≡ false
    → AtBelow (prefix ++ b'/' ∷ name) t row
    → AtEntry prefix (entry (some name) t es) row
unfolding has_entry spell
entry_below prefix name t es (p, m, x) d (ds, n, h, e) = (
  name ∷ ds,
  n,
  rw (d, text_eq_refl name, h) refl,
  e
      ∙ append_assoc prefix (b'/' ∷ name) (spell ds ++ b'/' ∷ n)
      ∙ ap (λ (l : Text). prefix ++ b'/' ∷ l) (sym (append_assoc name (spell ds) (b'/' ∷ n))),
)

here :
    (prefix name : Text) (t : Tree) (es : Entries)
    → is_dots name ≡ false
    → AtEntry prefix (entry (some name) t es) (prefix, name, prefix ++ b'/' ∷ name)
unfolding has_entry spell
here prefix name t es d = ([], name, rw (d, text_eq_refl name) refl, refl)

mutual
  unfolding rows has_below

  rows-AtEntry : (prefix : Text) (es : Entries) → All (AtEntry prefix es) (rows prefix es)
  rows-AtEntry prefix done = tt
  rows-AtEntry prefix (failed es) = rows-AtEntry prefix es
  rows-AtEntry prefix (entry none t es) = rows-AtEntry prefix es
  rows-AtEntry prefix (entry (some name) t es) =
      let rest =
        All-imp (AtEntry prefix es) (AtEntry prefix (entry (some name) t es)) (rows prefix es)
          (entry_later prefix name t es) (rows-AtEntry prefix es) in
      elim (Bool-cases (is_dots name)) [
        | inl d ↦ rw d rest
        | inr d ↦ rw d (
          here prefix name t es d,
          All-append (AtEntry prefix (entry (some name) t es))
              (rows_below (prefix ++ b'/' ∷ name) t) (rows prefix es)
              (All-imp (AtBelow (prefix ++ b'/' ∷ name) t) (AtEntry prefix (entry (some name) t es))
                (rows_below (prefix ++ b'/' ∷ name) t)
                (λ row a. entry_below prefix name t es row d a)
                (rows_below-AtBelow (prefix ++ b'/' ∷ name) t))
              rest,
        )
      ]

  rows_below-AtBelow : (prefix : Text) (t : Tree) → All (AtBelow prefix t) (rows_below prefix t)
  rows_below-AtBelow prefix leaf = tt
  rows_below-AtBelow prefix untyped = tt
  rows_below-AtBelow prefix unreadable = tt
  rows_below-AtBelow prefix (dir es) = rows-AtEntry prefix es

real_of-All :
    (P : Text → Type 0) (rs : List Row) (p n x : Text)
    → All (λ row. P row.2) rs
    → real_of rs p n ≡ some x
    → P x
unfolding real_of
real_of-All P [] p n x h e = absurd cc
real_of-All P ((q, m, y) ∷ rs) p n x h e = elim (Option-cases (real_of rs p n)) [
  | inr (z, f) ↦ real_of-All P rs p n x h.1 (f ∙ (rw f at e))
  | inl f ↦ elim (Bool-cases (text_eq q p && text_eq m n)) [
    | inl g ↦
        let k : some y ≡ some x = rw (f, g) at e in
        subst P (ap (λ (o : Option Text). elim o [ some v ↦ v | none ↦ y ]) k) h.0
    | inr g ↦ absurd (let k : none ≡ some x = rw (f, g) at e in cc)
  ]
]

-- Whatever path is looked up in the rows of a tree, a real path that is found is inside the tree.
pub lookup-IsInside :
    (es : Entries) (path real : Text) → lookup (rows [] es) path ≡ some real → IsInside es real
unfolding lookup
lookup-IsInside es path real e = elim (Bool-cases (text_eq path (codes "/"))) [
  | inl r ↦
      let k : some (codes "/") ≡ some real = rw r at e in
      inl (sym (ap (λ (o : Option Text). elim o [ some v ↦ v | none ↦ codes "/" ]) k))
  | inr r ↦
      let pn = split_path path in
      inr (real_of-All (IsEntry es) (rows [] es) pn.0 pn.1 real (rows-AtEntry [] es) (rw r at e))
]
