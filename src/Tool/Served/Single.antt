-- ===== src/Tool/Served/Single.antt =====
-- src/scan.rs: the rows of a tree agree on their real paths, which the SQL readers of src/db.rs count on.
use yourfs.Base.{
  true, false, ◌&&◌, List, [], ◌∷◌, ◌++◌, none, some, All, All-append, ◌≡◌, ◌≢◌, refl, sym, ap, ◌∙◌,
  arith, Bool-cases, inl, inr,
}
use yourfs.Base.Text.{Text, codes, text_eq, text_eq_iff}
use yourfs.Paths.Split.{join}
use yourfs.Scan.Walk.{Tree, leaf, untyped, unreadable, dir, Entries, done, failed, entry, is_dots}
use yourfs.Scan.Walk.Rows.{Row, rows, rows_below, parent_of, IsPlain, AllNames, AllBelow}
use yourfs.Db.Redis.Contents.{real_of, child_of}
use yourfs.Db.Postgres.Laws.{has_row, IsSingle, child_of-real_of}

abbrev IsJoined : Row → Type 0
IsJoined (p, n, x) = x ≡ join p n

pub below_root : (p n : Text) → n ≢ [] → text_eq (p ++ b'/' ∷ n) (codes "/") ≡ false
below_root [] [] h = absurd (h refl)
below_root [] (c ∷ n) h = ground arith
below_root (c ∷ []) n h = ground arith
below_root (c ∷ d ∷ p) n h = ground arith

join-parent_of :
    (prefix name : Text)
    → text_eq prefix (codes "/") ≡ false
    → prefix ++ b'/' ∷ name ≡ join (parent_of prefix) name
join-parent_of [] name h = refl
join-parent_of (c ∷ p) name h = rw h refl

mutual
  unfolding rows AllNames

  rows-IsJoined :
      (prefix : Text) (es : Entries)
      → text_eq prefix (codes "/") ≡ false
      → AllNames IsPlain es
      → All IsJoined (rows prefix es)
  rows-IsJoined prefix done e h = tt
  rows-IsJoined prefix (failed es) e h = rows-IsJoined prefix es e h
  rows-IsJoined prefix (entry none t es) e h = rows-IsJoined prefix es e h
  rows-IsJoined prefix (entry (some name) t es) e h = elim (Bool-cases (is_dots name)) [
    | inl f ↦ rw f (rows-IsJoined prefix es e h.2)
    | inr f ↦ rw f (
      join-parent_of prefix name e,
      All-append IsJoined (rows_below (prefix ++ b'/' ∷ name) t) (rows prefix es)
          (rows_below-IsJoined (prefix ++ b'/' ∷ name) t (below_root prefix name h.0.0) h.1)
          (rows-IsJoined prefix es e h.2),
    )
  ]

  rows_below-IsJoined :
      (prefix : Text) (t : Tree)
      → text_eq prefix (codes "/") ≡ false
      → AllBelow IsPlain t
      → All IsJoined (rows_below prefix t)
  rows_below-IsJoined prefix leaf e h = tt
  rows_below-IsJoined prefix untyped e h = tt
  rows_below-IsJoined prefix unreadable e h = tt
  rows_below-IsJoined prefix (dir es) e h = rows-IsJoined prefix es e h

joined_at : (q m x p n : Text) → x ≡ join q m → (text_eq q p && text_eq m n) ≡ true → x ≡ join p n
joined_at q m x p n e h =
    e
    ∙ ap (λ (y : Text). join y m) ((text_eq_iff q p).0 (ground (arith, h)))
    ∙ ap (join p) ((text_eq_iff m n).0 (ground (arith, h)))

real_of-join :
    (rs : List Row) (p n : Text)
    → All IsJoined rs
    → child_of rs p n ≡ true
    → real_of rs p n ≡ some (join p n)
unfolding child_of real_of
real_of-join [] p n h e = cc
real_of-join ((q, m, x) ∷ rs) p n (j, h) e = elim (Bool-cases (child_of rs p n)) [
  | inl f ↦ rw (real_of-join rs p n h f) refl
  | inr f ↦
      let g : (text_eq q p && text_eq m n) ≡ true = ground (arith, e, f) in
      rw (child_of-real_of rs p n f, g) (ap some (joined_at q m x p n j g))
]

has_row-join :
    (rs : List Row) (p n x : Text)
    → All IsJoined rs
    → has_row rs p n x ≡ true
    → (child_of rs p n ≡ true) × (x ≡ join p n)
unfolding child_of
has_row-join [] p n x h e = cc
has_row-join ((q, m, y) ∷ rs) p n x (j, h) e =
    elim (Bool-cases (text_eq q p && (text_eq m n && text_eq y x))) [
      | inl f ↦
          let g : (text_eq q p && text_eq m n) ≡ true = ground (arith, f) in
          (rw g refl, sym ((text_eq_iff y x).0 (ground (arith, f))) ∙ joined_at q m y p n j g)
      | inr f ↦
          let (k, l) = has_row-join rs p n x h (ground (arith, e, f)) in (ground (arith, k), l)
    ]

-- The rows of a scan meet the hypothesis of the readers of a table.
pub rows-IsSingle : (es : Entries) → AllNames IsPlain es → IsSingle (rows [] es)
rows-IsSingle es h p n x e =
    let all = rows-IsJoined [] es refl h in
    let (k, l) = has_row-join (rows [] es) p n x all e in
    real_of-join (rows [] es) p n all k ∙ ap some (sym l)
