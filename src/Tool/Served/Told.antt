-- ===== src/Tool/Served/Told.antt =====
-- src/scan.rs: what the rows of a tree say of a path, by recursion on the tree.
use yourfs.Base.{
  ℕ, Bool, false, ◌&&◌, ◌||◌, List, [], ◌∷◌, ◌++◌, none, some, is_empty, All, All-append, ◌≡◌, refl,
  sym, ap, ◌∙◌, arith, Bool-cases, inl, inr, append_assoc, append-nil,
}
use mathlib.Core.Path.{subst}
use yourfs.Base.Text.{Text, text_eq, text_eq_iff, text_eq_refl}
use yourfs.Scan.Walk.{Tree, leaf, untyped, unreadable, dir, Entries, done, failed, entry, is_dots}
use yourfs.Scan.Walk.Rows.{Row, rows, rows_below, parent_of, IsPlain, AllNames, AllBelow}
use yourfs.Db.Redis.Contents.{real_of, child_of, text_eq-append}
use yourfs.Tool.Served.Spelled.{
  spell, has_entry, has_below, Tells, Tells-cons, Tells-append, text_eq_names, Under, Under-Tells,
}

is_empty_entry : (q name : Text) → is_empty (q ++ b'/' ∷ name) ≡ false
is_empty_entry [] name = refl
is_empty_entry (c ∷ q) name = refl

Under-entry : (q name : Text) (rs : List Row) → All (Under (q ++ b'/' ∷ name)) rs → All (Under q) rs
unfolding spell
Under-entry q name [] h = tt
Under-entry q name ((p, n, x) ∷ rs) ((ds, e), h) =
    ((name ∷ ds, e ∙ append_assoc q (b'/' ∷ name) (spell ds)), Under-entry q name rs h)

mutual
  unfolding rows spell

  rows-Under : (q : Text) (es : Entries) → is_empty q ≡ false → All (Under q) (rows q es)
  rows-Under q done h = tt
  rows-Under q (failed es) h = rows-Under q es h
  rows-Under q (entry none t es) h = rows-Under q es h
  rows-Under q (entry (some name) t es) h = elim (Bool-cases (is_dots name)) [
    | inl e ↦ rw e (rows-Under q es h)
    | inr e ↦ rw e (
      ([], rw h (sym (append-nil q))),
      All-append (Under q) (rows_below (q ++ b'/' ∷ name) t) (rows q es)
          (Under-entry q name _ (rows_below-Under (q ++ b'/' ∷ name) t (is_empty_entry q name)))
          (rows-Under q es h),
    )
  ]

  rows_below-Under : (q : Text) (t : Tree) → is_empty q ≡ false → All (Under q) (rows_below q t)
  rows_below-Under q leaf h = tt
  rows_below-Under q untyped h = tt
  rows_below-Under q unreadable h = tt
  rows_below-Under q (dir es) h = rows-Under q es h

longer : (p : Text) (c : ℕ) (x : Text) → text_eq p (p ++ c ∷ x) ≡ false
longer [] c x = refl
longer (d ∷ p) c x = ground (arith, longer p c x)

-- The folder at `prefix` is not one of those below it.
parent_of_deeper :
    (prefix d : Text) (x : Text)
    → IsPlain d
    → text_eq (parent_of prefix) (parent_of (prefix ++ b'/' ∷ (d ++ x))) ≡ false
parent_of_deeper [] [] x h = absurd (h.0 refl)
parent_of_deeper [] (c ∷ d) x h = ground arith
parent_of_deeper (c ∷ p) d x h = longer (c ∷ p) b'/' (d ++ x)

text_eq_sym : (a b : Text) → text_eq a b ≡ text_eq b a
text_eq_sym [] [] = refl
text_eq_sym [] (c ∷ b) = refl
text_eq_sym (c ∷ a) [] = refl
text_eq_sym (c ∷ a) (d ∷ b) = ground (arith, text_eq_sym a b)

-- Two folders below different names of one folder.
other_name :
    (prefix a b : Text) (ds es : List Text)
    → IsPlain a
    → IsPlain b
    → text_eq a b ≡ false
    → text_eq ((prefix ++ b'/' ∷ a) ++ spell ds) (parent_of (prefix ++ b'/' ∷ (b ++ spell es)))
      ≡ false
other_name prefix a b ds es h k e =
    rw
      (
        is_empty_entry prefix (b ++ spell es),
        append_assoc prefix (b'/' ∷ a) (spell ds),
        text_eq-append prefix,
      )
      (elim (Bool-cases (text_eq (a ++ spell ds) (b ++ spell es))) [
        | inl f ↦ let g = text_eq_names a b ds es h.1 k.1 f in cc
        | inr f ↦ f
      ])

-- One entry, from what the rows below it and those of the other entries say.
entry-Tells :
    (prefix name : Text) (t : Tree) (ds : List Text) (n : Text) (qs : List Row) (b : Bool)
    → IsPlain name
    → All IsPlain ds
    → ((r : List Text)
        → All IsPlain r
        → let q = (prefix ++ b'/' ∷ name) ++ spell r in
          Tells
            (rows_below (prefix ++ b'/' ∷ name) t)
            (parent_of q)
            n
            (q ++ b'/' ∷ n)
            (has_below t r n))
    → (let q = prefix ++ spell ds in Tells qs (parent_of q) n (q ++ b'/' ∷ n) b)
    → let q = prefix ++ spell ds in
      Tells
        ((parent_of prefix, name, prefix ++ b'/' ∷ name)
          ∷ (rows_below (prefix ++ b'/' ∷ name) t ++ qs))
        (parent_of q)
        n
        (q ++ b'/' ∷ n)
        (elim ds [ [] ↦ text_eq name n | d ∷ r ↦ text_eq name d && has_below t r n ] || b)
unfolding spell
entry-Tells prefix name t [] n qs b h k sub rest =
    let deeper : (ds : List Text)
        → text_eq ((prefix ++ b'/' ∷ name) ++ spell ds) (parent_of (prefix ++ [])) ≡ false =
      λ ds.
        rw (append-nil prefix, append_assoc prefix (b'/' ∷ name) (spell ds))
          (text_eq_sym _ (parent_of prefix)
            ∙ (rw (is_empty_entry prefix (name ++ spell ds)) at
                (parent_of_deeper prefix name (spell ds) h))) in
    Tells-cons (parent_of prefix) name (prefix ++ b'/' ∷ name) _ _ n _ (text_eq name n) b
      (rw (append-nil prefix, text_eq_refl (parent_of prefix)) refl)
      (λ e.
        rw (append-nil prefix) (ap (λ (x : Text). prefix ++ b'/' ∷ x) ((text_eq_iff name n).0 e)))
      (Tells-append _ qs _ n _ false b
        (Under-Tells (prefix ++ b'/' ∷ name) _ n _ _
          (rows_below-Under (prefix ++ b'/' ∷ name) t (is_empty_entry prefix name)) deeper)
        rest)
entry-Tells prefix name t (d ∷ r) n qs b h (k, ks) sub rest =
    let apart = parent_of_deeper prefix d (spell r) k in
    Tells-cons (parent_of prefix) name (prefix ++ b'/' ∷ name) _ _ n _ false _ (rw apart refl)
      (λ e. cc)
      (Tells-append _ qs _ n _ (text_eq name d && has_below t r n) b
        (elim (Bool-cases (text_eq name d)) [
          | inl e ↦
              let g : (prefix ++ b'/' ∷ name) ++ spell r ≡ prefix ++ b'/' ∷ (d ++ spell r) =
                append_assoc prefix (b'/' ∷ name) (spell r)
                ∙ ap (λ (x : Text). prefix ++ b'/' ∷ (x ++ spell r)) ((text_eq_iff name d).0 e) in
              rw e (
                subst
                  (λ (x : Text).
                    Tells (rows_below (prefix ++ b'/' ∷ name) t) (parent_of x) n (x ++ b'/' ∷ n)
                      (has_below t r n))
                  g (sub r ks))
          | inr e ↦ rw e (
              Under-Tells (prefix ++ b'/' ∷ name) _ n _ _
                (rows_below-Under (prefix ++ b'/' ∷ name) t (is_empty_entry prefix name))
                (λ ds. other_name prefix name d ds r h k e))
        ])
        rest)

mutual
  unfolding rows AllNames has_entry spell child_of real_of

  pub rows-Tells :
      (prefix : Text) (es : Entries) (ds : List Text) (n : Text)
      → AllNames IsPlain es
      → All IsPlain ds
      → Tells
          (rows prefix es)
          (parent_of (prefix ++ spell ds))
          n
          ((prefix ++ spell ds) ++ b'/' ∷ n)
          (has_entry es ds n)
  rows-Tells prefix done ds n h k = record { child_told = refl; real_told = refl }
  rows-Tells prefix (failed es) ds n h k = rows-Tells prefix es ds n h k
  rows-Tells prefix (entry none t es) ds n h k = rows-Tells prefix es ds n h k
  rows-Tells prefix (entry (some name) t es) ds n h k = elim (Bool-cases (is_dots name)) [
    | inl e ↦ rw e (rows-Tells prefix es ds n h.2 k)
    | inr e ↦ rw e (
        entry-Tells prefix name t ds n (rows prefix es) (has_entry es ds n) h.0 k
          (λ r l. rows_below-Tells (prefix ++ b'/' ∷ name) t r n h.1 l)
          (rows-Tells prefix es ds n h.2 k))
  ]

  rows_below-Tells :
      (prefix : Text) (t : Tree) (ds : List Text) (n : Text)
      → AllBelow IsPlain t
      → All IsPlain ds
      → Tells
          (rows_below prefix t)
          (parent_of (prefix ++ spell ds))
          n
          ((prefix ++ spell ds) ++ b'/' ∷ n)
          (has_below t ds n)
  rows_below-Tells prefix leaf ds n h k = record { child_told = refl; real_told = refl }
  rows_below-Tells prefix untyped ds n h k = record { child_told = refl; real_told = refl }
  rows_below-Tells prefix unreadable ds n h k = record { child_told = refl; real_told = refl }
  rows_below-Tells prefix (dir es) ds n h k = rows-Tells prefix es ds n h k
