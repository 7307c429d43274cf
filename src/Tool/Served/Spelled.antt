-- ===== src/Tool/Served/Spelled.antt =====
-- src/scan.rs: the rows of a tree, read as a whitelist, name what the tree has.
use yourfs.Base.{
  Bool, true, false, ◌&&◌, ◌||◌, List, [], ◌∷◌, ◌++◌, Option, none, some, if◌then◌else◌, All, ◌≡◌,
  refl, ap, ◌∙◌, arith,
}
use yourfs.Base.Text.{Text, text_eq, Lacks}
use yourfs.Scan.Walk.{Tree, leaf, untyped, unreadable, dir, Entries, done, failed, entry, is_dots}
use yourfs.Scan.Walk.Rows.{Row}
use yourfs.Db.Redis.Contents.{real_of, child_of}

-- The path of a list of names, empty for the root.
unfoldable pub spell : List Text → Text
spell [] = []
spell (d ∷ ds) = b'/' ∷ (d ++ spell ds)

-- The tree has an entry `n` in the folder that `ds` leads to, under names that are UTF-8.
unfoldable mutual
  pub has_entry : Entries → List Text → Text → Bool
  has_entry done ds n = false
  has_entry (failed es) ds n = has_entry es ds n
  has_entry (entry none t es) ds n = has_entry es ds n
  has_entry (entry (some name) t es) ds n =
      if is_dots name
      then has_entry es ds n
      else elim ds [ [] ↦ text_eq name n | d ∷ r ↦ text_eq name d && has_below t r n ]
        || has_entry es ds n

  pub has_below : Tree → List Text → Text → Bool
  has_below leaf ds n = false
  has_below untyped ds n = false
  has_below unreadable ds n = false
  has_below (dir es) ds n = has_entry es ds n

-- What the rows say of `n` in `p`: nothing, or the one path `v`.
pub record Tells (rs : List Row) (p n v : Text) (b : Bool) : Type 0 where
  pub child_told : child_of rs p n ≡ b
  pub real_told : real_of rs p n ≡ (if b then some v else none)

pub Tells-cons :
    (q m x : Text) (rs : List Row) (p n v : Text) (a b : Bool)
    → (text_eq q p && text_eq m n) ≡ a
    → (a ≡ true → x ≡ v)
    → Tells rs p n v b
    → Tells ((q, m, x) ∷ rs) p n v (a || b)
unfolding child_of real_of
Tells-cons q m x rs p n v true true e f t = record {
  child_told = rw e refl;
  real_told = rw (t.real_told) refl;
}
Tells-cons q m x rs p n v true false e f t = record {
  child_told = rw e refl;
  real_told = rw (t.real_told, e) (ap some (f refl));
}
Tells-cons q m x rs p n v false true e f t = record {
  child_told = rw (e, t.child_told) refl;
  real_told = rw (t.real_told) refl;
}
Tells-cons q m x rs p n v false false e f t = record {
  child_told = rw (e, t.child_told) refl;
  real_told = rw (t.real_told, e) refl;
}

child_of-append :
    (rs qs : List Row) (p n : Text) → child_of (rs ++ qs) p n ≡ (child_of rs p n || child_of qs p n)
unfolding child_of
child_of-append [] qs p n = refl
child_of-append ((q, m, x) ∷ rs) qs p n = ground (arith, child_of-append rs qs p n)

later : Option Text → Option Text → Option Text
later (some x) o = some x
later none o = o

real_of-append :
    (rs qs : List Row) (p n : Text)
    → real_of (rs ++ qs) p n ≡ later (real_of qs p n) (real_of rs p n)
unfolding real_of later
real_of-append [] qs p n = ground arith
real_of-append ((q, m, x) ∷ rs) qs p n = ground (arith, real_of-append rs qs p n)

pub Tells-append :
    (rs qs : List Row) (p n v : Text) (a b : Bool)
    → Tells rs p n v a
    → Tells qs p n v b
    → Tells (rs ++ qs) p n v (a || b)
unfolding later
Tells-append rs qs p n v a b s t = record {
  child_told = child_of-append rs qs p n ∙ rw (s.child_told, t.child_told) refl;
  real_told = real_of-append rs qs p n ∙ rw (s.real_told, t.real_told) (ground arith);
}

pub text_eq_names :
    (a b : Text) (ds es : List Text)
    → Lacks b'/' a
    → Lacks b'/' b
    → text_eq (a ++ spell ds) (b ++ spell es) ≡ true
    → text_eq a b ≡ true
unfolding spell
text_eq_names [] [] ds es h k e = refl
text_eq_names [] (c ∷ b) [] es h k e = cc
text_eq_names [] (c ∷ b) (d ∷ ds) es h k e = ground (arith, k, e)
text_eq_names (c ∷ a) [] ds [] h k e = cc
text_eq_names (c ∷ a) [] ds (f ∷ es) h k e = ground (arith, h, e)
text_eq_names (c ∷ a) (d ∷ b) ds es h k e = ground (arith, text_eq_names a b ds es h.1 k.1, e)

-- The parent of a row below `q`.
abbrev pub Under : Text → Row → Type 0
Under q (p, n, x) = (ds : List Text) × (p ≡ q ++ spell ds)

pub Under-Tells :
    (q x n v : Text) (rs : List Row)
    → All (Under q) rs
    → ((ds : List Text) → text_eq (q ++ spell ds) x ≡ false)
    → Tells rs x n v false
unfolding child_of real_of
Under-Tells q x n v [] h f = record { child_told = refl; real_told = refl }
Under-Tells q x n v ((p, m, y) ∷ rs) h f =
    let (ds, e) = h.0 in
    Tells-cons p m y rs x n v false false (rw (e, f ds) refl) (λ z. cc)
      (Under-Tells q x n v rs h.1 f)
