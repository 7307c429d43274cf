-- ===== src/Db/Postgres/Trimmed.antt =====
-- src/db.rs, `trim_padded`: what the rows of a table say when the spaces at their ends are gone.
use yourfs.Base.{
  Bool, true, false, ◌&&◌, List, [], ◌∷◌, Option, none, some, if◌then◌else◌, map, any, ◌≡◌, refl,
  sym, ap, ◌∙◌, arith, Bool-cases, inl, inr,
}
use yourfs.Base.Text.{Text, codes, text_eq, text_eq_iff, text_eq_refl}
use yourfs.Base.Outcome.{ok}
use yourfs.Paths.{split_path}
use yourfs.Db.Postgres.{trim_padded, trimmed, name_then, first_realpath, all_names}
use yourfs.Db.Postgres.Laws.{IsSingle, Found, child_of-real_of}
use yourfs.Db.Redis.Laws.{elem}
use yourfs.Db.Redis.Contents.{real_of, child_of}
use yourfs.Scan.Walk.Rows.{Row}

-- The answers that the rows stand for.
abbrev pub real_trimmed : List Row → Text → Option Text
real_trimmed rs path =
    if text_eq path (codes "/")
    then some (codes "/")
    else (let (p, n) = split_path path in
        elim (real_of rs p n) [ some x ↦ some (trim_padded x) | none ↦ none ])

abbrev pub child_trimmed : List Row → Text → Text → Bool
child_trimmed rs p m = any (λ r. text_eq r.0 p && text_eq (trim_padded r.1) m) rs

Bool-iff : (a b : Bool) → (a ≡ true → b ≡ true) → (b ≡ true → a ≡ true) → a ≡ b
Bool-iff true b f g = sym (f refl)
Bool-iff false true f g = g refl
Bool-iff false false f g = refl

-- A list of names and the rows of a folder, both after the trim.
abbrev Before : (Text → Bool) → Text → Type 0
Before f m = (k : Text) × (f k ≡ true) × (trim_padded k ≡ m)

elem-Before :
    (ns : List Text) (m : Text) → elem m (map trim_padded ns) ≡ true → Before (λ k. elem k ns) m
elem-Before [] m h = cc
elem-Before (n ∷ ns) m h = elim (Bool-cases (text_eq (trim_padded n) m)) [
  | inl e ↦ (n, rw (text_eq_refl n) refl, (text_eq_iff _ m).0 e)
  | inr e ↦ let (k, f, g) = elem-Before ns m (ground (arith, h, e)) in (k, ground (arith, f), g)
]

Before-elem :
    (ns : List Text) (m k : Text)
    → elem k ns ≡ true
    → trim_padded k ≡ m
    → elem m (map trim_padded ns) ≡ true
Before-elem [] m k h e = cc
Before-elem (n ∷ ns) m k h e = elim (Bool-cases (text_eq n k)) [
  | inl f ↦
      let g : trim_padded n ≡ m = ap trim_padded ((text_eq_iff n k).0 f) ∙ e in
      rw (g, text_eq_refl m) refl
  | inr f ↦ ground (arith, h, f, Before-elem ns m k)
]

child_trimmed-Before :
    (rs : List Row) (p m : Text) → child_trimmed rs p m ≡ true → Before (child_of rs p) m
unfolding child_of
child_trimmed-Before [] p m h = cc
child_trimmed-Before ((q, n, x) ∷ rs) p m h =
    elim (Bool-cases (text_eq q p && text_eq (trim_padded n) m)) [
      | inl e ↦ (n, ground (arith, e, text_eq_refl n), (text_eq_iff _ m).0 (ground (arith, e)))
      | inr e ↦
          let (k, f, g) = child_trimmed-Before rs p m (ground (arith, h, e)) in
          (k, ground (arith, f), g)
    ]

Before-child_trimmed :
    (rs : List Row) (p m k : Text)
    → child_of rs p k ≡ true
    → trim_padded k ≡ m
    → child_trimmed rs p m ≡ true
unfolding child_of
Before-child_trimmed [] p m k h e = cc
Before-child_trimmed ((q, n, x) ∷ rs) p m k h e = elim (Bool-cases (text_eq q p && text_eq n k)) [
  | inl f ↦
      let g : trim_padded n ≡ m = ap trim_padded ((text_eq_iff n k).0 (ground (arith, f))) ∙ e in
      rw (g, text_eq_refl m) (ground (arith, f))
  | inr f ↦ ground (arith, h, f, Before-child_trimmed rs p m k)
]

pub elem-child_trimmed :
    (ns : List Text) (rs : List Row) (p m : Text)
    → ((n : Text) → elem n ns ≡ child_of rs p n)
    → elem m (map trim_padded ns) ≡ child_trimmed rs p m
elem-child_trimmed ns rs p m h =
    Bool-iff _ _
      (λ e. let (k, f, g) = elem-Before ns m e in Before-child_trimmed rs p m k (sym (h k) ∙ f) g)
      (λ e. let (k, f, g) = child_trimmed-Before rs p m e in Before-elem ns m k (h k ∙ f) g)

pub all_names-map :
    (ns : List Text) → all_names (map (λ x. ok (some x)) ns) ≡ ok (map trim_padded ns)
unfolding all_names name_then
all_names-map [] = refl
all_names-map (n ∷ ns) = rw (all_names-map ns) refl

pub first_realpath-Found :
    (rs : List Row) (p n : Text) (xs : List Text) (o : Option Text)
    → IsSingle rs
    → Found rs p n xs
    → first_realpath (map (λ x. ok (some x)) xs) ≡ ok o
    → o ≡ (elim (real_of rs p n) [ some x ↦ some (trim_padded x) | none ↦ none ])
unfolding first_realpath trimmed
first_realpath-Found rs p n [] o single (inl (e, f)) h =
    rw (child_of-real_of rs p n f) (ground (arith, h))
first_realpath-Found rs p n (x ∷ xs) o single (inl (e, f)) h = absurd cc
first_realpath-Found rs p n [] o single (inr (x, e, f)) h = absurd cc
first_realpath-Found rs p n (y ∷ xs) o single (inr (x, e, f)) h =
    let g : y ≡ x = ap (λ (l : List Text). elim l [ [] ↦ x | z ∷ zs ↦ z ]) e in
    rw (single p n x f, sym g) (ground (arith, h))
