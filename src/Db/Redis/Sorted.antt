-- ===== src/Db/Redis/Sorted.antt =====
-- A list of texts in strict byte order is determined by its elements.
use yourfs.Base.{true, false, List, [], ◌∷◌, ◌≡◌, refl, sym, ◌∙◌, ap, arith, inl, inr, Bool-cases}
use mathlib.Core.Path.{subst}
use yourfs.Base.Text.{Text, text_eq, text_lt, text_eq_iff, text_eq_refl}
use yourfs.Db.Redis.Laws.{elem, IsSorted}

text_lt_irrefl : (s : Text) → text_lt s s ≡ false
text_lt_irrefl [] = refl
text_lt_irrefl (c ∷ s) = ground (arith, text_lt_irrefl s)

text_lt_trans : (a b c : Text) → text_lt a b ≡ true → text_lt b c ≡ true → text_lt a c ≡ true
text_lt_trans a b [] h k = ground (arith, h, k)
text_lt_trans [] b (z ∷ c) h k = refl
text_lt_trans (x ∷ a) [] (z ∷ c) h k = cc
text_lt_trans (x ∷ a) (y ∷ b) (z ∷ c) h k = ground (arith, text_lt_trans a b c)

elem-lt : (x m : Text) (xs : List Text) → IsSorted (x ∷ xs) → elem m xs ≡ true → text_lt x m ≡ true
elem-lt x m [] s h = cc
elem-lt x m (y ∷ ys) s h = elim (Bool-cases (text_eq y m)) [
  | inl e ↦ subst (λ (z : Text). text_lt x z ≡ true) ((text_eq_iff y m).0 e) s.0
  | inr e ↦
      let rest : elem m ys ≡ true = ground (arith, h, e) in
      text_lt_trans x y m s.0 (elem-lt y m ys s.1 rest)
]

IsSorted-tail : (x : Text) (xs : List Text) → IsSorted (x ∷ xs) → IsSorted xs
IsSorted-tail x [] s = tt
IsSorted-tail x (y ∷ ys) s = s.1

same_head :
    (x y : Text) (xs ys : List Text)
    → IsSorted (x ∷ xs)
    → IsSorted (y ∷ ys)
    → ((m : Text) → elem m (x ∷ xs) ≡ elem m (y ∷ ys))
    → x ≡ y
same_head x y xs ys s t h =
    let a = h x in
    let b = h y in
    elim (Bool-cases (text_eq x y)) [
      | inl e ↦ (text_eq_iff x y).0 e
      | inr e ↦ elim (Bool-cases (text_eq y x)) [
        | inl f ↦ sym ((text_eq_iff y x).0 f)
        | inr f ↦
            let p = elem-lt x y xs s (ground (arith, b, text_eq_refl y, e)) in
            let q = elem-lt y x ys t (ground (arith, a, text_eq_refl x, f)) in
            absurd (ground (arith, text_lt_trans x y x p q, text_lt_irrefl x))
      ]
    ]

head_not_in : (x : Text) (xs : List Text) → IsSorted (x ∷ xs) → elem x xs ≡ false
head_not_in x xs s = elim (Bool-cases (elem x xs)) [
  | inl e ↦ let f = elem-lt x x xs s e in ground (arith, f, text_lt_irrefl x)
  | inr e ↦ e
]

pub IsSorted-elem :
    (xs ys : List Text) → IsSorted xs → IsSorted ys → ((m : Text) → elem m xs ≡ elem m ys) → xs ≡ ys
IsSorted-elem [] [] s t h = refl
IsSorted-elem [] (y ∷ ys) s t h = let e = h y in ground (arith, e, text_eq_refl y)
IsSorted-elem (x ∷ xs) [] s t h = let e = h x in ground (arith, e, text_eq_refl x)
IsSorted-elem (x ∷ xs) (y ∷ ys) s t h =
    let e = same_head x y xs ys s t h in
    let u : IsSorted (x ∷ ys) = subst (λ (z : Text). IsSorted (z ∷ ys)) (sym e) t in
    let k : (m : Text) → elem m (x ∷ xs) ≡ elem m (x ∷ ys) =
      λ m. h m ∙ ap (λ (z : Text). elem m (z ∷ ys)) (sym e) in
    let rest = IsSorted-elem xs ys (IsSorted-tail x xs s) (IsSorted-tail y ys t) (λ m.
      elim (Bool-cases (text_eq x m)) [
        | inl f ↦
            subst (λ (z : Text). elem z xs ≡ elem z ys) ((text_eq_iff x m).0 f)
              (head_not_in x xs s ∙ sym (head_not_in x ys u))
        | inr f ↦ let g = k m in ground (arith, f, g)
      ]) in
    ap (λ (z : Text). z ∷ xs) e ∙ ap (λ (zs : List Text). y ∷ zs) rest
