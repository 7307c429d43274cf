-- ===== src/Nfs/Contexts/Extra.antt =====
-- src/nfscli.rs: pointers that a library has handed out beside those of before.
use yourfs.Base.{
  ℕ, Bool, true, false, not, ◌&&◌, ◌||◌, List, [], ◌∷◌, ◌++◌, ◌==◌, any, ◌≡◌, refl, sym, ◌∙◌, arith,
  Bool-cases, inl, inr,
}
use mathlib.Core.Path.{subst}

abbrev pub has : ℕ → List ℕ → Bool
has d cs = any (λ c. c == d) cs

or_assoc : (a b c : Bool) → (a || (b || c)) ≡ ((a || b) || c)
or_assoc true b c = refl
or_assoc false b c = refl

or_false : (a b : Bool) → (not a && b) ≡ (not (a || false) && b)
or_false true b = refl
or_false false b = refl

-- `g` has the pointers of `f` and those of the list, which are new.
abbrev pub Extra : List ℕ → (ℕ → Bool) → (ℕ → Bool) → Type 0
Extra cs f g = ((d : ℕ) → g d ≡ (has d cs || f d)) × ((d : ℕ) → has d cs ≡ true → f d ≡ false)

pub Extra-same :
    (cs : List ℕ) (f g h : ℕ → Bool) → Extra cs f g → ((d : ℕ) → h d ≡ g d) → Extra cs f h
Extra-same cs f g h (e, n) same = ((λ d. same d ∙ e d), n)

has-push : (d c : ℕ) (cs : List ℕ) → has d (cs ++ c ∷ []) ≡ ((c == d) || has d cs)
has-push d c [] = ground arith
has-push d c (b ∷ cs) = ground (arith, has-push d c cs)

pub Extra-push :
    (cs : List ℕ) (c : ℕ) (f g h : ℕ → Bool)
    → Extra cs f g
    → g c ≡ false
    → ((d : ℕ) → h d ≡ ((c == d) || g d))
    → Extra (cs ++ c ∷ []) f h
Extra-push cs c f g h (e, n) new adds = (
  (λ d. adds d ∙ rw (has-push d c cs, e d) (or_assoc (c == d) (has d cs) (f d))),
  λ d k. elim (Bool-cases (has d cs)) [
    | inl i ↦ n d i
    | inr i ↦
        let hit : (c == d) ≡ true = ground (arith, has-push d c cs, k, i) in
        let same : c ≡ d = ground (arith, hit) in
        let no_c : (has c cs || f c) ≡ false = sym (e c) ∙ new in
        subst (λ (x : ℕ). f x ≡ false) same (ground (arith, no_c))
  ],
)

pub Extra-first :
    (c : ℕ) (f g : ℕ → Bool)
    → f c ≡ false
    → ((d : ℕ) → g d ≡ ((c == d) || f d))
    → Extra (c ∷ []) f g
Extra-first c f g new adds = Extra-push [] c f f g ((λ d. refl), (λ d k. cc)) new adds

-- What is destroyed was new, and the rest is as it was.
pub Extra-dropped :
    (cs : List ℕ) (f g h : ℕ → Bool)
    → Extra cs f g
    → ((d : ℕ) → h d ≡ (not (has d cs) && g d))
    → (d : ℕ) → h d ≡ f d
Extra-dropped cs f g h (e, n) drops d = elim (Bool-cases (has d cs)) [
  | inl i ↦ drops d ∙ rw (i) (sym (n d i))
  | inr i ↦ drops d ∙ rw (i, e d) (rw i refl)
]

pub Extra-dropped_first :
    (c : ℕ) (f g h : ℕ → Bool)
    → Extra (c ∷ []) f g
    → ((d : ℕ) → h d ≡ (not (c == d) && g d))
    → (d : ℕ) → h d ≡ f d
Extra-dropped_first c f g h x drops d =
    Extra-dropped (c ∷ []) f g h x (λ k. drops k ∙ or_false (c == k) (g k)) d
