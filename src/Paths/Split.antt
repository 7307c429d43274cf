-- ===== src/Paths/Split.antt =====
-- `split_path` takes an absolute path apart at its last `/`, and `join` puts it together.
use yourfs.Base.{
  ℕ, zero, suc, ◌+◌, false, [], ◌∷◌, ◌++◌, Option, none, some, if◌then◌else◌, take, drop, length,
  ◌≡◌, ◌≢◌, refl, arith, ap, sym, ◌∙◌, inl, inr, Bool-cases, Option-cases, ◌⊎◌,
}
use yourfs.Base.Text.{Text, codes, text_eq, text_eq_iff, Lacks}
use yourfs.Paths.{rfind, split_at, split_path}

-- The path of the entry `name` in the directory `parent`.
abbrev pub join : Text → Text → Text
join parent name = if text_eq parent (codes "/") then b'/' ∷ name else parent ++ b'/' ∷ name

pub rfind-Lacks : (k : ℕ) (s : Text) → Lacks k s → rfind k s ≡ none
unfolding rfind
rfind-Lacks k [] h = refl
rfind-Lacks k (c ∷ cs) h = rw (rfind-Lacks k cs h.1, h.0)

rfind-append : (k : ℕ) (p n : Text) → Lacks k n → rfind k (p ++ k ∷ n) ≡ some (length p)
unfolding rfind
rfind-append k [] n h = rw (rfind-Lacks k n h) (ground arith)
rfind-append k (c ∷ p) n h = rw (rfind-append k p n h)

take-length : (p q : Text) → take (length p) (p ++ q) ≡ p
take-length [] q = refl
take-length (c ∷ p) q = ap (◌∷◌ c) (take-length p q)

drop-length : (p q : Text) → drop (length p) (p ++ q) ≡ q
drop-length [] q = refl
drop-length (c ∷ p) q = drop-length p q

drop_past : (k : ℕ) (p n : Text) → drop (suc (length p)) (p ++ k ∷ n) ≡ n
drop_past k [] n = refl
drop_past k (c ∷ p) n = drop_past k p n

not_root : (p n : Text) → p ≢ [] → text_eq (p ++ b'/' ∷ n) (codes "/") ≡ false
not_root [] n h = absurd (h refl)
not_root (c ∷ []) n h = ground arith
not_root (c ∷ d ∷ p) n h = ground arith

split_at-append : (p n : Text) → p ≢ [] → split_at (p ++ b'/' ∷ n) (some (length p)) ≡ (p, n)
unfolding split_at
split_at-append [] n h = absurd (h refl)
split_at-append (c ∷ p) n h =
    let past : suc (length p) + 1 ≡ suc (suc (length p)) = omega arith in
    rw (past, take-length p (b'/' ∷ n), drop_past b'/' p n)

pub split_path-append : (p n : Text) → p ≢ [] → Lacks b'/' n → split_path (p ++ b'/' ∷ n) ≡ (p, n)
unfolding split_path
split_path-append p n h l = rw (not_root p n h, rfind-append b'/' p n l) (split_at-append p n h)

pub split_path_top : (n : Text) → n ≢ [] → Lacks b'/' n → split_path (b'/' ∷ n) ≡ (codes "/", n)
unfolding split_path split_at
split_path_top [] h l = absurd (h refl)
split_path_top (c ∷ n) h l = rw (rfind-append b'/' [] (c ∷ n) l)

-- A path made of a parent and a plain, nonempty name is split into the two again.
split_path-join :
    (parent name : Text)
    → parent ≢ []
    → name ≢ []
    → Lacks b'/' name
    → split_path (join parent name) ≡ (parent, name)
split_path-join p n hp hn l = elim (Bool-cases (text_eq p (codes "/"))) [
  | inl root ↦
      rw root (
        split_path_top n hn l
        ∙ ap (λ (q : Text). (q, n)) (sym ((text_eq_iff p (codes "/")).0 root)))
  | inr other ↦ rw other (split_path-append p n hp l)
]

rfind-none : (k : ℕ) (s : Text) → rfind k s ≡ none → Lacks k s
unfolding rfind
rfind-none k [] h = tt
rfind-none k (c ∷ cs) h = ground (arith, rfind-none k cs)

rfind-some_cons :
    (k c : ℕ) (cs : Text) (i : ℕ)
    → rfind k (c ∷ cs) ≡ some i
    → (rfind k cs ≡ none) ⊎ ((j : ℕ) × (rfind k cs ≡ some j))
    → ((j : ℕ)
        → rfind k cs ≡ some j
        → (cs ≡ take j cs ++ k ∷ drop (suc j) cs) × Lacks k (drop (suc j) cs))
    → (c ∷ cs ≡ take i (c ∷ cs) ++ k ∷ drop (suc i) (c ∷ cs)) × Lacks k (drop (suc i) (c ∷ cs))
unfolding rfind
rfind-some_cons k c cs zero h (inl e) ih = ground (arith, rfind-none k cs e)
rfind-some_cons k c cs (suc i) h (inl e) ih = ground arith
rfind-some_cons k c cs zero h (inr (j, e)) ih = ground arith
rfind-some_cons k c cs (suc i) h (inr (j, e)) ih = ground (arith, ih i)

rfind-some :
    (k : ℕ) (s : Text) (i : ℕ)
    → rfind k s ≡ some i
    → (s ≡ take i s ++ k ∷ drop (suc i) s) × Lacks k (drop (suc i) s)
rfind-some k [] i h = unfold rfind in cc
rfind-some k (c ∷ cs) i h = rfind-some_cons k c cs i h (Option-cases (rfind k cs)) (rfind-some k cs)

-- The pieces of `split_at` for the last `/` of an absolute path.
Rejoins : Text → Text × Text → Type 0
Rejoins path (p, n) = (join p n ≡ path) × Lacks b'/' n

split_at-Rejoins :
    (c : ℕ) (rest : Text) (at : Option ℕ)
    → c ≢ b'/'
    → rfind b'/' (b'/' ∷ c ∷ rest) ≡ at
    → Rejoins (b'/' ∷ c ∷ rest) (split_at (b'/' ∷ c ∷ rest) at)
unfolding Rejoins split_at
split_at-Rejoins c rest none h e = let l = rfind-none b'/' (b'/' ∷ c ∷ rest) e in ground arith
split_at-Rejoins c rest (some zero) h e = (refl, (rfind-some b'/' (b'/' ∷ c ∷ rest) 0 e).1)
split_at-Rejoins c rest (some (suc zero)) h e =
    let d = (rfind-some b'/' (b'/' ∷ c ∷ rest) 1 e).0 in ground arith
split_at-Rejoins c rest (some (suc (suc i))) h e =
    let past : suc (suc i) + 1 ≡ suc (suc (suc i)) = omega arith in
    let d = rfind-some b'/' (b'/' ∷ c ∷ rest) (suc (suc i)) e in
    rw past (ground (arith, sym d.0), d.1)

-- What `split_path` gives for an absolute path (with one leading `/`) names that path, and the
-- name has no `/`.
join-split_path :
    (c : ℕ) (rest : Text)
    → c ≢ b'/'
    → (join (split_path (b'/' ∷ c ∷ rest)).0 (split_path (b'/' ∷ c ∷ rest)).1 ≡ b'/' ∷ c ∷ rest)
      × Lacks b'/' (split_path (b'/' ∷ c ∷ rest)).1
unfolding split_path Rejoins
join-split_path c rest h = split_at-Rejoins c rest (rfind b'/' (b'/' ∷ c ∷ rest)) h refl
