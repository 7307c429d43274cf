-- ===== src/Paths.antt =====
-- src/paths.rs: the path helpers.
pub mod Split
pub mod FromNul
use yourfs.Base.{
  ℕ, zero, suc, ◌+◌, Bool, true, false, not, List, [], ◌∷◌, ◌++◌, Option, none, some, ◌==◌,
  if◌then◌else◌, take, drop, ◌≡◌, refl, arith, ◌⊎◌, inl, inr,
}
use yourfs.Base.Text.{Text, codes, text_eq, Lacks}

-- `str::rfind` of one character. The position counts characters; the source's counts bytes, and
-- both cut the text in front of the same `/`.
unfoldable pub rfind : ℕ → Text → Option ℕ
rfind k [] = none
rfind k (c ∷ cs) = elim (rfind k cs) [
  | some i ↦ some (suc i)
  | none ↦ if c == k then some 0 else none
]

split_at : Text → Option ℕ → Text × Text
split_at path (some zero) = (codes "/", drop 1 path)
split_at path (some (suc i)) = (take (suc i) path, drop (suc i + 1) path)
split_at path none = ([], path)

unfoldable pub split_path : Text → Text × Text
unfolding split_at
split_path path = if text_eq path (codes "/") then ([], []) else split_at path (rfind b'/' path)

-- `str::replace` of NUL by nothing.
unfoldable pub strip_nul : Text → Text
strip_nul [] = []
strip_nul (c ∷ cs) = let rest = strip_nul cs in if c == 0 then rest else c ∷ rest

-- `CString::new`: it refuses an interior NUL.
unfoldable pub cstring_new : Text → Option Text
cstring_new [] = some []
cstring_new (c ∷ cs) =
    let rest = cstring_new cs in
    if c == 0 then none else (elim rest [ some t ↦ some (c ∷ t) | none ↦ none ])

-- The text in front of the terminator; `none` is the panic of `expect`.
unfoldable pub to_cstring : Text → Option Text
to_cstring s = elim (cstring_new s) [ some c ↦ some c | none ↦ cstring_new (strip_nul s) ]

cstring_new-Lacks : (s : Text) → Lacks 0 s → cstring_new s ≡ some s
unfolding cstring_new
cstring_new-Lacks [] h = refl
cstring_new-Lacks (c ∷ cs) h = ground (arith, cstring_new-Lacks cs h.1)

strip_nul-Lacks : (s : Text) → Lacks 0 (strip_nul s)
unfolding strip_nul
strip_nul-Lacks [] = tt
strip_nul-Lacks (c ∷ cs) = ground (arith, strip_nul-Lacks cs)

cstring_new_cases : (s : Text) → (cstring_new s ≡ none) ⊎ (cstring_new s ≡ some (strip_nul s))
unfolding cstring_new strip_nul
cstring_new_cases [] = inr refl
cstring_new_cases (c ∷ cs) = ground (arith, cstring_new_cases cs)

-- `to_cstring` never panics, and what it hands to C is the text less its NUL characters.
to_cstring-strip_nul : (s : Text) → to_cstring s ≡ some (strip_nul s)
unfolding to_cstring
to_cstring-strip_nul s =
    ground (arith, cstring_new-Lacks (strip_nul s) (strip_nul-Lacks s), cstring_new_cases s)
