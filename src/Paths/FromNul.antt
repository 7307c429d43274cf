-- ===== src/Paths/FromNul.antt =====
-- src/paths.rs, `from_nul`: a path that libfuse hands in. The bytes are those from the pointer on, `none`
-- is a null pointer. `to_str` is `CStr::to_str`, `lossy` is `CStr::to_string_lossy`.
use yourfs.Base.{ℕ, false, List, [], ◌∷◌, ◌++◌, Option, none, some, ◌==◌, ◌≡◌, refl, ap, ◌∙◌, arith}
use yourfs.Base.Text.{Text, Lacks}
use yourfs.Db.Keys.{utf8, as_bytes}
use yourfs.Nfs.Readlink.{until_nul}
use yourfs.Paths.{strip_nul, to_cstring, to_cstring-strip_nul, strip_nul-Lacks}

unfoldable pub from_nul : (List ℕ → Option Text) → (List ℕ → Text) → Option (List ℕ) → Text
from_nul to_str lossy none = []
from_nul to_str lossy (some bytes) = elim (to_str (until_nul bytes)) [
  | some s ↦ s
  | none ↦ lossy (until_nul bytes)
]

utf8-Lacks : (c : ℕ) → (c == 0) ≡ false → Lacks 0 (utf8 c)
unfolding utf8
utf8-Lacks c h = ground arith

Lacks-append : (k : ℕ) (a b : Text) → Lacks k a → Lacks k b → Lacks k (a ++ b)
Lacks-append k [] b h g = g
Lacks-append k (c ∷ a) b h g = (h.0, Lacks-append k a b h.1 g)

as_bytes-Lacks : (s : Text) → Lacks 0 s → Lacks 0 (as_bytes s)
unfolding as_bytes
as_bytes-Lacks [] h = tt
as_bytes-Lacks (c ∷ s) h =
    Lacks-append 0 (utf8 c) (as_bytes s) (utf8-Lacks c h.0) (as_bytes-Lacks s h.1)

until_nul-Lacks : (a rest : List ℕ) → Lacks 0 a → until_nul (a ++ 0 ∷ rest) ≡ a
unfolding until_nul
until_nul-Lacks [] rest h = refl
until_nul-Lacks (c ∷ a) rest h = rw (h.0, until_nul-Lacks a rest h.1) refl

decoded :
    (to_str : List ℕ → Option Text) (lossy : List ℕ → Text) (bytes front : List ℕ) (s : Text)
    → until_nul bytes ≡ front
    → to_str front ≡ some s
    → from_nul to_str lossy (some bytes) ≡ s
unfolding from_nul
decoded to_str lossy bytes front s e h =
    let d : to_str (until_nul bytes) ≡ some s = ap to_str e ∙ h in rw (d, from_nul) refl

-- What is handed to C is read back: the bytes of the C string that `to_cstring` makes of a text, with
-- their terminator and whatever follows it, are read by `from_nul` as the text less its NUL characters,
-- where `to_str` decodes that text.
from_nul-to_cstring :
    (to_str : List ℕ → Option Text) (lossy : List ℕ → Text) (s : Text) (rest : List ℕ)
    → to_str (as_bytes (strip_nul s)) ≡ some (strip_nul s)
    → (c : Text) × (to_cstring s ≡ some c)
      × (from_nul to_str lossy (some (as_bytes c ++ 0 ∷ rest)) ≡ strip_nul s)
from_nul-to_cstring to_str lossy s rest h =
    let c = strip_nul s in
    (
      c,
      to_cstring-strip_nul s,
      decoded to_str lossy (as_bytes c ++ 0 ∷ rest) (as_bytes c) c
          (until_nul-Lacks (as_bytes c) rest (as_bytes-Lacks c (strip_nul-Lacks s))) h,
    )
