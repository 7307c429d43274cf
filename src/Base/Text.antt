-- ===== src/Base/Text.antt =====
-- Rust strings as lists of Unicode scalar values. The code also counts the bytes of their UTF-8
-- form, and slices at a byte offset: `byte_len` and `slice_from` are those operations.
use Prim.Native.Char.{code}
use Prim.Native.String.{String}
use Prim.Native.Nat.{ℕ, zero, suc, ◌+◌, ◌-◌, ◌≤◌, ◌<◌}
use mathlib.Core.Path.{◌≡◌, refl, ◌∙◌}
use mathlib.Core.Logic.{◌↔◌}
use mathlib.Core.Bool.{Bool, true, false, ◌&&◌, ◌||◌}
use mathlib.Core.Option.{Option, none, some}
use mathlib.Core.List.{List, [], ◌∷◌, ◌++◌}
use native.Mathlib.Omega.{arith}
use yourfs.Base.Tests.{ltb, ◌==◌, within, if◌then◌else◌}

abbrev pub Text : Type 0
Text = List ℕ

-- A literal of the source.
abbrev pub codes : String → Text
codes String.[] = []
codes (String.◌∷◌ c s) = code c ∷ codes s

abbrev pub text_eq : Text → Text → Bool
text_eq [] [] = true
text_eq (x ∷ xs) (y ∷ ys) = x == y && text_eq xs ys
text_eq _ _ = false

-- The order of Unicode scalar values, which is the order of the UTF-8 bytes.
abbrev pub text_lt : Text → Text → Bool
text_lt s [] = false
text_lt [] (y ∷ ys) = true
text_lt (x ∷ xs) (y ∷ ys) = ltb x y || (x == y && text_lt xs ys)

pub text_eq_iff : (a b : Text) → (text_eq a b ≡ true) ↔ (a ≡ b)
text_eq_iff (x ∷ a) (y ∷ b) = ground (arith, text_eq_iff a b)
text_eq_iff _ _ = ground arith

pub text_eq_refl : (a : Text) → text_eq a a ≡ true
text_eq_refl a = (text_eq_iff a a).1 refl

-- The bytes of one character in UTF-8.
unfoldable pub utf8_len : ℕ → ℕ
utf8_len c = if ltb c 0x80 then 1 else if ltb c 0x800 then 2 else if ltb c 0x1_0000 then 3 else 4

pub utf8_len_pos : (c : ℕ) → 0 < utf8_len c
unfolding utf8_len
utf8_len_pos c = ground arith

-- `str::len`.
abbrev pub byte_len : Text → ℕ
byte_len [] = 0
byte_len (c ∷ cs) = utf8_len c + byte_len cs

-- `&s[n..]`; `none` is the panic past the end or inside a character.
unfoldable pub slice_from : ℕ → Text → Option Text
slice_from zero s = some s
slice_from (suc n) [] = none
slice_from (suc n) (c ∷ cs) =
    let rest = slice_from (suc n - utf8_len c) cs in if ltb (suc n) (utf8_len c) then none else rest

slice_from_step :
    (n c : ℕ) (cs : Text)
    → utf8_len c ≤ suc n
    → slice_from (suc n) (c ∷ cs) ≡ slice_from (suc n - utf8_len c) cs
unfolding slice_from
slice_from_step n c cs h = ground arith

-- Cutting off the bytes of a prefix leaves what follows it.
pub slice_from-append : (a b : Text) → slice_from (byte_len a) (a ++ b) ≡ some b
unfolding slice_from
slice_from-append [] b = refl
slice_from-append (c ∷ cs) b =
    let n = utf8_len c + byte_len cs - 1 in
    let whole : utf8_len c + byte_len cs ≡ suc n = omega (arith, utf8_len_pos c) in
    let rest : suc n - utf8_len c ≡ byte_len cs = omega (arith, utf8_len_pos c) in
    rw whole (
      slice_from_step n c (cs ++ b) (omega (arith, utf8_len_pos c))
      ∙ rw rest (slice_from-append cs b))

-- `char::is_whitespace`: the characters with the property White_Space.
unfoldable pub is_whitespace : ℕ → Bool
is_whitespace c =
    within 0x9 0xd c
    || c == 0x20
    || c == 0x85
    || c == 0xa0
    || c == 0x1680
    || within 0x2000 0x200a c
    || c == 0x2028
    || c == 0x2029
    || c == 0x202f
    || c == 0x205f
    || c == 0x3000

-- `char::is_ascii_alphanumeric`.
unfoldable pub is_ascii_alphanumeric : ℕ → Bool
is_ascii_alphanumeric c = within b'0' b'9' c || within b'A' b'Z' c || within b'a' b'z' c

-- `str::trim_end_matches` for one character.
unfoldable pub trim_end_matches : ℕ → Text → Text
trim_end_matches k [] = []
trim_end_matches k (c ∷ cs) =
    let rest = trim_end_matches k cs in
    elim rest [ [] ↦ if c == k then [] else c ∷ [] | x ∷ xs ↦ c ∷ x ∷ xs ]

-- The text has no character `k`.
abbrev pub Lacks : ℕ → Text → Type 0
Lacks k [] = Unit
Lacks k (c ∷ cs) = ((c == k) ≡ false) × Lacks k cs
