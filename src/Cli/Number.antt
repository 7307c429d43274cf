-- ===== src/Cli/Number.antt =====
-- src/cli.rs: `parse_i64`, the numeric prefix of an argument.
pub mod Decimal
use yourfs.Base.{
  ℕ, zero, suc, ◌+◌, ◌-◌, ◌*◌, ◌/◌, ◌%◌, ◌^◌, ◌≤◌, ◌<◌, Bool, true, false, ◌&&◌, not, List, [], ◌∷◌,
  ◌++◌, Option, none, some, ◌==◌, ltb, leb, within, if◌then◌else◌, ◌≡◌, refl, arith, All, ◌∙◌, ap,
  ◌⊎◌,
}
use yourfs.Base.Text.{Text, is_whitespace}
use yourfs.Base.Int.{ℤ, pos, negsuc, neg}

-- `str::trim_start`.
unfoldable pub trim_start : Text → Text
trim_start [] = []
trim_start (c ∷ cs) = let rest = trim_start cs in if is_whitespace c then rest else c ∷ cs

abbrev pub is_digit : ℕ → Bool
is_digit c = within b'0' b'9' c

-- The digits in front.
unfoldable pub digits : Text → Text
digits [] = []
digits (c ∷ cs) = let rest = digits cs in if is_digit c then c ∷ rest else []

-- `str::parse::<i64>` of a sign and digits, the value accumulated; the overflow is an error there.
unfoldable pub value : ℕ → Text → ℕ
value acc [] = acc
value acc (c ∷ cs) = value (acc * 10 + (c - b'0')) cs

unfoldable pub signed : Bool → ℕ → Option ℤ
signed false n = if ltb n (2 ^ 63) then some (pos n) else none
signed true n = if leb n (2 ^ 63) then some (neg n) else none

-- The digits behind the sign: none is 0, and so is a number that `i64` does not hold.
unfoldable pub magnitude : Bool → Text → ℤ
magnitude minus [] = pos 0
magnitude minus (d ∷ ds) = elim (signed minus (value 0 (d ∷ ds))) [ some z ↦ z | none ↦ pos 0 ]

unfoldable pub sign : Text → Bool × Text
sign [] = (false, [])
sign (c ∷ cs) = if c == b'+' then (false, cs) else if c == b'-' then (true, cs) else (false, c ∷ cs)

unfoldable pub parse_i64 : Text → ℤ
parse_i64 s = let t = sign (trim_start s) in magnitude t.0 (digits t.1)
