-- ===== src/Cli/Float.antt =====
-- src/cli.rs, `parse_f64`: the prefix of a text that is read as a number. `read` is `str::parse::<f64>`.
use yourfs.Base.{
  ◌&&◌, ◌||◌, not, [], ◌∷◌, ◌++◌, Option, none, some, ◌==◌, if◌then◌else◌, is_empty, drop, length,
}
use yourfs.Base.Text.{Text}
use yourfs.Cli.Number.{trim_start, digits}

-- One sign, if there is one.
unfoldable pub sign_of : Text → Text
sign_of [] = []
sign_of (c ∷ cs) = if c == b'+' || c == b'-' then c ∷ [] else []

abbrev past : Text → Text → Text
past part s = drop (length part) s

-- A dot and its digits.
unfoldable pub fraction_of : Text → Text
fraction_of [] = []
fraction_of (c ∷ cs) = if c == b'.' then c ∷ digits cs else []

-- An exponent, if it has digits.
unfoldable pub exponent_of : Text → Text
exponent_of [] = []
exponent_of (c ∷ cs) =
    let s = sign_of cs in
    let ds = digits (past s cs) in
    if (c == b'e' || c == b'E') && not (is_empty ds) then c ∷ (s ++ ds) else []

unfoldable pub float_prefix : Text → Option Text
float_prefix s =
    let t = trim_start s in
    let sign = sign_of t in
    let after_sign = past sign t in
    let int = digits after_sign in
    let after_int = past int after_sign in
    let frac = fraction_of after_int in
    if is_empty int && is_empty frac
    then none
    else some (sign ++ (int ++ (frac ++ exponent_of (past frac after_int))))

unfoldable pub parse_f64 : {F : Type 0} → (Text → Option F) → F → Text → F
parse_f64 read zero s = elim (float_prefix s) [
  | none ↦ zero
  | some p ↦ elim (read p) [ some x ↦ x | none ↦ zero ]
]
