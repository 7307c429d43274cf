-- ===== src/Scan/Row.antt =====
-- src/scan.rs, `pad_field` and `parse_row`: one row of the whitelist text file, written and read.
pub mod RoundTrip
use yourfs.Base.{
  ℕ, zero, suc, ◌-◌, Bool, true, false, ◌&&◌, ◌||◌, List, [], ◌∷◌, ◌++◌, Option, none, some, ◌==◌,
  if◌then◌else◌, length, replicate, any,
}
use yourfs.Base.Text.{Text, codes, is_whitespace}

-- The characters for which `pad_field` quotes.
unfoldable pub is_special : ℕ → Bool
is_special c = is_whitespace c || c == b'"' || c == b'\\'

unfoldable pub escape : Text → Text
escape [] = []
escape (c ∷ cs) = let rest = c ∷ escape cs in if c == b'"' || c == b'\\' then b'\\' ∷ rest else rest

abbrev pub field_width : ℕ
field_width = 25

-- `format!("{:<w$}")`: the width counts characters.
unfoldable pub pad_field : Text → Text
unfolding is_special
pad_field s =
    if any is_special s
    then b'"' ∷ (escape s ++ b'"' ∷ [])
    else s ++ replicate (field_width - length s) b' '

-- The `writeln!` of `walk`, less the newline.
unfoldable pub write_row : Text → Text → Text → Text
write_row parent name path =
    pad_field parent ++ (codes "  " ++ (pad_field name ++ (codes "  " ++ pad_field path)))

-- The local variables of `parse_row`.
pub record Columns : Type 0 where
  pub cols : List Text
  pub cur : Text
  pub in_quotes : Bool
  pub has_field : Bool

abbrev pub push : Columns → ℕ → Columns
push s c = record s { cur = s.cur ++ c ∷ [] }

-- `cols.push(std::mem::take(&mut cur)); has_field = false`
abbrev pub flush : Columns → Columns
flush s =
    if s.has_field then record s { cols = s.cols ++ s.cur ∷ []; cur = []; has_field = false } else s

-- One character that starts no escape.
unfoldable pub step : Columns → ℕ → Columns
step s c =
    if s.in_quotes
    then (if c == b'\\'
        then push s b'\\'
        else if c == b'"'
        then record s { in_quotes = false }
        else push s c)
    else if c == b'"'
    then record s { in_quotes = true; has_field = true }
    else if is_whitespace c
    then flush s
    else record s { cur = s.cur ++ c ∷ []; has_field = true }

-- What a backslash inside quotes escapes.
unfoldable pub is_escapable : ℕ → Bool
is_escapable n = n == b'"' || n == b'\\' || is_whitespace n

-- The loop over the characters, with its `peek`.
unfoldable pub scan_row : Columns → Text → Columns
scan_row s [] = s
scan_row s (c ∷ []) = step s c
scan_row s (c ∷ n ∷ rest) =
    let escaped = scan_row (push s n) rest in
    let plain = scan_row (step s c) (n ∷ rest) in
    if s.in_quotes && (c == b'\\' && is_escapable n) then escaped else plain

abbrev pub start : Columns
start = record { cols = []; cur = []; in_quotes = false; has_field = false }

three : List Text → Option (Text × Text × Text)
three (a ∷ b ∷ c ∷ []) = some (a, b, c)
three _ = none

-- The columns at the end of the line.
unfoldable pub columns : Text → List Text
columns line = (flush (scan_row start line)).cols

unfoldable pub parse_row : Text → Option (Text × Text × Text)
unfolding three
parse_row line = three (columns line)
