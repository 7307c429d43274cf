-- ===== src/Db/Unsigned.antt =====
-- `str::parse` of the unsigned types in src/db.rs, with the messages of `ParseIntError`.
use yourfs.Base.{ℕ, ◌*◌, ◌+◌, ◌-◌, ◌^◌, [], ◌∷◌, ltb, if◌then◌else◌, is_empty, ◌==◌}
use yourfs.Base.Text.{Text, codes}
use yourfs.Base.Outcome.{Outcome, ok, err}
use yourfs.Cli.Number.{is_digit}

abbrev invalid_digit : Text
invalid_digit = codes "invalid digit found in string"

-- The digits from the left, for a type of `bits` bits.
unfoldable pub parse_digits : ℕ → ℕ → Text → Outcome Text ℕ
parse_digits bits acc [] = ok acc
parse_digits bits acc (c ∷ cs) =
    let next = acc * 10 + (c - b'0') in
    let rest = parse_digits bits next cs in
    if is_digit c
    then if ltb next (2 ^ bits) then rest else err (codes "number too large to fit in target type")
    else err invalid_digit

unfoldable pub without_plus : Text → Text
without_plus [] = []
without_plus (c ∷ cs) = if c == b'+' then cs else c ∷ cs

unfoldable pub parse_unsigned : ℕ → Text → Outcome Text ℕ
parse_unsigned bits s =
    if is_empty s
    then err (codes "cannot parse integer from empty string")
    else if is_empty (without_plus s)
    then err invalid_digit
    else parse_digits bits 0 (without_plus s)
