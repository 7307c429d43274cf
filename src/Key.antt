-- ===== src/Key.antt =====
-- src/key.rs: the keys, their expiry, and the days of the calendar. The time is a parameter.
pub mod Calendar
pub mod Expiry
use yourfs.Base.{
  ℕ, zero, suc, Bool, true, false, not, List, [], ◌∷◌, Option, none, some, ◌==◌, if◌then◌else◌,
  get_elem?, all, is_empty,
}
use yourfs.Base.Text.{Text, codes, text_eq}
use yourfs.Base.Int.{ℤ, pos, negsuc, ◌+ℤ◌, ◌-ℤ◌, times, quot, rem, le, is_neg}
use yourfs.Cli.Parser.{split_once}
use yourfs.Cli.Number.{is_digit, sign, value, signed}
use yourfs.Db.Keys.{split}

unfoldable pub keys : List Text
keys =
    codes "FADEP8"
    ∷ codes "XTPV63"
    ∷ codes "23AGFQ"
    ∷ codes "CA89CS"
    ∷ codes "CDS87L"
    ∷ codes "CD34VC"
    ∷ codes "2APGFQ"
    ∷ codes "XS420X"
    ∷ codes "1409XT"
    ∷ codes "SD76RD"
    ∷ []

-- `DEFAULT_KEY`, the first of the keys.
unfoldable pub default_key : Text
unfolding keys
default_key = elim (get_elem? keys 0) [ some k ↦ k | none ↦ [] ]

unfoldable pub dates : List Text
dates =
    codes "2029-01-01 00:00:00"
    ∷ codes "2028-01-01 00:00:00"
    ∷ codes "2029-01-01 00:00:00"
    ∷ codes "2030-01-01 00:00:00"
    ∷ codes "2031-01-01 00:00:00"
    ∷ codes "2032-01-01 00:00:00"
    ∷ codes "2033-01-01 00:00:00"
    ∷ codes "2034-01-01 00:00:00"
    ∷ codes "2035-01-01 00:00:00"
    ∷ codes "2099-01-01 00:00:00"
    ∷ []

-- The days from 1970-01-01 on, from the year that starts in March.
unfoldable pub days_of : ℤ → ℤ → ℤ → ℤ
days_of y m d =
    let era = quot (if is_neg y then y -ℤ pos 399 else y) 400 in
    let yoe = y -ℤ times era 400 in
    let mp = rem (m +ℤ pos 9) 12 in
    let doy = (quot (times mp 153 +ℤ pos 2) 5 +ℤ d) -ℤ pos 1 in
    let doe = ((times yoe 365 +ℤ quot yoe 4) -ℤ quot yoe 100) +ℤ doy in
    (times era 146097 +ℤ doe) -ℤ pos 719468

unfoldable pub days_from_civil : ℤ → ℤ → ℤ → ℤ
unfolding days_of
days_from_civil y m d = days_of (if le m (pos 2) then y -ℤ pos 1 else y) m d

-- `str::parse::<i64>` of a whole text.
unfoldable pub parse_whole : Text → Option ℤ
parse_whole s =
    let t = sign s in
    if is_empty t.1 then none else if all is_digit t.1 then signed t.0 (value 0 t.1) else none

-- `it.next()??` over the parts.
unfoldable pub part : List Text → ℕ → Option ℤ
part parts i = elim (get_elem? parts i) [ some p ↦ parse_whole p | none ↦ none ]

three : Option ℤ → Option ℤ → Option ℤ → (ℤ → ℤ → ℤ → Option ℤ) → Option ℤ
three (some a) (some b) (some c) f = f a b c
three _ _ _ f = none

unfoldable pub string_to_time : Text → Option ℤ
unfolding three
string_to_time s = elim (split_once b' ' s) [
  | none ↦ none
  | some r ↦
      let date = split b'-' r.0 in
      let time = split b':' r.1 in
      three (part date 0) (part date 1) (part date 2) (λ year mon day.
        three (part time 0) (part time 1) (part time 2) (λ h mi sec.
          some
            (((times (days_from_civil year mon day) 86400 +ℤ times h 3600) +ℤ times mi 60) +ℤ sec)))
]

-- The position of a key.
unfoldable pub position : Text → List Text → Option ℕ
position key [] = none
position key (k ∷ ks) =
    if text_eq k key
    then some 0
    else (elim (position key ks) [ some i ↦ some (suc i) | none ↦ none ])

unfoldable pub expiry : Option Text → ℤ
expiry none = pos 0
expiry (some date) = elim (string_to_time date) [ some t ↦ t | none ↦ pos 0 ]

unfoldable pub key_is_good : Text → ℤ → Bool
unfolding expiry
key_is_good key now = elim (position key keys) [
  | none ↦ false
  | some i ↦ le now (expiry (get_elem? dates i))
]
