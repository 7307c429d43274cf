-- ===== src/Db/Keys.antt =====
-- src/db.rs: table names, the spec of a server (`-X`) and the keys of the redis backend.
pub mod Distinct
pub mod Encoding
use yourfs.Base.{
  ℕ, zero, suc, ◌+◌, ◌-◌, ◌*◌, ◌/◌, ◌%◌, ◌<◌, Bool, true, false, not, ◌&&◌, ◌||◌, List, [], ◌∷◌,
  ◌++◌, Option, none, some, ◌==◌, ltb, within, if◌then◌else◌, is_empty, all, get_elem?,
}
use yourfs.Base.Text.{Text, codes, is_ascii_alphanumeric}

-- `check_ident`: true is `Ok`.
unfoldable pub check_ident : Text → Bool
check_ident name =
    if is_empty name || not (all (λ c. is_ascii_alphanumeric c || c == b'_') name)
    then false
    else true

-- What a writer fails with: the name that `check_ident` refuses, or a message.
pub data Failure : Type 0 where
  bad_name : Text → Failure
  reported : Text → Failure

unfoldable pub dir_key : Text → Text → Text
dir_key table parent = table ++ (codes "|d|" ++ parent)

unfoldable pub hash_key : Text → Text → Text
hash_key table parent = table ++ (codes "|h|" ++ parent)

-- The UTF-8 bytes of one character: `str::as_bytes`.
unfoldable pub utf8 : ℕ → List ℕ
utf8 c =
    if ltb c 0x80
    then c ∷ []
    else if ltb c 0x800
    then (0xc0 + c / 64) ∷ (0x80 + c % 64) ∷ []
    else if ltb c 0x1_0000
    then (0xe0 + c / 4096) ∷ (0x80 + c / 64 % 64) ∷ (0x80 + c % 64) ∷ []
    else (0xf0 + c / 262144) ∷ (0x80 + c / 4096 % 64) ∷ (0x80 + c / 64 % 64) ∷ (0x80 + c % 64) ∷ []

unfoldable pub as_bytes : Text → List ℕ
as_bytes [] = []
as_bytes (c ∷ cs) = utf8 c ++ as_bytes cs

-- The digit of `{b:02X}`.
unfoldable pub hex_digit : ℕ → ℕ
hex_digit d = if ltb d 10 then b'0' + d else b'A' + (d - 10)

abbrev pub is_unreserved : ℕ → Bool
is_unreserved b =
    within b'A' b'Z' b
    || within b'a' b'z' b
    || within b'0' b'9' b
    || b == b'-'
    || b == b'_'
    || b == b'.'
    || b == b'~'

-- What the loop pushes for one byte.
unfoldable pub encode_byte : ℕ → Text
encode_byte b =
    if is_unreserved b then b ∷ [] else b'%' ∷ hex_digit (b / 16) ∷ hex_digit (b % 16) ∷ []

unfoldable pub encode_bytes : List ℕ → Text
encode_bytes [] = []
encode_bytes (b ∷ bs) = encode_byte b ++ encode_bytes bs

unfoldable pub urlencode : Text → Text
urlencode s = encode_bytes (as_bytes s)

-- `str::contains` of a text, and `str::split` at one character.
abbrev pub is_prefix : Text → Text → Bool
is_prefix [] s = true
is_prefix (p ∷ ps) [] = false
is_prefix (p ∷ ps) (c ∷ cs) = p == c && is_prefix ps cs

abbrev pub contains : Text → Text → Bool
contains p [] = is_empty p
contains p (c ∷ cs) = is_prefix p (c ∷ cs) || contains p cs

abbrev pub push_front : ℕ → List Text → List Text
push_front c [] = (c ∷ []) ∷ []
push_front c (p ∷ ps) = (c ∷ p) ∷ ps

unfoldable pub split : ℕ → Text → List Text
split k [] = [] ∷ []
split k (c ∷ cs) = let rest = split k cs in if c == k then [] ∷ rest else push_front c rest

abbrev pub nth_or : List Text → ℕ → Text → Text
nth_or parts i default = elim (get_elem? parts i) [ some p ↦ p | none ↦ default ]

unfoldable pub redis_url : Text → Text
redis_url spec =
    if contains (codes "://") spec
    then spec
    else if not (contains (codes ",") spec)
    then codes "redis://" ++ (spec ++ codes "/0")
    else (let p = split b',' spec in
        let host = nth_or p 0 [] in
        let port = nth_or p 1 (codes "6379") in
        let db = nth_or p 2 (codes "0") in
        let pass = nth_or p 3 [] in
        if is_empty pass
        then codes "redis://" ++ (host ++ b':' ∷ (port ++ b'/' ∷ db))
        else codes "redis://:" ++ (urlencode pass ++ b'@' ∷ (host ++ b':' ∷ (port ++ b'/' ∷ db))))
