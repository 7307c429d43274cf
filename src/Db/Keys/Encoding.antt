-- ===== src/Db/Keys/Encoding.antt =====
-- src/db.rs, `urlencode`: a password cannot reframe the URL, and is not changed by it.
use yourfs.Base.{
  ℕ, ◌+◌, ◌-◌, ◌*◌, ◌/◌, ◌%◌, ◌<◌, true, false, ◌||◌, List, [], ◌∷◌, ◌++◌, ◌==◌, ltb, if◌then◌else◌,
  All, All-append, ◌≡◌, refl, arith, ap, ◌∙◌, inl, inr, Bool-cases,
}
use yourfs.Base.Text.{Text}
use yourfs.Db.Keys.{utf8, as_bytes, hex_digit, is_unreserved, encode_byte, encode_bytes, urlencode}

-- Percent-decoding, as RFC 3986 has it.
abbrev unhex : ℕ → ℕ
unhex h = if ltb h b'A' then h - b'0' else h - b'A' + 10

pub decode : Text → List ℕ
decode [] = []
decode (c ∷ []) = c ∷ []
decode (c ∷ d ∷ []) = c ∷ d ∷ []
decode (c ∷ h ∷ l ∷ rest) =
    let escaped = (unhex h * 16 + unhex l) ∷ decode rest in
    let plain = c ∷ decode (h ∷ l ∷ rest) in if c == b'%' then escaped else plain

decode_plain : (c : ℕ) (s : Text) → (c == b'%') ≡ false → decode (c ∷ s) ≡ c ∷ decode s
unfolding decode
decode_plain c [] h = refl
decode_plain c (d ∷ []) h = refl
decode_plain c (d ∷ e ∷ s) h = rw h

unhex-hex_digit : (d : ℕ) → d < 16 → unhex (hex_digit d) ≡ d
unfolding hex_digit
unhex-hex_digit d h = ground arith

byte_parts : (b : ℕ) → b / 16 * 16 + b % 16 ≡ b
byte_parts b = omega arith

decode-encode_byte : (b : ℕ) (s : Text) → b < 256 → decode (encode_byte b ++ s) ≡ b ∷ decode s
unfolding encode_byte
decode-encode_byte b s h = elim (Bool-cases (is_unreserved b)) [
  | inl u ↦ rw u (decode_plain b s (ground arith))
  | inr u ↦ rw u (
      unfold decode in
      rw (
        unhex-hex_digit (b / 16) (omega arith),
        unhex-hex_digit (b % 16) (omega arith),
        byte_parts b,
      ))
]

decode-encode_bytes : (bs : List ℕ) → All (λ b. b < 256) bs → decode (encode_bytes bs) ≡ bs
unfolding encode_bytes
decode-encode_bytes [] h = unfold decode in refl
decode-encode_bytes (b ∷ bs) h =
    decode-encode_byte b (encode_bytes bs) h.0 ∙ ap (◌∷◌ b) (decode-encode_bytes bs h.1)

-- A Unicode code point.
abbrev pub IsPoint : ℕ → Type 0
IsPoint c = c < 0x11_0000

utf8-All : (c : ℕ) → IsPoint c → All (λ b. b < 256) (utf8 c)
unfolding utf8
utf8-All c h = ground arith

as_bytes-All : (s : Text) → All IsPoint s → All (λ b. b < 256) (as_bytes s)
unfolding as_bytes
as_bytes-All [] h = tt
as_bytes-All (c ∷ cs) h =
    All-append (λ b. b < 256) (utf8 c) (as_bytes cs) (utf8-All c h.0) (as_bytes-All cs h.1)

-- Unreserved, or the sign of an escape.
abbrev pub IsSafe : ℕ → Type 0
IsSafe c = (is_unreserved c || c == b'%') ≡ true

hex_digit-IsSafe : (d : ℕ) → d < 16 → IsSafe (hex_digit d)
unfolding hex_digit
hex_digit-IsSafe d h = ground arith

encode_byte-All : (b : ℕ) → b < 256 → All IsSafe (encode_byte b)
unfolding encode_byte
encode_byte-All b h = elim (Bool-cases (is_unreserved b)) [
  | inl u ↦ rw u (ground arith, tt)
  | inr u ↦ rw u (
    refl,
    (hex_digit-IsSafe (b / 16) (omega arith), (hex_digit-IsSafe (b % 16) (omega arith), tt)),
  )
]

encode_bytes-All : (bs : List ℕ) → All (λ b. b < 256) bs → All IsSafe (encode_bytes bs)
unfolding encode_bytes
encode_bytes-All [] h = tt
encode_bytes-All (b ∷ bs) h =
    All-append IsSafe (encode_byte b) (encode_bytes bs) (encode_byte-All b h.0)
      (encode_bytes-All bs h.1)

-- A password in the URL is made of unreserved characters and escapes alone, so no character of it
-- can be read as a delimiter, and percent-decoding gives back its bytes.
pub urlencode-IsSafe :
    (s : Text) → All IsPoint s → All IsSafe (urlencode s) × (decode (urlencode s) ≡ as_bytes s)
unfolding urlencode
urlencode-IsSafe s h =
    let b = as_bytes-All s h in
    (encode_bytes-All (as_bytes s) b, decode-encode_bytes (as_bytes s) b)
