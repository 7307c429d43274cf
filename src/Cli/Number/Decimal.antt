-- ===== src/Cli/Number/Decimal.antt =====
-- src/cli.rs, `parse_i64`: it reads back decimal notation.
use yourfs.Base.{
  ℕ, zero, suc, ◌+◌, ◌-◌, ◌*◌, ◌/◌, ◌%◌, ◌^◌, ◌<◌, Bool, true, false, [], ◌∷◌, ◌++◌, some, ltb,
  if◌then◌else◌, ◌≡◌, ◌≢◌, refl, arith, All, All-append, ◌∙◌, inl, inr, Bool-cases,
}
use yourfs.Base.Text.{Text, is_whitespace}
use yourfs.Base.Int.{ℤ, pos, negsuc}
use yourfs.Cli.Number.{trim_start, is_digit, digits, value, signed, magnitude, sign, parse_i64}

-- Decimal notation: what a user writes for a number.
unfoldable pub decimal_on : ℕ → ℕ → Text
decimal_on zero n = []
decimal_on (suc f) n =
    let rest = decimal_on f (n / 10) in
    if ltb n 10 then (b'0' + n) ∷ [] else rest ++ (b'0' + n % 10) ∷ []

-- One digit more than the number is enough.
unfoldable pub decimal : ℕ → Text
decimal n = decimal_on (suc n) n

unfoldable pub show_i64 : ℤ → Text
show_i64 (pos n) = decimal n
show_i64 (negsuc n) = b'-' ∷ decimal (suc n)

-- The numbers that `i64` holds.
abbrev pub IsI64 : ℤ → Type 0
IsI64 (pos n) = n < 2 ^ 63
IsI64 (negsuc n) = n < 2 ^ 63

-- What may follow a number: the end, or a character that is no digit.
abbrev pub Ends : Text → Type 0
Ends [] = Unit
Ends (c ∷ cs) = is_digit c ≡ false

abbrev AllDigits : Text → Type 0
AllDigits s = All (λ c. is_digit c ≡ true) s

value-append :
    (acc : ℕ) (xs : Text) (d : ℕ) → value acc (xs ++ d ∷ []) ≡ value acc xs * 10 + (d - b'0')
unfolding value
value-append acc [] d = refl
value-append acc (c ∷ cs) d = value-append (acc * 10 + (c - b'0')) cs d

value-decimal_on : (f n : ℕ) → n < f → value 0 (decimal_on f n) ≡ n
unfolding value decimal_on
value-decimal_on zero n h = ground arith
value-decimal_on (suc f) n h = elim (Bool-cases (ltb n 10)) [
  | inl e ↦ rw e (omega arith)
  | inr e ↦
      let q : n / 10 < f = ground arith in
      rw e (
        value-append 0 (decimal_on f (n / 10)) (b'0' + n % 10)
        ∙ rw (value-decimal_on f (n / 10) q) (omega arith))
]

decimal_on-AllDigits : (f n : ℕ) → AllDigits (decimal_on f n)
unfolding decimal_on
decimal_on-AllDigits zero n = tt
decimal_on-AllDigits (suc f) n = elim (Bool-cases (ltb n 10)) [
  | inl e ↦ rw e (ground arith, tt)
  | inr e ↦ rw e (
      All-append (λ c. is_digit c ≡ true) (decimal_on f (n / 10)) ((b'0' + n % 10) ∷ [])
        (decimal_on-AllDigits f (n / 10)) (ground arith, tt))
]

snoc-nonempty : (s : Text) (c : ℕ) → s ++ c ∷ [] ≢ []
snoc-nonempty [] c e = cc
snoc-nonempty (x ∷ s) c e = cc

decimal-nonempty : (n : ℕ) → decimal n ≢ []
unfolding decimal decimal_on
decimal-nonempty n = ground (arith, snoc-nonempty (decimal_on n (n / 10)) (b'0' + n % 10))

digits-append :
    (s rest : Text) → All (λ c. is_digit c ≡ true) s → Ends rest → digits (s ++ rest) ≡ s
unfolding digits
digits-append [] [] h e = refl
digits-append [] (c ∷ cs) h e = ground arith
digits-append (c ∷ cs) rest h e = rw (h.0, digits-append cs rest h.1 e) refl

trim_start-append :
    (blank s : Text)
    → All (λ c. is_whitespace c ≡ true) blank
    → trim_start (blank ++ s) ≡ trim_start s
unfolding trim_start
trim_start-append [] s h = refl
trim_start-append (c ∷ cs) s h = rw (h.0, trim_start-append cs s h.1) refl

value-decimal : (n : ℕ) → value 0 (decimal n) ≡ n
unfolding decimal
value-decimal n = value-decimal_on (suc n) n (omega arith)

magnitude-value :
    (minus : Bool) (s : Text) (z : ℤ)
    → s ≢ []
    → signed minus (value 0 s) ≡ some z
    → magnitude minus s ≡ z
unfolding magnitude
magnitude-value minus [] z h e = absurd (h refl)
magnitude-value minus (c ∷ cs) z h e = rw (e, magnitude) refl

-- A digit in front is no blank and no sign.
sign-digits :
    (s rest : Text) → s ≢ [] → AllDigits s → sign (trim_start (s ++ rest)) ≡ (false, s ++ rest)
unfolding trim_start sign is_whitespace
sign-digits [] rest h a = absurd (h refl)
sign-digits (c ∷ cs) rest h (d, a) = ground arith

sign-minus : (s : Text) → sign (trim_start (b'-' ∷ s)) ≡ (true, s)
unfolding trim_start sign is_whitespace
sign-minus s = refl

-- A number of `i64` in decimal notation is read as that number, with blanks before it and anything
-- but a digit behind it.
pub parse_i64-show_i64 :
    (blank : Text) (z : ℤ) (rest : Text)
    → All (λ c. is_whitespace c ≡ true) blank
    → IsI64 z
    → Ends rest
    → parse_i64 (blank ++ (show_i64 z ++ rest)) ≡ z
unfolding parse_i64 show_i64 signed decimal
parse_i64-show_i64 blank (pos n) rest b h e =
    let a = decimal_on-AllDigits (suc n) n in
    rw
      (
        trim_start-append blank (decimal n ++ rest) b,
        sign-digits (decimal n) rest (decimal-nonempty n) a,
        digits-append (decimal n) rest a e,
      )
      (magnitude-value false (decimal n) (pos n) (decimal-nonempty n)
        (rw (value-decimal n) (ground arith)))
parse_i64-show_i64 blank (negsuc n) rest b h e =
    let a = decimal_on-AllDigits (suc (suc n)) (suc n) in
    rw
      (
        trim_start-append blank (b'-' ∷ decimal (suc n) ++ rest) b,
        sign-minus (decimal (suc n) ++ rest),
        digits-append (decimal (suc n)) rest a e,
      )
      (magnitude-value true (decimal (suc n)) (negsuc n) (decimal-nonempty (suc n))
        (rw (value-decimal (suc n)) (ground arith)))
