-- ===== src/Key/Calendar.antt =====
-- src/key.rs, `days_from_civil`: it counts the days of the Gregorian calendar.
use yourfs.Base.{
  ℕ, ◌+◌, ◌-◌, ◌*◌, ◌/◌, ◌%◌, ◌≤◌, ◌<◌, Bool, true, ◌&&◌, ◌||◌, not, ◌==◌, leb, ltb, if◌then◌else◌,
  ◌≡◌, ◌≢◌, refl, arith, inl, inr, Bool-cases, ap, ◌∙◌, sym,
}
use yourfs.Base.Int.{ℤ, pos, ◌+ℤ◌, ◌-ℤ◌, times, quot, rem, le, sub_nat}
use yourfs.Key.{days_from_civil, days_of}

-- The calendar.
abbrev pub is_leap : ℕ → Bool
is_leap y = (y % 4 == 0) && (not (y % 100 == 0) || (y % 400 == 0))

abbrev pub month_days : ℕ → ℕ → ℕ
month_days y m =
    if m == 2
    then if is_leap y then 29 else 28
    else if (m == 4) || ((m == 6) || ((m == 9) || (m == 11)))
    then 30
    else 31

-- The day after a date.
abbrev pub next_day : ℕ → ℕ → ℕ → ℕ × ℕ × ℕ
next_day y m d =
    if ltb d (month_days y m)
    then (y, m, d + 1)
    else if ltb m 12
    then (y, m + 1, 1)
    else (y + 1, 1, 1)

-- The days of the years in front, and of the months in front, from the first of March of the year 0
-- on.
year_part : ℕ → ℕ
year_part y = (y / 400) * 146097 + ((y % 400) * 365 + (y % 400) / 4 - (y % 400) / 100)

month_part : ℕ → ℕ
month_part m = (((m + 9) % 12) * 153 + 2) / 5

count_of : ℕ → ℕ → ℕ → ℕ
count_of y m d = year_part y + (month_part m + d - 1)

march_year : ℕ → ℕ → ℕ
march_year y m = if leb m 2 then y - 1 else y

minus : (a b : ℕ) → b ≤ a → pos a -ℤ pos b ≡ pos (a - b)
unfolding ◌-ℤ◌ ◌+ℤ◌ sub_nat
minus a b h = ground arith

days_of-count :
    (y m d : ℕ) → 0 < d → days_of (pos y) (pos m) (pos d) ≡ pos (count_of y m d) -ℤ pos 719468
unfolding days_of times quot rem ◌+ℤ◌ count_of year_part month_part
days_of-count y m d e =
    let year : pos y -ℤ pos ((y / 400) * 400) ≡ pos (y % 400) =
      minus y ((y / 400) * 400) (omega arith) ∙ ap pos (omega arith) in
    let leap = minus ((y % 400) * 365 + (y % 400) / 4) ((y % 400) / 100) (omega arith) in
    let day = minus ((((m + 9) % 12) * 153 + 2) / 5 + d) 1 (omega arith) in
    rw (year, leap, day) (ap (λ (n : ℕ). pos n -ℤ pos 719468) (omega arith))

days-count :
    (y m d : ℕ)
    → 0 < y
    → 0 < d
    → days_from_civil (pos y) (pos m) (pos d) ≡ pos (count_of (march_year y m) m d) -ℤ pos 719468
unfolding days_from_civil le march_year
days-count y m d h e = elim (Bool-cases (leb m 2)) [
  | inl l ↦ rw (l, minus y 1 (omega arith)) (days_of-count (y - 1) m d e)
  | inr l ↦ rw l (days_of-count y m d e)
]

-- One year more, from March to March.
year-next : (k : ℕ) → year_part (k + 1) ≡ year_part k + (if is_leap (k + 1) then 366 else 365)
unfolding year_part
year-next k = ground arith

month-next :
    (y m : ℕ)
    → 0 < m
    → m < 12
    → m ≢ 2
    → (month_part (m + 1) ≡ month_part m + month_days y m) × (march_year y (m + 1) ≡ march_year y m)
unfolding month_part march_year
month-next y m h l n = (ground arith, ground arith)

february :
    (y m : ℕ)
    → 0 < y
    → (m == 2) ≡ true
    → year_part (march_year y (m + 1)) + month_part (m + 1)
      ≡ year_part (march_year y m) + (month_part m + month_days y m)
unfolding march_year month_part
february y m h e =
    let two : m ≡ 2 = ground arith in
    let whole : y ≡ (y - 1) + 1 = omega arith in rw two (ground (arith, year-next (y - 1), whole))

month_start :
    (y m : ℕ)
    → 0 < y
    → 0 < m
    → m < 12
    → year_part (march_year y (m + 1)) + month_part (m + 1)
      ≡ year_part (march_year y m) + (month_part m + month_days y m)
month_start y m hy hm hl = elim (Bool-cases (m == 2)) [
  | inl e ↦ february y m hy e
  | inr e ↦ let (p, q) = month-next y m hm hl (ground arith) in rw (p, q) refl
]

december :
    (y m d : ℕ)
    → m ≡ 12
    → d ≡ month_days y m
    → count_of (march_year (y + 1) 1) 1 1 ≡ count_of (march_year y m) m d + 1
unfolding count_of march_year month_part
december y m d e h =
    let back : y + 1 - 1 ≡ y = omega arith in
    let last : d ≡ 31 = h ∙ rw e refl in rw (e, last, back) (omega arith)

month_end :
    (y m d : ℕ)
    → 0 < y
    → 0 < m
    → m ≤ 12
    → d ≡ month_days y m
    → let n : ℕ × ℕ × ℕ = (if ltb m 12 then (y, m + 1, 1) else (y + 1, 1, 1)) in
      count_of (march_year n.0 n.1) n.1 n.2 ≡ count_of (march_year y m) m d + 1
unfolding count_of
month_end y m d hy hm hl hd = elim (Bool-cases (ltb m 12)) [
  | inl e ↦ rw e (ground (arith, month_start y m hy hm (ground arith), hd))
  | inr e ↦ rw e (december y m d (ground arith) hd)
]

-- The next day is counted one higher, from the first of March of the year 0 on.
count-next :
    (y m d : ℕ)
    → 0 < y
    → 0 < m
    → m ≤ 12
    → 0 < d
    → d ≤ month_days y m
    → let n = next_day y m d in
      count_of (march_year n.0 n.1) n.1 n.2 ≡ count_of (march_year y m) m d + 1
unfolding count_of
count-next y m d hy hm hl hd hk = elim (Bool-cases (ltb d (month_days y m))) [
  | inl e ↦ rw e (omega arith)
  | inr e ↦ rw e (month_end y m d hy hm hl (ground arith))
]

epoch : days_from_civil (pos 1970) (pos 1) (pos 1) ≡ pos 0
unfolding days_from_civil days_of le ◌+ℤ◌ ◌-ℤ◌ times quot rem sub_nat
epoch = refl

next_day-pos : (y m d : ℕ) → 0 < y → 0 < d → (0 < (next_day y m d).0) × (0 < (next_day y m d).2)
next_day-pos y m d h e = (ground arith, ground arith)

minus-suc : (n k : ℕ) → pos (n + 1) -ℤ pos k ≡ (pos n -ℤ pos k) +ℤ pos 1
unfolding ◌-ℤ◌ ◌+ℤ◌ sub_nat
minus-suc n k = ground arith

days-next_day :
    (y m d : ℕ)
    → 0 < y
    → 0 < m
    → m ≤ 12
    → 0 < d
    → d ≤ month_days y m
    → let n = next_day y m d in
      days_from_civil (pos n.0) (pos n.1) (pos n.2)
      ≡ days_from_civil (pos y) (pos m) (pos d) +ℤ pos 1
days-next_day y m d hy hm hl hd hk =
    let n = next_day y m d in
    let (p, q) = next_day-pos y m d hy hd in
    days-count n.0 n.1 n.2 p q
    ∙ ap (λ (k : ℕ). pos k -ℤ pos 719468) (count-next y m d hy hm hl hd hk)
    ∙ minus-suc (count_of (march_year y m) m d) 719468
    ∙ ap (λ (z : ℤ). z +ℤ pos 1) (sym (days-count y m d hy hd))

-- `days_from_civil` counts the days of the Gregorian calendar: 1970-01-01 is day 0, and from a date
-- of the year 1 or later to the day after it the count goes up by one.
pub days_from_civil-next_day :
    (y m d : ℕ)
    → 0 < y
    → 0 < m
    → m ≤ 12
    → 0 < d
    → d ≤ month_days y m
    → let n = next_day y m d in
      (days_from_civil (pos 1970) (pos 1) (pos 1) ≡ pos 0)
      × (days_from_civil (pos n.0) (pos n.1) (pos n.2)
          ≡ days_from_civil (pos y) (pos m) (pos d) +ℤ pos 1)
days_from_civil-next_day y m d hy hm hl hd hk = (epoch, days-next_day y m d hy hm hl hd hk)
