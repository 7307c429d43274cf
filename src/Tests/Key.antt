-- ===== src/Tests/Key.antt =====
-- Tests of src/key.rs.
use yourfs.Base.{true, ◌≡◌, refl, arith}
use yourfs.Base.Text.{codes}
use yourfs.Base.Int.{pos, negsuc, ◌+ℤ◌, ◌-ℤ◌, times, quot, rem, le, sub_nat}
use yourfs.Cli.Parser.{split_once}
use yourfs.Cli.Number.{sign, value, signed}
use yourfs.Db.Keys.{split}
use yourfs.Key.{
  keys, dates, position, expiry, key_is_good, string_to_time, days_from_civil, days_of, part,
  parse_whole,
}
use yourfs.Key.Calendar.{days_from_civil-next_day}

known_days :
    (days_from_civil (pos 2000) (pos 3) (pos 1) ≡ pos 11017)
    × (days_from_civil (pos 2027) (pos 1) (pos 1) ≡ pos 20819)
    × (days_from_civil (pos 1969) (pos 12) (pos 31) ≡ negsuc 0)
unfolding days_from_civil days_of le ◌+ℤ◌ ◌-ℤ◌ times quot rem sub_nat
known_days = (refl, refl, refl)

good : key_is_good (codes "FADEP8") (pos 1861920000) ≡ true
unfolding key_is_good keys dates position expiry string_to_time days_from_civil days_of part
    parse_whole split_once split sign value signed le ◌+ℤ◌ ◌-ℤ◌ times quot rem sub_nat
good = refl

days_from_civil-next_day_example :
    (days_from_civil (pos 1970) (pos 1) (pos 1) ≡ pos 0)
    × (days_from_civil (pos 2100) (pos 3) (pos 1)
        ≡ days_from_civil (pos 2100) (pos 2) (pos 28) +ℤ pos 1)
days_from_civil-next_day_example =
    days_from_civil-next_day 2100 2 28 (ground arith) (ground arith) (ground arith) (ground arith)
      (ground arith)
