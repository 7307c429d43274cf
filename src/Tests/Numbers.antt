-- ===== src/Tests/Numbers.antt =====
-- Tests of the numeric prefixes of src/cli.rs and of the ids in a URL.
use yourfs.Base.{none, some, ◌≡◌, refl}
use yourfs.Base.Text.{codes, is_whitespace}
use yourfs.Cli.Float.{float_prefix, sign_of, fraction_of, exponent_of}
use yourfs.Cli.Number.{digits, trim_start}
use yourfs.Cli.Parser.{strip_prefix}
use yourfs.Mount.UrlIds.{text_after}
use yourfs.Db.Unsigned.{parse_unsigned, parse_digits, without_plus}
use yourfs.Base.Outcome.{ok, err}

prefixes :
    (float_prefix (codes " 10.5MB") ≡ some (codes "10.5"))
    × (float_prefix (codes "1e") ≡ some (codes "1"))
    × (float_prefix (codes "-.5e+3x") ≡ some (codes "-.5e+3"))
    × (float_prefix (codes ".") ≡ some (codes "."))
    × (float_prefix (codes "x1") ≡ none)
unfolding float_prefix sign_of fraction_of exponent_of digits trim_start is_whitespace
prefixes = (refl, refl, refl, refl, refl)

ids : text_after (codes "uid=") (codes "nfs://h/e?uid=7&gid=8") ≡ some (codes "7&gid=8")
unfolding text_after strip_prefix
ids = refl

ports :
    (parse_unsigned 16 (codes "+65535") ≡ ok 65535)
    × (parse_unsigned 16 (codes "65536") ≡ err (codes "number too large to fit in target type"))
    × (parse_unsigned 16 (codes "+") ≡ err (codes "invalid digit found in string"))
unfolding parse_unsigned parse_digits without_plus
ports = (refl, refl, refl)
