-- ===== src/Tests/Cli.antt =====
-- Tests of src/cli.rs.
use yourfs.Base.{suc, ◌+◌, true, false, List, [], ◌∷◌, ◌++◌, some, All, length, ◌≡◌, refl, arith}
use yourfs.Base.Text.{Text, codes, is_whitespace}
use yourfs.Base.Int.{pos, negsuc}
use yourfs.Cli.Parser.{
  OptSpec, Command, unknown, new, read_all, next_command, next_on, next_word, word, cluster,
  find_long, find_short, find_exact, flags_of, collect, starts_with, strip_prefix, hits,
}
use yourfs.Cli.Parser.Progress.{cost, read_all-new}
use yourfs.Cli.Parser.Items.{
  Item, long_flag, long_inline, flags, short_inline, short_next, IsItem, opts, all_words,
  all_settings,
}
use yourfs.Cli.Parser.Readback.{read_all-words}
use yourfs.Cli.Specs.{yourfs_specs, tool_specs}
use yourfs.Cli.Number.{parse_i64, trim_start, sign, digits, magnitude, value, signed}
use yourfs.Cli.Number.Decimal.{show_i64, parse_i64-show_i64}

abbrev debug : OptSpec
debug = record { short = b'D'; long = codes "debug"; arg = false }

abbrev table : OptSpec
table = record { short = b'Z'; long = codes "table"; arg = true }

-- `--debug -rk -aGnfs -m /mnt --tab=t x`, where `tab` is short for `table`.
abbrev items : List Item
items =
    long_flag (codes "debug") debug
    ∷ flags b'r' (b'k' ∷ [])
    ∷ short_inline (b'a' ∷ []) b'G' b'9' (codes "0")
    ∷ short_next [] b'm' (codes "/mnt")
    ∷ long_inline (codes "tab") table (codes "t")
    ∷ []

items-IsItem : All (IsItem yourfs_specs) items
unfolding yourfs_specs find_long find_short find_exact hits starts_with strip_prefix
items-IsItem = (
  (λ e. cc, (refl, (refl, (refl, (refl, (refl, tt))))), refl, refl),
  (
    (λ e. ground arith, ((_, refl, refl), ((_, refl, refl), tt))),
    (
      (λ e. ground arith, ((_, refl, refl), tt), (_, refl, refl)),
      (
        (λ e. ground arith, tt, (_, refl, refl)),
        ((λ e. cc, (refl, (refl, (refl, tt))), refl, refl), tt),
      ),
    ),
  ),
)

read_all-words_example :
    read_all
      (length (all_settings items) + suc 0)
      (new yourfs_specs (all_words items ++ codes "x" ∷ []))
    ≡ some (opts (all_settings items))
read_all-words_example = read_all-words yourfs_specs items (codes "x" ∷ []) items-IsItem tt 0

abbrev line : List Text
line = codes "-DDx" ∷ codes "--scan" ∷ codes "--" ∷ []

read_all-new_example :
    (cs : List Command) × (read_all (suc (cost line)) (new tool_specs line) ≡ some cs)
read_all-new_example = read_all-new tool_specs line

-- The flags in front of an unknown option of the same cluster are lost, and the option is reported.
lost : read_all 9 (new yourfs_specs (codes "-DDx" ∷ [])) ≡ some (unknown (codes "-x") ∷ [])
unfolding new read_all next_command next_on next_word word cluster collect yourfs_specs find_short
    flags_of strip_prefix
lost = refl

overflows : parse_i64 (codes "99999999999999999999999") ≡ pos 0
unfolding parse_i64 trim_start sign digits magnitude value signed is_whitespace
overflows = refl

parse_i64-show_i64_example :
    parse_i64 (codes "  " ++ (show_i64 (negsuc 41) ++ codes "x1")) ≡ negsuc 41
unfolding is_whitespace
parse_i64-show_i64_example =
    parse_i64-show_i64 (codes "  ") (negsuc 41) (codes "x1") (refl, (refl, tt)) (ground arith) refl
