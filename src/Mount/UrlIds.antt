-- ===== src/Mount/UrlIds.antt =====
-- src/bin/yourfs.rs: the uid and the gid in the URL of the export.
use yourfs.Base.{[], ◌∷◌, Option, none, some}
use yourfs.Base.Text.{Text, codes}
use yourfs.Cli.Number.{parse_i64}
use yourfs.Cli.Parser.{strip_prefix}
use yourfs.Mount.{Opts}

-- What follows the first occurrence of a text that is not empty.
unfoldable pub text_after : Text → Text → Option Text
text_after p [] = none
text_after p (c ∷ cs) = elim (strip_prefix p (c ∷ cs)) [
  | some rest ↦ some rest
  | none ↦ text_after p cs
]

-- The URL overrides the options.
unfoldable pub with_uid : Text → Opts → Opts
with_uid url o = elim (text_after (codes "uid=") url) [
  | some rest ↦ record o { custom_uid = parse_i64 rest }
  | none ↦ o
]

unfoldable pub with_gid : Text → Opts → Opts
with_gid url o = elim (text_after (codes "gid=") url) [
  | some rest ↦ record o { custom_gid = parse_i64 rest }
  | none ↦ o
]

unfoldable pub url_ids : Text → Opts → Opts
url_ids url o = with_gid url (with_uid url o)
