-- ===== src/Tool.antt =====
-- src/bin/yourfs_tool.rs: the options and the two modes of `main`. The writer behind the trait
-- `Writer` of src/db.rs, the local disk and the number behind `-M` (an `f64`) are parameters.
pub mod WriteMode
pub mod Publish
pub mod Served
pub mod Isolated
pub mod SqlWriters
use yourfs.Base.{
  ℕ, suc, ◌+◌, Bool, true, false, not, ◌||◌, List, [], ◌∷◌, ◌++◌, Option, none, some, ◌==◌,
  if◌then◌else◌, is_empty, all,
}
use yourfs.Base.Text.{Text, codes, text_eq, is_whitespace}
use yourfs.Base.Int.{ℤ, pos}
use yourfs.Base.Outcome.{Outcome, ok, err}
use yourfs.Cli.Parser.{Command, opt, unknown, new, read_all}
use yourfs.Cli.Specs.{tool_specs}
use yourfs.Mount.{unwrap_or_default}
use yourfs.Scan.Row.{parse_row}
use yourfs.Scan.Walk.{Tree, scan_to_file}
use yourfs.Scan.Walk.Rows.{Row}
use yourfs.Load.{lines}

pub record ToolOpts : Type 0 where
  pub scan_path : Text
  pub output_filename : Text
  pub input_filename : Text
  pub tool_database : Text
  pub tool_table : Text
  pub tool_cache : ℤ
  pub tool_type : Text
  pub tool_unknown : Option Text

unfoldable pub tool_defaults : ToolOpts
tool_defaults = record {
  scan_path = [];
  output_filename = codes "output.txt";
  input_filename = codes "input.txt";
  tool_database = [];
  tool_table = codes "data";
  tool_cache = pos 20000;
  tool_type = [];
  tool_unknown = none;
}

unfoldable pub set_option : (Text → ℤ) → ℕ → Text → ToolOpts → ToolOpts
set_option memory c v o =
    if c == b's'
    then record o { scan_path = v }
    else if c == b'o'
    then record o { output_filename = v }
    else if c == b'i'
    then record o { input_filename = v }
    else if c == b'X'
    then record o { tool_database = v }
    else if c == b'Z'
    then record o { tool_table = v }
    else if c == b'M'
    then record o { tool_cache = memory v }
    else if c == b'F'
    then record o { tool_type = v }
    else o

-- The loop of `main`; `none` is the usage text, which ends the program.
unfoldable pub tool_opts : (Text → ℤ) → List Command → ToolOpts → Option ToolOpts
tool_opts memory [] o = some o
tool_opts memory (unknown msg ∷ cs) o = some (record o { tool_unknown = some msg })
tool_opts memory (opt c v ∷ cs) o =
    let rest = tool_opts memory cs (set_option memory c (unwrap_or_default v) o) in
    if c == b'?' then none else rest

-- The trait `Writer`. `create` may not come to an end, which is `none`.
pub record Writer (S E : Type 0) : Type 0 where
  pub create : Text → S → Option (Outcome E (Unit {0}) × S)
  pub insert : Text → Row → S → Outcome E (Unit {0}) × S
  pub finish : S → Outcome E (Unit {0}) × S

-- How the program ends: `wrote` has a file's name and its text, `idle` is the fall through at an
-- unknown database type, `failed` is the exit code 1, and `loaded` has the two counters.
pub data Exit : Type 0 where
  help idle failed panicked : Exit
  wrote : Text → Text → Exit
  loaded : ℕ → ℕ → Exit

unfoldable pub is_supported : Text → Bool
is_supported name =
    text_eq name (codes "sqlite3")
    || text_eq name (codes "postgres")
    || text_eq name (codes "redis")

module _ {S E : Type 0} (w : Writer S E) where
  -- The end of the write mode.
  unfoldable pub committed : ℕ → ℕ → Outcome E (Unit {0}) × S → Exit × S
  committed n skipped (ok u, s) = (loaded n skipped, s)
  committed n skipped (err e, s) = (failed, s)

  -- The loop over the lines, with its counters, and what follows it.
  unfoldable pub inserted : (S → Exit × S) → Outcome E (Unit {0}) × S → Exit × S
  inserted again (ok u, s) = again s
  inserted again (err e, s) = (failed, s)

  unfoldable pub insert_lines : Text → ℕ → ℕ → List Text → S → Exit × S
  unfolding committed inserted
  insert_lines table n skipped [] s = committed n skipped (w.finish s)
  insert_lines table n skipped (l ∷ ls) s = elim (parse_row l) [
    | some row ↦ inserted (λ t. insert_lines table (n + 1) skipped ls t) (w.insert table row s)
    | none ↦
        if all is_whitespace l
        then insert_lines table n skipped ls s
        else insert_lines table n (skipped + 1) ls s
  ]

  unfoldable pub created : Text → List Text → Outcome E (Unit {0}) × S → Exit × S
  created table ls (ok u, s) = insert_lines table 0 0 ls s
  created table ls (err e, s) = (failed, s)

  -- The write mode, from the open file on.
  unfoldable pub write_mode : Text → Text → S → Option (Exit × S)
  unfolding created
  write_mode table file s = elim (w.create table s) [
    | some r ↦ some (created table (lines file) r)
    | none ↦ none
  ]

  -- `main` behind the options. `dial` is `db::writer`, `files` is `File::open`, `disk` the tree that a
  -- scan finds, `sink` says whether a text can be written to a file.
  unfoldable pub run :
      (Text → Tree)
      → (Text → Text → Bool)
      → (Text → Option Text)
      → (Text → Text → ℤ → Option S)
      → ToolOpts
      → Option (Exit × Option S)
  run disk sink files dial o =
      if not (is_empty o.scan_path)
      then some (
        (elim (scan_to_file o.scan_path (disk o.scan_path)) [
          | some text ↦ if sink o.output_filename text then wrote o.output_filename text else failed
          | none ↦ panicked
        ]),
        none,
      )
      else if not (is_supported o.tool_type)
      then some (idle, none)
      else (elim (files o.input_filename) [
        | none ↦ some (failed, none)
        | some file ↦ elim (dial o.tool_type o.tool_database o.tool_cache) [
          | none ↦ some (failed, none)
          | some s ↦ elim (write_mode o.tool_table file s) [
            | some r ↦ some (r.0, some r.1)
            | none ↦ none
          ]
        ]
      ])

  -- `main`, with fuel for the commands; `none` is also a `create` that does not come to an end.
  unfoldable pub tool_main :
      (Text → ℤ)
      → (Text → Tree)
      → (Text → Text → Bool)
      → (Text → Option Text)
      → (Text → Text → ℤ → Option S)
      → ℕ
      → List Text
      → Option (Exit × Option S)
  tool_main memory disk sink files dial fuel args =
      if is_empty args then some (help, none) else elim (read_all fuel (new tool_specs args)) [
        | none ↦ none
        | some commands ↦ elim (tool_opts memory commands tool_defaults) [
          | none ↦ some (help, none)
          | some o ↦ run disk sink files dial o
        ]
      ]
