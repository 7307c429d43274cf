-- ===== src/Load.antt =====
-- src/bin/yourfs_tool.rs, the write mode of `main`: from the text file to the rows that are handed
-- to the database writer.
pub mod Lines
pub mod RoundTrip
use yourfs.Base.{
  ℕ, suc, ◌+◌, Bool, true, false, List, [], ◌∷◌, ◌++◌, Option, none, some, ◌==◌, if◌then◌else◌,
  is_empty, all,
}
use yourfs.Base.Text.{Text, is_whitespace, trim_end_matches}
use yourfs.Scan.Row.{parse_row}

-- A line less the `\\r` in front of its newline.
unfoldable pub strip_cr : Text → Text
strip_cr [] = []
strip_cr (c ∷ []) = if c == b'\r' then [] else c ∷ []
strip_cr (c ∷ d ∷ cs) = c ∷ strip_cr (d ∷ cs)

-- `BufRead::lines` over a file that is UTF-8; `cur` is the line read so far.
unfoldable pub lines_from : Text → Text → List Text
lines_from cur [] = if is_empty cur then [] else cur ∷ []
lines_from cur (c ∷ cs) =
    let next = lines_from [] cs in
    let more = lines_from (cur ++ c ∷ []) cs in if c == b'\n' then strip_cr cur ∷ next else more

abbrev pub lines : Text → List Text
lines = lines_from []

-- The loop's variables: the rows inserted, and the lines skipped. `n` is the number of rows.
pub record Loaded : Type 0 where
  pub inserted : List (Text × Text × Text)
  pub n : ℕ
  pub skipped : ℕ

unfoldable pub load_line : Loaded → Text → Loaded
load_line s line = elim (parse_row line) [
  | some row ↦ record s { inserted = s.inserted ++ row ∷ []; n = s.n + 1 }
  | none ↦ if all is_whitespace line then s else record s { skipped = s.skipped + 1 }
]

unfoldable pub load_lines : Loaded → List Text → Loaded
load_lines s [] = s
load_lines s (l ∷ ls) = load_lines (load_line s l) ls

unfoldable pub load : Text → Loaded
load file = load_lines (record { inserted = []; n = 0; skipped = 0 }) (lines file)
