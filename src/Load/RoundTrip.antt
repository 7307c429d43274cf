-- ===== src/Load/RoundTrip.antt =====
-- src/scan.rs and src/bin/yourfs_tool.rs: what a scan writes, the load reads.
use yourfs.Base.{
  ◌+◌, List, [], ◌∷◌, ◌++◌, none, some, length, map, All, All-append, ◌≡◌, ◌≢◌, refl, arith, ap,
  ◌∙◌, append-nil, append_assoc, inl, inr, Bool-cases,
}
use yourfs.Base.Text.{Text, Lacks}
use yourfs.Scan.Row.{write_row}
use yourfs.Scan.Row.RoundTrip.{parse_row-write_row}
use yourfs.Scan.Walk.{
  Tree, leaf, untyped, unreadable, dir, Entries, done, failed, entry, is_dots, file_text,
  scan_to_file,
}
use yourfs.Scan.Walk.Rows.{
  Row, write_line, rows, rows_below, parent_of, IsPlain, AllNames, AllBelow, scan_to_file-rows,
}
use yourfs.Load.{Loaded, load_line, load_lines, load}
use yourfs.Load.Lines.{Lacks-append, IsLine, write_row-IsLine, lines-file_text}

-- A field that the text format can carry on one line.
abbrev pub IsField : Text → Type 0
IsField f = (f ≢ []) × Lacks b'\n' f

abbrev pub IsRow : Row → Type 0
IsRow (a, b, c) = IsField a × IsField b × IsField c

IsLine-rows : (rs : List Row) → All IsRow rs → All IsLine (map write_line rs)
IsLine-rows [] h = tt
IsLine-rows ((a, b, c) ∷ rs) h =
    (write_row-IsLine a b c h.0.0.1 h.0.1.1 h.0.2.1, IsLine-rows rs h.1)

load_line_row :
    (s : Loaded) (a b c : Text)
    → IsRow (a, b, c)
    → load_line s (write_row a b c)
      ≡ record s { inserted = s.inserted ++ (a, b, c) ∷ []; n = s.n + 1 }
unfolding load_line
load_line_row s a b c h = rw (parse_row-write_row a b c h.0.0 h.1.0 h.2.0, load_line)

load_lines_rows :
    (s : Loaded) (rs : List Row)
    → All IsRow rs
    → load_lines s (map write_line rs)
      ≡ record s { inserted = s.inserted ++ rs; n = s.n + length rs }
unfolding load_lines
load_lines_rows s [] h = ground (arith, append-nil s.inserted)
load_lines_rows s ((a, b, c) ∷ rs) h =
    let t : Loaded = record s { inserted = s.inserted ++ (a, b, c) ∷ []; n = s.n + 1 } in
    ap (λ (u : Loaded). load_lines u (map write_line rs)) (load_line_row s a b c h.0)
    ∙ load_lines_rows t rs h.1
    ∙ ground (arith, append_assoc s.inserted ((a, b, c) ∷ []) rs)

-- A file of such rows is loaded row by row: none is lost, changed or skipped.
load-file_text :
    (rs : List Row)
    → All IsRow rs
    → load (file_text (map write_line rs)) ≡ record { inserted = rs; n = length rs; skipped = 0 }
unfolding load
load-file_text rs h =
    rw (lines-file_text _ (IsLine-rows rs h), load_lines_rows _ rs h) (ground arith)

-- A name that is one component of a path and has no newline.
abbrev pub IsName : Text → Type 0
IsName name = IsPlain name × Lacks b'\n' name

mutual
  unfolding AllNames

  pub AllNames-IsPlain : (es : Entries) → AllNames IsName es → AllNames IsPlain es
  AllNames-IsPlain done h = tt
  AllNames-IsPlain (failed es) h = AllNames-IsPlain es h
  AllNames-IsPlain (entry none t es) h = AllNames-IsPlain es h
  AllNames-IsPlain (entry (some name) t es) h =
      (h.0.0, AllBelow-IsPlain t h.1, AllNames-IsPlain es h.2)

  AllBelow-IsPlain : (t : Tree) → AllBelow IsName t → AllBelow IsPlain t
  AllBelow-IsPlain leaf h = tt
  AllBelow-IsPlain untyped h = tt
  AllBelow-IsPlain unreadable h = tt
  AllBelow-IsPlain (dir es) h = AllNames-IsPlain es h

IsField-parent_of : (prefix : Text) → Lacks b'\n' prefix → IsField (parent_of prefix)
IsField-parent_of [] h = ((λ e. cc), (refl, tt))
IsField-parent_of (c ∷ p) h = ((λ e. cc), h)

IsField-entry :
    (prefix name : Text) → Lacks b'\n' prefix → Lacks b'\n' name → IsField (prefix ++ b'/' ∷ name)
IsField-entry [] name hp hn = ((λ e. cc), (refl, hn))
IsField-entry (c ∷ p) name hp hn = ((λ e. cc), Lacks-append b'\n' (c ∷ p) _ hp (refl, hn))

mutual
  unfolding AllNames rows

  rows-IsRow :
      (prefix : Text) (es : Entries)
      → Lacks b'\n' prefix
      → AllNames IsName es
      → All IsRow (rows prefix es)
  rows-IsRow prefix done hp h = tt
  rows-IsRow prefix (failed es) hp h = rows-IsRow prefix es hp h
  rows-IsRow prefix (entry none t es) hp h = rows-IsRow prefix es hp h
  rows-IsRow prefix (entry (some name) t es) hp h = elim (Bool-cases (is_dots name)) [
    | inl e ↦ rw e (rows-IsRow prefix es hp h.2)
    | inr e ↦
        let path = IsField-entry prefix name hp h.0.1 in
        rw e (
          (IsField-parent_of prefix hp, (h.0.0.0, h.0.1), path),
          All-append IsRow (rows_below (prefix ++ b'/' ∷ name) t) (rows prefix es)
              (rows_below-IsRow (prefix ++ b'/' ∷ name) t path.1 h.1) (rows-IsRow prefix es hp h.2),
        )
  ]

  rows_below-IsRow :
      (prefix : Text) (t : Tree)
      → Lacks b'\n' prefix
      → AllBelow IsName t
      → All IsRow (rows_below prefix t)
  rows_below-IsRow prefix leaf hp h = tt
  rows_below-IsRow prefix untyped hp h = tt
  rows_below-IsRow prefix unreadable hp h = tt
  rows_below-IsRow prefix (dir es) hp h = rows-IsRow prefix es hp h

-- A tree whose names have no newline is scanned and loaded with no loss: the load inserts exactly
-- the rows of the virtual tree, counts them, and skips nothing.
pub scan-load :
    (scan_path : Text) (es : Entries)
    → AllNames IsName es
    → (file : Text) × (scan_to_file scan_path (dir es) ≡ some file)
      × (load file ≡ record { inserted = rows [] es; n = length (rows [] es); skipped = 0 })
scan-load scan_path es h = (
  file_text (map write_line (rows [] es)),
  scan_to_file-rows scan_path es (AllNames-IsPlain es h),
  load-file_text (rows [] es) (rows-IsRow [] es tt h),
)
