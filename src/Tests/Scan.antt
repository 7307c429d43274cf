-- ===== src/Tests/Scan.antt =====
-- Tests of src/paths.rs, src/scan.rs and the load of src/bin/yourfs_tool.rs.
use yourfs.Base.{List, [], ◌∷◌, none, some, length, ◌≡◌, refl, arith}
use yourfs.Base.Text.{Text, codes, is_whitespace}
use yourfs.Paths.{rfind, split_path}
use yourfs.Scan.Row.{write_row, parse_row, pad_field, escape, columns, scan_row, step, is_escapable}
use yourfs.Scan.Row.RoundTrip.{parse_row-write_row}
use yourfs.Scan.Walk.{leaf, dir, Entries, done, failed, entry, scan_to_file}
use yourfs.Scan.Walk.Rows.{Row, rows, AllNames}
use yourfs.Load.{load}
use yourfs.Load.RoundTrip.{scan-load}

split_paths :
    (split_path (codes "/a/b") ≡ (codes "/a", codes "b"))
    × (split_path (codes "/a") ≡ (codes "/", codes "a"))
    × (split_path (codes "/x/y/z") ≡ (codes "/x/y", codes "z"))
    × (split_path (codes "/") ≡ ([], []))
    × (split_path (codes "plain") ≡ ([], codes "plain"))
unfolding split_path rfind
split_paths = (refl, refl, refl, refl, refl)

abbrev deep_path : Text
deep_path = codes "/a/b"

plain_row :
    parse_row (write_row (codes "/a") (codes "b") (codes "/a/b"))
    ≡ some (codes "/a", codes "b", codes "/a/b")
unfolding parse_row write_row pad_field escape columns scan_row step is_whitespace is_escapable
plain_row = refl

corrupt_rows : (parse_row (codes "/a  b  /a/b c d") ≡ none) × (parse_row (codes "only  two") ≡ none)
unfolding parse_row columns scan_row step is_whitespace is_escapable
corrupt_rows = (refl, refl)

parse_row-write_row_example :
    parse_row (write_row (codes "/my dir") (codes "a\"\\ b") (codes "/my dir/a\"\\ b"))
    ≡ some (codes "/my dir", codes "a\"\\ b", codes "/my dir/a\"\\ b")
parse_row-write_row_example =
    parse_row-write_row (codes "/my dir") (codes "a\"\\ b") (codes "/my dir/a\"\\ b") (λ e. cc)
      (λ e. cc) (λ e. cc)

abbrev tree : Entries
tree =
    entry (some (codes "a b")) (dir (entry (some (codes "c")) leaf done)) (
      failed
        (entry none leaf (entry (some (codes "..")) leaf (entry (some (codes "d")) leaf done))))

abbrev two_rows : List Row
two_rows = (codes "/", codes "a b", codes "/a b") ∷ (codes "/a b", codes "c", codes "/a b/c") ∷ []

scan-load_example :
    (file : Text) × (scan_to_file (codes "/") (dir tree) ≡ some file)
    × (load file ≡ record { inserted = rows [] tree; n = length (rows [] tree); skipped = 0 })
unfolding AllNames
scan-load_example = scan-load (codes "/") tree (ground arith)
