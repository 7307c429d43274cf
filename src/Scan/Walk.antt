-- ===== src/Scan/Walk.antt =====
-- src/scan.rs, `walk` and `scan_to_file`: from a directory tree to the lines of the text file.
-- The directory tree is what `read_dir`, `file_name` and `file_type` report of the local disk. The
-- warning for a skipped entry is not modelled, and neither are failures to write the file.
pub mod Rows
use yourfs.Base.{
  ℕ, zero, suc, Bool, true, false, ◌||◌, List, [], ◌∷◌, ◌++◌, Option, none, some, ◌==◌, ltb,
  if◌then◌else◌, is_empty,
}
use yourfs.Base.Text.{Text, codes, text_eq, byte_len, slice_from, trim_end_matches}
use yourfs.Paths.{split_path}
use yourfs.Scan.Row.{write_row}

mutual
  -- An entry that is no directory, one whose type cannot be read, a directory that cannot be
  -- opened, and a directory.
  pub data Tree : Type 0 where
    leaf untyped unreadable : Tree
    dir : Entries → Tree

  -- `failed` is an entry that `read_dir` reports as an error; a name that is no UTF-8 is `none`.
  pub data Entries : Type 0 where
    done : Entries
    failed : Entries → Entries
    entry : Option Text → Tree → Entries → Entries

infixl 5 ◌>>=◌
abbrev pub ◌>>=◌ {ℓ κ} : {A : Type ℓ} {B : Type κ} → Option A → (A → Option B) → Option B
none >>= f = none
some a >>= f = f a

abbrev pub starts_with_slash : Text → Bool
starts_with_slash [] = false
starts_with_slash (c ∷ cs) = c == b'/'

abbrev pub ends_with_slash : Text → Bool
ends_with_slash [] = false
ends_with_slash (c ∷ []) = c == b'/'
ends_with_slash (c ∷ d ∷ cs) = ends_with_slash (d ∷ cs)

-- `DirEntry::path`: the directory's path joined with the name.
unfoldable pub local_path : Text → Text → Text
local_path folder name = if ends_with_slash folder then folder ++ name else folder ++ b'/' ∷ name

-- `out_path`: the local path less its first `replace_num` bytes. `none` is a panic of the slice.
unfoldable pub virtual_path : Text → ℕ → Option Text
virtual_path local replace_num = do
  path ←
      if ltb replace_num (byte_len local)
      then (do
        rest ← slice_from replace_num local
        some (if starts_with_slash rest then rest else b'/' ∷ rest))
      else some (codes "/")
  some (if is_empty path then codes "/" else path)

abbrev pub is_dots : Text → Bool
is_dots name = text_eq name (codes ".") || text_eq name (codes "..")

-- The line that one entry writes.
unfoldable pub line_of : Text → ℕ → Option Text
line_of local replace_num = do
  path ← virtual_path local replace_num
  let split = split_path path
  some (write_row split.0 split.1 path)

unfoldable mutual
  pub walk : Text → ℕ → Entries → Option (List Text)
  walk folder n done = some []
  walk folder n (failed es) = walk folder n es
  walk folder n (entry none t es) = walk folder n es
  walk folder n (entry (some name) t es) = if is_dots name then walk folder n es else (do
    line ← line_of (local_path folder name) n
    below ← walk_tree (local_path folder name) n t
    after ← walk folder n es
    some (line ∷ (below ++ after)))

  pub walk_tree : Text → ℕ → Tree → Option (List Text)
  walk_tree local n leaf = some []
  walk_tree local n untyped = some []
  walk_tree local n unreadable = some []
  walk_tree local n (dir es) = walk local n es

-- The contents of the file: every line ends in a newline.
unfoldable pub file_text : List Text → Text
file_text [] = []
file_text (l ∷ ls) = l ++ b'\n' ∷ file_text ls

-- The tree is the one found at the scan path.
unfoldable pub scan_to_file : Text → Tree → Option Text
scan_to_file scan_path tree = do
  let trimmed = trim_end_matches b'/' scan_path
  let root = if is_empty trimmed then codes "/" else trimmed
  lines ← walk_tree root (byte_len trimmed) tree
  some (file_text lines)
