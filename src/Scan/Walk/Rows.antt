-- ===== src/Scan/Walk/Rows.antt =====
-- src/scan.rs: the rows that a scan writes are those of the virtual tree, whatever the scan root.
use mathlib.Core.List.{map-append}
use yourfs.Base.{
  ℕ, ◌+◌, ◌<◌, true, false, List, [], ◌∷◌, ◌++◌, none, some, lt→ltb, if◌then◌else◌, is_empty, map,
  ◌≡◌, ◌≢◌, refl, arith, ap, sym, ◌∙◌, append-nil, append_assoc, inl, inr, Bool-cases,
}
use yourfs.Base.Text.{
  Text, codes, byte_len, utf8_len_pos, slice_from-append, trim_end_matches, Lacks,
}
use yourfs.Paths.{split_path}
use yourfs.Paths.Split.{split_path-append, split_path_top}
use yourfs.Scan.Row.{write_row}
use yourfs.Scan.Walk.{
  Tree, leaf, untyped, unreadable, dir, Entries, done, failed, entry, is_dots, starts_with_slash,
  ends_with_slash, local_path, virtual_path, line_of, walk, walk_tree, file_text, scan_to_file,
}

abbrev pub Row : Type 0
Row = Text × Text × Text

abbrev pub write_line : Row → Text
write_line (parent, name, path) = write_row parent name path

abbrev pub parent_of : Text → Text
parent_of prefix = if is_empty prefix then codes "/" else prefix

-- The rows of the entries below the virtual directory `prefix`, which is empty for the root.
unfoldable mutual
  pub rows : Text → Entries → List Row
  rows prefix done = []
  rows prefix (failed es) = rows prefix es
  rows prefix (entry none t es) = rows prefix es
  rows prefix (entry (some name) t es) =
      if is_dots name
      then rows prefix es
      else (parent_of prefix, name, prefix ++ b'/' ∷ name)
        ∷ (rows_below (prefix ++ b'/' ∷ name) t ++ rows prefix es)

  pub rows_below : Text → Tree → List Row
  rows_below prefix leaf = []
  rows_below prefix untyped = []
  rows_below prefix unreadable = []
  rows_below prefix (dir es) = rows prefix es

-- What the kernel promises of the names in a directory.
abbrev pub IsPlain : Text → Type 0
IsPlain name = (name ≢ []) × Lacks b'/' name

-- Every UTF-8 name in the tree has the property.
unfoldable mutual
  pub AllNames : (Text → Type 0) → Entries → Type 0
  AllNames P done = Unit
  AllNames P (failed es) = AllNames P es
  AllNames P (entry none t es) = AllNames P es
  AllNames P (entry (some name) t es) = P name × AllBelow P t × AllNames P es

  pub AllBelow : (Text → Type 0) → Tree → Type 0
  AllBelow P leaf = Unit
  AllBelow P untyped = Unit
  AllBelow P unreadable = Unit
  AllBelow P (dir es) = AllNames P es

ends_with_slash-append :
    (a : Text) (c : ℕ) (b : Text) → ends_with_slash (a ++ c ∷ b) ≡ ends_with_slash (c ∷ b)
ends_with_slash-append [] c b = refl
ends_with_slash-append (x ∷ []) c b = refl
ends_with_slash-append (x ∷ y ∷ a) c b = ends_with_slash-append (y ∷ a) c b

ends_with_slash-Lacks : (s : Text) → Lacks b'/' s → ends_with_slash s ≡ false
ends_with_slash-Lacks [] h = refl
ends_with_slash-Lacks (c ∷ []) h = h.0
ends_with_slash-Lacks (c ∷ d ∷ s) h = ends_with_slash-Lacks (d ∷ s) h.1

ends_with_slash_entry : (a name : Text) → IsPlain name → ends_with_slash (a ++ b'/' ∷ name) ≡ false
ends_with_slash_entry a [] h = absurd (h.0 refl)
ends_with_slash_entry a (c ∷ name) h =
    ends_with_slash-append a b'/' (c ∷ name) ∙ ends_with_slash-Lacks (c ∷ name) h.1

-- The prefix is empty, or an absolute path below the trimmed root.
record Below (trimmed prefix : Text) : Type 0 where
  absolute : starts_with_slash (prefix ++ b'/' ∷ []) ≡ true
  closed : ends_with_slash (trimmed ++ prefix) ≡ false

Below-entry :
    (trimmed prefix name : Text)
    → IsPlain name
    → Below trimmed prefix
    → Below trimmed (prefix ++ b'/' ∷ name)
Below-entry trimmed [] name h b = record {
  absolute = refl;
  closed = ends_with_slash_entry trimmed name h;
}
Below-entry trimmed (c ∷ prefix) name h b = record {
  absolute = b.absolute;
  closed =
      rw (← append_assoc trimmed (c ∷ prefix) (b'/' ∷ name))
        (ends_with_slash_entry (trimmed ++ c ∷ prefix) name h);
}

-- The local directory that stands for a virtual one.
abbrev folder_at : Text → Text → Text
folder_at trimmed prefix = if is_empty (trimmed ++ prefix) then codes "/" else trimmed ++ prefix

local_path-folder_at :
    (trimmed prefix name : Text)
    → ends_with_slash (trimmed ++ prefix) ≡ false
    → local_path (folder_at trimmed prefix) name ≡ trimmed ++ (prefix ++ b'/' ∷ name)
unfolding local_path
local_path-folder_at [] [] name h = refl
local_path-folder_at [] (c ∷ prefix) name h = rw h
local_path-folder_at (c ∷ trimmed) prefix name h = rw h (append_assoc (c ∷ trimmed) prefix _)

folder_at_entry :
    (trimmed prefix name : Text)
    → folder_at trimmed (prefix ++ b'/' ∷ name) ≡ trimmed ++ (prefix ++ b'/' ∷ name)
folder_at_entry [] [] name = refl
folder_at_entry [] (c ∷ prefix) name = refl
folder_at_entry (c ∷ trimmed) prefix name = refl

byte_len-append : (a b : Text) → byte_len (a ++ b) ≡ byte_len a + byte_len b
byte_len-append [] b = omega arith
byte_len-append (c ∷ a) b = omega (arith, byte_len-append a b)

virtual_path_lem :
    (trimmed : Text) (c : ℕ) (rest : Text)
    → c ≡ b'/'
    → virtual_path (trimmed ++ c ∷ rest) (byte_len trimmed) ≡ some (c ∷ rest)
unfolding virtual_path
virtual_path_lem trimmed c rest h =
    let longer : byte_len trimmed < byte_len (trimmed ++ c ∷ rest) =
      omega (arith, byte_len-append trimmed (c ∷ rest), utf8_len_pos c) in
    rw (lt→ltb _ _ longer, slice_from-append trimmed (c ∷ rest)) (ground arith)

pub split_path_entry :
    (prefix name : Text)
    → IsPlain name
    → split_path (prefix ++ b'/' ∷ name) ≡ (parent_of prefix, name)
split_path_entry [] name h = split_path_top name h.0 h.1
split_path_entry (c ∷ prefix) name h =
    split_path-append (c ∷ prefix) name (λ (e : c ∷ prefix ≡ []). cc) h.1

virtual_path_entry :
    (trimmed prefix name : Text)
    → Below trimmed prefix
    → virtual_path (trimmed ++ (prefix ++ b'/' ∷ name)) (byte_len trimmed)
      ≡ some (prefix ++ b'/' ∷ name)
virtual_path_entry trimmed [] name b = virtual_path_lem trimmed b'/' name refl
virtual_path_entry trimmed (c ∷ prefix) name b =
    virtual_path_lem trimmed c _ (ground (arith, b.absolute))

line_of_entry :
    (trimmed prefix name : Text)
    → IsPlain name
    → Below trimmed prefix
    → line_of (local_path (folder_at trimmed prefix) name) (byte_len trimmed)
      ≡ some (write_row (parent_of prefix) name (prefix ++ b'/' ∷ name))
unfolding line_of
line_of_entry trimmed prefix name h b = rw (
  local_path-folder_at trimmed prefix name b.closed,
  virtual_path_entry trimmed prefix name b,
  split_path_entry prefix name h,
)

mutual
  unfolding walk rows AllNames

  walk-rows :
      (trimmed prefix : Text) (es : Entries)
      → AllNames IsPlain es
      → Below trimmed prefix
      → walk (folder_at trimmed prefix) (byte_len trimmed) es
        ≡ some (map write_line (rows prefix es))
  walk-rows trimmed prefix done h b = refl
  walk-rows trimmed prefix (failed es) h b = walk-rows trimmed prefix es h b
  walk-rows trimmed prefix (entry none t es) h b = walk-rows trimmed prefix es h b
  walk-rows trimmed prefix (entry (some name) t es) h b = elim (Bool-cases (is_dots name)) [
    | inl e ↦ rw e (walk-rows trimmed prefix es h.2 b)
    | inr e ↦ rw e (
        rw
          (
            line_of_entry trimmed prefix name h.0 b,
            local_path-folder_at trimmed prefix name b.closed,
            walk_tree-rows trimmed (prefix ++ b'/' ∷ name) t h.1
                (Below-entry trimmed prefix name h.0 b) (folder_at_entry trimmed prefix name),
            walk-rows trimmed prefix es h.2 b,
          )
          (ap
            (λ (ls : List Text).
              some (write_row (parent_of prefix) name (prefix ++ b'/' ∷ name) ∷ ls))
            (sym (map-append write_line (rows_below (prefix ++ b'/' ∷ name) t) (rows prefix es)))))
  ]

  walk_tree-rows :
      (trimmed prefix : Text) (t : Tree)
      → AllBelow IsPlain t
      → Below trimmed prefix
      → folder_at trimmed prefix ≡ trimmed ++ prefix
      → walk_tree (trimmed ++ prefix) (byte_len trimmed) t
        ≡ some (map write_line (rows_below prefix t))
  walk_tree-rows trimmed prefix leaf h b e = refl
  walk_tree-rows trimmed prefix untyped h b e = refl
  walk_tree-rows trimmed prefix unreadable h b e = refl
  walk_tree-rows trimmed prefix (dir es) h b e = rw e at (walk-rows trimmed prefix es h b)

trim_end_matches_closed : (s : Text) → ends_with_slash (trim_end_matches b'/' s) ≡ false
unfolding trim_end_matches
trim_end_matches_closed [] = refl
trim_end_matches_closed (c ∷ cs) = ground (arith, trim_end_matches_closed cs)

root_folder :
    (trimmed : Text) → (if is_empty trimmed then codes "/" else trimmed) ≡ folder_at trimmed []
root_folder [] = refl
root_folder (c ∷ t) = sym (append-nil (c ∷ t))

pub scan_to_file-rows :
    (scan_path : Text) (es : Entries)
    → AllNames IsPlain es
    → scan_to_file scan_path (dir es) ≡ some (file_text (map write_line (rows [] es)))
unfolding scan_to_file walk
scan_to_file-rows scan_path es h =
    let t = trim_end_matches b'/' scan_path in
    let top : Below t [] = record {
      absolute = refl;
      closed = rw append-nil (trim_end_matches_closed scan_path);
    } in
    rw (root_folder t, walk-rows t [] es h top)
