-- ===== src/Tool/WriteMode.antt =====
-- src/bin/yourfs_tool.rs: the loop that inserts line by line does what a load of the whole file does.
use yourfs.Base.{
  ℕ, ◌+◌, true, false, List, [], ◌∷◌, ◌++◌, none, some, all, ◌≡◌, refl, sym, ap, ◌∙◌, Option-cases,
  Bool-cases, inl, inr,
}
use yourfs.Base.Text.{Text, is_whitespace}
use yourfs.Base.Outcome.{Outcome, ok, err}
use yourfs.Scan.Row.{parse_row}
use yourfs.Scan.Walk.Rows.{Row}
use yourfs.Load.{Loaded, lines, load_line, load_lines, load}
use yourfs.Tool.{Writer, Exit, failed, committed, inserted, created, insert_lines, write_mode}

-- `insert` only keeps the row, as those of the three writers do.
abbrev pub IsPush : {S E : Type 0} → Writer S E → (Row → S → S) → Type 0
IsPush w push = (table : Text) (row : Row) (s : _) → w.insert table row s ≡ (ok tt, push row s)

unfoldable pub push_all : {S : Type 0} → (Row → S → S) → List Row → S → S
push_all push [] s = s
push_all push (r ∷ rs) s = push_all push rs (push r s)

load_line-row :
    (a : Loaded) (row : Row) (l : Text)
    → parse_row l ≡ some row
    → load_line a l ≡ record a { inserted = a.inserted ++ row ∷ []; n = a.n + 1 }
unfolding load_line
load_line-row a row l e = rw (e, load_line) refl

load_line-blank :
    (a : Loaded) (l : Text) → parse_row l ≡ none → all is_whitespace l ≡ true → load_line a l ≡ a
unfolding load_line
load_line-blank a l e b = rw (e, load_line) (rw b refl)

load_line-bad :
    (a : Loaded) (l : Text)
    → parse_row l ≡ none
    → all is_whitespace l ≡ false
    → load_line a l ≡ record a { skipped = a.skipped + 1 }
unfolding load_line
load_line-bad a l e b = rw (e, load_line) (rw b refl)

module _ {S E : Type 0} (w : Writer S E) (push : Row → S → S) (quiet : IsPush w push)
    (table : Text) where
  -- All rows of the file at once, between `create` and `finish`.
  abbrev pub batch_mode : Text → Outcome E (Unit {0}) × S → Exit × S
  batch_mode file (err e, s) = (failed, s)
  batch_mode file (ok u, s) =
      let l = load file in committed w l.n l.skipped (w.finish (push_all push l.inserted s))

  push_all-snoc :
      (rs : List Row) (r : Row) (s : S)
      → push_all push (rs ++ r ∷ []) s ≡ push r (push_all push rs s)
  unfolding push_all
  push_all-snoc [] r s = refl
  push_all-snoc (q ∷ rs) r s = push_all-snoc rs r (push q s)

  -- `finish` and the end, after a load.
  abbrev Tail : S → Loaded → Exit × S
  Tail s l = committed w l.n l.skipped (w.finish (push_all push l.inserted s))

  -- One line, for the loop and for the load.
  insert_lines-row :
      (n k : ℕ) (row : Row) (l : Text) (ls : List Text) (s : S)
      → parse_row l ≡ some row
      → insert_lines w table n k (l ∷ ls) s ≡ insert_lines w table (n + 1) k ls (push row s)
  unfolding insert_lines inserted
  insert_lines-row n k row l ls s e = rw (e, insert_lines) (rw (quiet table row s, inserted) refl)

  insert_lines-blank :
      (n k : ℕ) (l : Text) (ls : List Text) (s : S)
      → parse_row l ≡ none
      → all is_whitespace l ≡ true
      → insert_lines w table n k (l ∷ ls) s ≡ insert_lines w table n k ls s
  unfolding insert_lines
  insert_lines-blank n k l ls s e b = rw (e, insert_lines) (rw b refl)

  insert_lines-bad :
      (n k : ℕ) (l : Text) (ls : List Text) (s : S)
      → parse_row l ≡ none
      → all is_whitespace l ≡ false
      → insert_lines w table n k (l ∷ ls) s ≡ insert_lines w table n (k + 1) ls s
  unfolding insert_lines
  insert_lines-bad n k l ls s e b = rw (e, insert_lines) (rw b refl)

  insert_lines-load_lines :
      (ls : List Text) (a : Loaded) (s : S)
      → insert_lines w table a.n a.skipped ls (push_all push a.inserted s)
        ≡ Tail s (load_lines a ls)
  unfolding insert_lines load_lines
  insert_lines-load_lines [] a s = refl
  insert_lines-load_lines (l ∷ ls) a s = elim (Option-cases (parse_row l)) [
    | inl e ↦ elim (Bool-cases (all is_whitespace l)) [
      | inl b ↦
          insert_lines-blank a.n a.skipped l ls (push_all push a.inserted s) e b
          ∙ insert_lines-load_lines ls a s
          ∙ ap (λ (x : Loaded). Tail s (load_lines x ls)) (sym (load_line-blank a l e b))
      | inr b ↦
          insert_lines-bad a.n a.skipped l ls (push_all push a.inserted s) e b
          ∙ insert_lines-load_lines ls (record a { skipped = a.skipped + 1 }) s
          ∙ ap (λ (x : Loaded). Tail s (load_lines x ls)) (sym (load_line-bad a l e b))
    ]
    | inr (row, e) ↦
        let a' : Loaded = record a { inserted = a.inserted ++ row ∷ []; n = a.n + 1 } in
        insert_lines-row a.n a.skipped row l ls (push_all push a.inserted s) e
        ∙ ap (insert_lines w table (a.n + 1) a.skipped ls) (sym (push_all-snoc a.inserted row s))
        ∙ insert_lines-load_lines ls a' s
        ∙ ap (λ (x : Loaded). Tail s (load_lines x ls)) (sym (load_line-row a row l e))
  ]

  -- For a writer whose `insert` keeps the row, the write mode is: `create`, the rows that the load of
  -- the whole file gives, in their order, `finish`, and the counters of the load.
  pub write_mode-load :
      (file : Text) (s : S) (r : Outcome E (Unit {0}) × S)
      → w.create table s ≡ some r
      → write_mode w table file s ≡ some (batch_mode file r)
  unfolding write_mode created load push_all
  write_mode-load file s (ok u, t) e =
      rw (e, write_mode)
        (ap some
          (insert_lines-load_lines (lines file) (record { inserted = []; n = 0; skipped = 0 }) t))
  write_mode-load file s (err m, t) e = rw (e, write_mode) refl
