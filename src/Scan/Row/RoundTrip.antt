-- ===== src/Scan/Row/RoundTrip.antt =====
-- src/scan.rs: `parse_row` reads back the rows that `write_row` writes.
use yourfs.Base.{
  ℕ, zero, suc, ◌-◌, Bool, true, false, ◌&&◌, ◌||◌, List, [], ◌∷◌, ◌++◌, some, ◌==◌, if◌then◌else◌,
  length, replicate, any, is_empty, ◌≡◌, ◌≢◌, refl, arith, append-nil, append_assoc, ap, ◌∙◌, inl,
  inr, Bool-cases, not,
}
use yourfs.Base.Text.{Text, is_whitespace}
use yourfs.Scan.Row.{
  is_special, escape, pad_field, write_row, Columns, push, flush, step, is_escapable, scan_row,
  columns, parse_row, field_width, three,
}

scan_row_cons :
    (s : Columns) (c : ℕ) (cs : Text)
    → (s.in_quotes && c == b'\\') ≡ false
    → scan_row s (c ∷ cs) ≡ scan_row (step s c) cs
unfolding scan_row
scan_row_cons s c [] h = refl
scan_row_cons s c (n ∷ cs) h = ground arith

scan_row_escaped :
    (s : Columns) (n : ℕ) (cs : Text)
    → s.in_quotes ≡ true
    → is_escapable n ≡ true
    → scan_row s (b'\\' ∷ n ∷ cs) ≡ scan_row (push s n) cs
unfolding scan_row
scan_row_escaped s n cs q e = ground arith

-- One character that `step` sends to the state `t`.
scan_row-step :
    (s : Columns) (c : ℕ) (t : Columns) (cs : Text)
    → (s.in_quotes && c == b'\\') ≡ false
    → step s c ≡ t
    → scan_row s (c ∷ cs) ≡ scan_row t cs
scan_row-step s c t cs h e = scan_row_cons s c cs h ∙ ap (λ (u : Columns). scan_row u cs) e

step_close : (s : Columns) → s.in_quotes ≡ true → step s b'"' ≡ record s { in_quotes = false }
unfolding step
step_close s q = ground arith

step_inside :
    (s : Columns) (c : ℕ)
    → s.in_quotes ≡ true
    → (c == b'"' || c == b'\\') ≡ false
    → step s c ≡ push s c
unfolding step
step_inside s c q h = ground arith

step_outside :
    (s : Columns) (c : ℕ)
    → s.in_quotes ≡ false
    → is_special c ≡ false
    → step s c ≡ record s { cur = s.cur ++ c ∷ []; has_field = true }
unfolding step is_special
step_outside s c q h = ground arith

step_space : (s : Columns) → s.in_quotes ≡ false → step s b' ' ≡ flush s
unfolding step is_whitespace
step_space s q = ground arith

escapable : (c : ℕ) → (c == b'"' || c == b'\\') ≡ true → is_escapable c ≡ true
unfolding is_escapable
escapable c h = ground arith

-- Inside quotes, an escaped text and the closing quote.
scan_row-escape :
    (v : Text) (s : Columns) (rest : Text)
    → s.in_quotes ≡ true
    → scan_row s (escape v ++ b'"' ∷ rest)
      ≡ scan_row (record s { cur = s.cur ++ v; in_quotes = false }) rest
unfolding escape
scan_row-escape [] s rest q =
    rw append-nil (scan_row-step s b'"' _ rest (ground arith) (step_close s q))
scan_row-escape (c ∷ cs) s rest q = elim (Bool-cases (c == b'"' || c == b'\\')) [
  | inl e ↦ rw e (
      scan_row_escaped s c _ q (escapable c e)
      ∙ scan_row-escape cs (push s c) rest q
      ∙ rw append_assoc)
  | inr e ↦ rw e (
      scan_row-step s c (push s c) _ (ground arith) (step_inside s c q e)
      ∙ scan_row-escape cs (push s c) rest q
      ∙ rw append_assoc)
]

any_tail :
    (c : ℕ) (cs : Text)
    → any is_special (c ∷ cs) ≡ false
    → (is_special c ≡ false) × (any is_special cs ≡ false)
any_tail c cs h = ground arith

or_false : (b : Bool) → (b || false) ≡ b
or_false b = ground arith

or_true : (b : Bool) → (b || true) ≡ true
or_true b = ground arith

-- Outside quotes, a text with no special character.
scan_row_plain :
    (v : Text) (s : Columns) (rest : Text)
    → s.in_quotes ≡ false
    → any is_special v ≡ false
    → scan_row s (v ++ rest)
      ≡ scan_row (record s { cur = s.cur ++ v; has_field = s.has_field || not (is_empty v) }) rest
scan_row_plain [] s rest q h = rw (append-nil, or_false)
scan_row_plain (c ∷ cs) s rest q h =
    let (hc, hcs) = any_tail c cs h in
    let t : Columns = record s { cur = s.cur ++ c ∷ []; has_field = true } in
    scan_row-step s c t (cs ++ rest) (ground arith) (step_outside s c q hc)
    ∙ scan_row_plain cs t rest q hcs
    ∙ rw (append_assoc, or_true)

flush-flush : (s : Columns) → flush (flush s) ≡ flush s
flush-flush s = ground arith

flush_plain : (s : Columns) → s.in_quotes ≡ false → (flush s).in_quotes ≡ false
flush_plain s q = ground arith

-- Blanks between two fields.
scan_row_blanks :
    (k n : ℕ) (s : Columns) (rest : Text)
    → s.in_quotes ≡ false
    → scan_row s (replicate k b' ' ++ (replicate (suc n) b' ' ++ rest)) ≡ scan_row (flush s) rest
scan_row_blanks zero zero s rest q =
    scan_row-step s b' ' (flush s) rest (ground arith) (step_space s q)
scan_row_blanks zero (suc n) s rest q =
    scan_row-step s b' ' (flush s) _ (ground arith) (step_space s q)
    ∙ scan_row_blanks zero n (flush s) rest (flush_plain s q)
    ∙ ap (λ (t : Columns). scan_row t rest) (flush-flush s)
scan_row_blanks (suc k) n s rest q =
    scan_row-step s b' ' (flush s) _ (ground arith) (step_space s q)
    ∙ scan_row_blanks k n (flush s) rest (flush_plain s q)
    ∙ ap (λ (t : Columns). scan_row t rest) (flush-flush s)

-- Blanks at the end of the row.
flush_blanks :
    (k : ℕ) (s : Columns) → s.in_quotes ≡ false → flush (scan_row s (replicate k b' ')) ≡ flush s
flush_blanks zero s q = unfold scan_row in refl
flush_blanks (suc k) s q =
    ap flush (scan_row-step s b' ' (flush s) (replicate k b' ') (ground arith) (step_space s q))
    ∙ flush_blanks k (flush s) (flush_plain s q)
    ∙ flush-flush s

-- The state between two fields.
abbrev clean : List Text → Columns
clean cs = record { cols = cs; cur = []; in_quotes = false; has_field = false }

-- A field that is empty leaves no column.
abbrev emitted : Text → List Text
emitted f = if is_empty f then [] else f ∷ []

-- After the characters of a padded field, up to the blanks of its padding.
abbrev filled : List Text → Text → Columns
filled cs f = record { cols = cs; cur = f; in_quotes = false; has_field = not (is_empty f) }

flush-filled : (cs : List Text) (f : Text) → flush (filled cs f) ≡ clean (cs ++ emitted f)
flush-filled cs [] = rw append-nil
flush-filled cs (c ∷ f) = refl

scan_row_quoted :
    (cs : List Text) (f rest : Text)
    → any is_special f ≡ true
    → scan_row (clean cs) (b'"' ∷ (escape f ++ b'"' ∷ rest)) ≡ scan_row (filled cs f) rest
scan_row_quoted cs [] rest h = cc
scan_row_quoted cs (c ∷ f) rest h =
    let opened : Columns = record { cols = cs; cur = []; in_quotes = true; has_field = true } in
    scan_row-step (clean cs) b'"' opened _ refl (unfold step in refl)
    ∙ scan_row-escape (c ∷ f) opened rest refl

scan_row-pad_field :
    (cs : List Text) (f : Text) (n : ℕ) (rest : Text)
    → scan_row (clean cs) (pad_field f ++ (replicate (suc n) b' ' ++ rest))
      ≡ scan_row (clean (cs ++ emitted f)) rest
unfolding pad_field
scan_row-pad_field cs f n rest = elim (Bool-cases (any is_special f)) [
  | inl h ↦
      rw (h, append_assoc)
        (scan_row_quoted cs f _ h
          ∙ scan_row_blanks 0 n (filled cs f) rest refl
          ∙ ap (λ (t : Columns). scan_row t rest) (flush-filled cs f))
  | inr h ↦
      rw (h, append_assoc)
        (scan_row_plain f (clean cs) _ refl h
          ∙ scan_row_blanks (field_width - length f) n (filled cs f) rest refl
          ∙ ap (λ (t : Columns). scan_row t rest) (flush-filled cs f))
]

flush-pad_field :
    (cs : List Text) (f : Text)
    → flush (scan_row (clean cs) (pad_field f)) ≡ clean (cs ++ emitted f)
unfolding pad_field
flush-pad_field cs f = elim (Bool-cases (any is_special f)) [
  | inl h ↦
      rw h (
        ap flush (scan_row_quoted cs f [] h)
        ∙ flush_blanks 0 (filled cs f) refl
        ∙ flush-filled cs f)
  | inr h ↦ rw h (
      ap flush (scan_row_plain f (clean cs) _ refl h)
      ∙ flush_blanks (field_width - length f) (filled cs f) refl
      ∙ flush-filled cs f)
]

-- The columns read are the fields written, less those that are empty.
pub columns-write_row :
    (a b c : Text) → columns (write_row a b c) ≡ (emitted a ++ emitted b) ++ emitted c
unfolding columns write_row
columns-write_row a b c =
    ap (λ (t : Columns). t.cols)
      (ap flush (scan_row-pad_field [] a 1 _ ∙ scan_row-pad_field (emitted a) b 1 (pad_field c))
        ∙ flush-pad_field (emitted a ++ emitted b) c)

-- Three fields written as a row are read back, whatever characters they hold, if none is empty.
pub parse_row-write_row :
    (a b c : Text) → a ≢ [] → b ≢ [] → c ≢ [] → parse_row (write_row a b c) ≡ some (a, b, c)
unfolding parse_row
parse_row-write_row a b c ha hb hc = rw columns-write_row (nonempty a b c ha hb hc)
  where
    nonempty :
        (a b c : Text)
        → a ≢ []
        → b ≢ []
        → c ≢ []
        → three ((emitted a ++ emitted b) ++ emitted c) ≡ some (a, b, c)
    nonempty [] b c ha hb hc = absurd (ha refl)
    nonempty (x ∷ a) [] c ha hb hc = absurd (hb refl)
    nonempty (x ∷ a) (y ∷ b) [] ha hb hc = absurd (hc refl)
    nonempty (x ∷ a) (y ∷ b) (z ∷ c) ha hb hc = refl
