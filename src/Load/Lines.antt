-- ===== src/Load/Lines.antt =====
-- src/bin/yourfs_tool.rs: the lines of a file of rows are the rows.
use yourfs.Base.{
  ℕ, zero, suc, ◌-◌, false, List, [], ◌∷◌, ◌++◌, ◌==◌, any, replicate, length, All, ◌≡◌, refl,
  arith, ap, ◌∙◌, append-nil, append_assoc, inl, inr, Bool-cases,
}
use yourfs.Base.Text.{Text, is_whitespace, Lacks}
use yourfs.Scan.Row.{is_special, escape, pad_field, field_width, write_row}
use yourfs.Scan.Walk.{file_text}
use yourfs.Load.{strip_cr, lines_from, lines}

pub Lacks-append : (k : ℕ) (a b : Text) → Lacks k a → Lacks k b → Lacks k (a ++ b)
Lacks-append k [] b ha hb = hb
Lacks-append k (c ∷ a) b ha hb = (ha.0, Lacks-append k a b ha.1 hb)

Lacks-replicate : (k c n : ℕ) → (c == k) ≡ false → Lacks k (replicate n c)
Lacks-replicate k c zero h = tt
Lacks-replicate k c (suc n) h = (h, Lacks-replicate k c n h)

Lacks-escape : (s : Text) → Lacks b'\n' s → Lacks b'\n' (escape s)
unfolding escape
Lacks-escape [] h = tt
Lacks-escape (c ∷ cs) h = ground (arith, Lacks-escape cs h.1)

Lacks-pad_field : (s : Text) → Lacks b'\n' s → Lacks b'\n' (pad_field s)
unfolding pad_field
Lacks-pad_field s h = elim (Bool-cases (any is_special s)) [
  | inl e ↦ rw e (refl, Lacks-append b'\n' (escape s) _ (Lacks-escape s h) (refl, tt))
  | inr e ↦
      rw e (Lacks-append b'\n' s _ h (Lacks-replicate b'\n' b' ' (field_width - length s) refl))
]

Lacks-write_row :
    (a b c : Text) → Lacks b'\n' a → Lacks b'\n' b → Lacks b'\n' c → Lacks b'\n' (write_row a b c)
unfolding write_row
Lacks-write_row a b c ha hb hc = Lacks-append b'\n' (pad_field a) _ (Lacks-pad_field a ha) (
  refl,
  (
    refl,
    Lacks-append b'\n' (pad_field b) _ (Lacks-pad_field b hb) (refl, (refl, Lacks-pad_field c hc)),
  ),
)

strip_cr-Lacks : (s : Text) → Lacks b'\r' s → strip_cr s ≡ s
unfolding strip_cr
strip_cr-Lacks [] h = refl
strip_cr-Lacks (c ∷ []) h = rw h.0
strip_cr-Lacks (c ∷ d ∷ s) h = ap (◌∷◌ c) (strip_cr-Lacks (d ∷ s) h.1)

strip_cr-append : (a : Text) (c : ℕ) (b : Text) → strip_cr (a ++ c ∷ b) ≡ a ++ strip_cr (c ∷ b)
unfolding strip_cr
strip_cr-append [] c b = refl
strip_cr-append (x ∷ []) c b = refl
strip_cr-append (x ∷ y ∷ a) c b = ap (◌∷◌ x) (strip_cr-append (y ∷ a) c b)

Lacks-plain : (s : Text) → any is_special s ≡ false → Lacks b'\r' s
unfolding is_special is_whitespace
Lacks-plain [] h = tt
Lacks-plain (c ∷ cs) h = ground (arith, Lacks-plain cs)

strip_cr_end : (p : Text) (d : ℕ) → (d == b'\r') ≡ false → strip_cr (p ++ d ∷ []) ≡ p ++ d ∷ []
strip_cr_end p d h = strip_cr-append p d [] ∙ ap (◌++◌ p) (strip_cr-Lacks (d ∷ []) (h, tt))

-- A padded field ends in no `\r`.
strip_cr-pad_field :
    (a : Text) (c : ℕ) (s : Text)
    → (c == b'\r') ≡ false
    → strip_cr (a ++ c ∷ pad_field s) ≡ a ++ c ∷ pad_field s
unfolding pad_field
strip_cr-pad_field a c s h = elim (Bool-cases (any is_special s)) [
  | inl e ↦ rw e (rw append_assoc at (strip_cr_end (a ++ (c ∷ b'"' ∷ escape s)) b'"' refl))
  | inr e ↦ rw e (
      strip_cr-append a c _
      ∙ ap (◌++◌ a) (
          strip_cr-Lacks _ (
            h,
            Lacks-append b'\r' s _ (Lacks-plain s e)
                (Lacks-replicate b'\r' b' ' (field_width - length s) refl),
          )))
]

strip_cr-write_row : (a b c : Text) → strip_cr (write_row a b c) ≡ write_row a b c
unfolding write_row
strip_cr-write_row a b c =
    let front = pad_field a ++ (b' ' ∷ b' ' ∷ (pad_field b ++ b' ' ∷ [])) in
    simp append_assoc at (strip_cr-pad_field front b' ' c refl)

lines_from_line :
    (l cur rest : Text)
    → Lacks b'\n' l
    → lines_from cur (l ++ b'\n' ∷ rest) ≡ strip_cr (cur ++ l) ∷ lines rest
unfolding lines_from
lines_from_line [] cur rest h = rw append-nil
lines_from_line (c ∷ l) cur rest h =
    rw h.0 (lines_from_line l (cur ++ c ∷ []) rest h.1 ∙ rw append_assoc)

-- A line that the file's reader gives back.
abbrev pub IsLine : Text → Type 0
IsLine l = Lacks b'\n' l × (strip_cr l ≡ l)

pub lines-file_text : (ls : List Text) → All IsLine ls → lines (file_text ls) ≡ ls
unfolding lines_from file_text
lines-file_text [] h = refl
lines-file_text (l ∷ ls) h = lines_from_line l [] _ h.0.0 ∙ rw (h.0.1, lines-file_text ls h.1)

pub write_row-IsLine :
    (a b c : Text) → Lacks b'\n' a → Lacks b'\n' b → Lacks b'\n' c → IsLine (write_row a b c)
write_row-IsLine a b c ha hb hc = (Lacks-write_row a b c ha hb hc, strip_cr-write_row a b c)
