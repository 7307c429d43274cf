-- ===== src/Cli/Parser/Readback.antt =====
-- src/cli.rs: the option parser reads back the words of the items.
use yourfs.Base.{
  ℕ, zero, suc, ◌+◌, List, [], ◌∷◌, ◌++◌, none, some, length, All, ◌≡◌, refl, arith, get_elem?, ◌∙◌,
  sym, ap, append_assoc, append-nil, length-append, inl, inr,
}
use yourfs.Base.Text.{Text, codes}
use yourfs.Cli.Parser.{
  OptSpec, Parser, new, strip_prefix, long_option, next_on, next_command, collect, read_all,
  flags_of, next_word,
}
use yourfs.Cli.Parser.Steps.{word_long, next_word_end, next_on_empty, word_plain}
use yourfs.Cli.Parser.Items.{Item, words, settings, opts, all_words, all_settings, IsItem, Stops}
use yourfs.Cli.Parser.Reads.{at, enter, follow, follow_nil, Reads, Reads-append}
use yourfs.Cli.Parser.OneItem.{at_start, Stands, read_item}

get_elem?-append :
    (xs ys : List Text) (j : ℕ) → get_elem? (xs ++ ys) (length xs + j) ≡ get_elem? ys j
get_elem?-append [] ys j = let e : 0 + j ≡ j = omega arith in rw e refl
get_elem?-append (x ∷ xs) ys j =
    let e : suc (length xs) + j ≡ suc (length xs + j) = omega arith in
    rw e (get_elem?-append xs ys j)

get_elem?-prefix :
    (xs ys : List Text) (j : ℕ) (w : Text)
    → get_elem? xs j ≡ some w
    → get_elem? (xs ++ ys) j ≡ some w
get_elem?-prefix [] ys j w h = cc
get_elem?-prefix (x ∷ xs) ys zero w h = h
get_elem?-prefix (x ∷ xs) ys (suc j) w h = get_elem?-prefix xs ys j w h

read_end : (p q : Parser) (n : ℕ) → next_command p ≡ some (none, q) → read_all (suc n) p ≡ some []
unfolding read_all collect
read_end p q n e = rw e refl

module _ (specs : List OptSpec) (args : List Text) where
  stands :
      (item : Item) (before rest : List Text)
      → args ≡ before ++ (words item ++ rest)
      → Stands specs args item (length before)
  stands item before rest e j w g =
      ap (λ (l : List Text). get_elem? l (length before + j)) e
      ∙ get_elem?-append before (words item ++ rest) j
      ∙ get_elem?-prefix (words item) rest j w g

  missing : (before : List Text) → args ≡ before ++ [] → get_elem? args (length before) ≡ none
  missing before e =
      let f : length before ≡ length before + 0 = omega arith in
      rw f
        (ap (λ (l : List Text). get_elem? l (length before + 0)) e ∙ get_elem?-append before [] 0)

  read_items :
      (items : List Item) (before rest : List Text)
      → args ≡ before ++ (all_words items ++ rest)
      → All (IsItem specs) items
      → Reads specs args
          (at specs args (length before) [])
          (all_settings items)
          (length (before ++ all_words items))
  read_items [] before rest e h n =
      let f : 0 + n ≡ n = omega arith in
      rw (f, append-nil before)
        (sym (follow_nil specs args (read_all n (at specs args (length before) []))))
  read_items (item ∷ items) before rest e (h, t) n =
      let ws = words item in
      let f : args ≡ before ++ (ws ++ (all_words items ++ rest)) =
        e ∙ ap (λ (l : List Text). before ++ l) (append_assoc ws (all_words items) rest) in
      let tail =
        read_items items (before ++ ws) rest
          (f ∙ sym (append_assoc before ws (all_words items ++ rest))) t in
      let g : length (before ++ ws) ≡ length before + length ws = length-append before ws in
      let joined = append_assoc before ws (all_words items) in
      Reads-append specs args (at specs args (length before) []) (settings item)
        (all_settings items) (length (before ++ ws)) (length (before ++ (ws ++ all_words items)))
        (λ m. rw g (
          read_item specs args item (length before) (stands item before (all_words items ++ rest) f)
            h m))
        (λ m. rw⁻¹ joined (tail m)) n

  found_at :
      (before rest : List Text) (w : Text)
      → args ≡ before ++ (w ∷ rest)
      → get_elem? args (length before) ≡ some w
  found_at before rest w e = at_start specs args (length before) w (
      ap (λ (l : List Text). get_elem? l (length before + 0)) e
      ∙ get_elem?-append before (w ∷ rest) 0)

  stop_word :
      (i : ℕ) (a : Text)
      → get_elem? args i ≡ some a
      → strip_prefix (codes "--") a ≡ none
      → flags_of a ≡ none
      → (q : Parser) × (next_command (at specs args i []) ≡ some (none, q))
  unfolding next_on next_word
  stop_word i a g e f =
      (_, enter specs args i a g ∙ word_plain (λ q. next_on 1 q) a (at specs args i []) e f)

  stop :
      (before rest : List Text)
      → args ≡ before ++ rest
      → Stops rest
      → (q : Parser) × (next_command (at specs args (length before) []) ≡ some (none, q))
  unfolding strip_prefix flags_of next_command next_on next_word long_option
  stop before [] e h = (
    _,
    next_on_empty 1 (at specs args (length before) []) refl
        ∙ next_word_end (λ q. next_on 1 q) (at specs args (length before) [])
            (inr (missing before e)),
  )
  stop before ([] ∷ rest) e h = stop_word (length before) [] (found_at before rest _ e) refl refl
  stop before ((c ∷ []) ∷ rest) e h =
      stop_word (length before) (c ∷ []) (found_at before rest _ e) (ground arith) refl
  stop before ((c ∷ d ∷ cs) ∷ rest) e (inl h) =
      stop_word (length before) (c ∷ d ∷ cs) (found_at before rest _ e) (ground arith)
        (ground arith)
  stop before ((c ∷ d ∷ cs) ∷ rest) e (inr (h, i, j)) =
      let w = c ∷ d ∷ cs in
      (
        _,
        enter specs args (length before) w (found_at before rest w e)
            ∙ word_long (λ q. next_on 1 q) w [] (at specs args (length before) [])
                (rw (h, i, j) refl),
      )

-- A command line that is made of items, and ends where the options end, is read as the settings of
-- the items in their order: flags in a cluster one by one, values from behind `=`, from the rest of
-- the cluster or from the next argument. One round more than there are settings is enough.
pub read_all-words :
    (specs : List OptSpec) (items : List Item) (rest : List Text)
    → All (IsItem specs) items
    → Stops rest
    → (n : ℕ)
    → read_all (length (all_settings items) + suc n) (new specs (all_words items ++ rest))
      ≡ some (opts (all_settings items))
unfolding new follow
read_all-words specs items rest h s n =
    let args = all_words items ++ rest in
    let ss = all_settings items in
    let (q, e) = stop specs args (all_words items) rest refl s in
    read_items specs args items [] rest refl h (suc n)
    ∙ ap (follow specs args ss) (read_end (at specs args (length (all_words items)) []) q n e)
    ∙ ap some (append-nil (opts ss))
