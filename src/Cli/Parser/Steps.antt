-- ===== src/Cli/Parser/Steps.antt =====
-- src/cli.rs, `Parser::next_command`: which part of the code a word reaches.
use yourfs.Base.{
  ℕ, suc, ◌+◌, true, false, [], ◌∷◌, none, some, get_elem?, ◌≡◌, refl, arith, ◌⊎◌, inl, inr,
}
use yourfs.Base.Text.{Text, codes}
use yourfs.Cli.Parser.{
  unknown, Parser, Next, strip_prefix, long_option, flush, short_value, cluster, word, next_word,
  next_on, flags_of,
}

pub short_value_last :
    (c : ℕ) (p : Parser)
    → get_elem? p.args (p.idx + 1) ≡ none
    → ◌≡◌ {A = Next}
        (some (short_value c [] p))
        (some (some (unknown (b'-' ∷ c ∷ codes " requires an argument")), p))
unfolding short_value
short_value_last c p e = rw (e, short_value) refl

pub short_value_next :
    (c : ℕ) (v : Text) (p : Parser)
    → get_elem? p.args (p.idx + 1) ≡ some v
    → ◌≡◌ {A = Next} (some (short_value c [] p)) (some (flush c v (record p { idx = p.idx + 1 })))
unfolding short_value
short_value_next c v p e = rw (e, short_value) refl

pub word_long :
    (again : Parser → Next) (a rest : Text) (p : Parser)
    → strip_prefix (codes "--") a ≡ some rest
    → word again a p ≡ long_option again rest (record p { idx = p.idx + 1 })
unfolding word strip_prefix cluster
word_long again a rest p e = rw e refl

pub word_short :
    (again : Parser → Next) (a flags : Text) (p : Parser)
    → strip_prefix (codes "--") a ≡ none
    → flags_of a ≡ some flags
    → word again a p ≡ cluster again flags p
unfolding word strip_prefix cluster
word_short again a flags p e f = rw (e, f) refl

pub word_plain :
    (again : Parser → Next) (a : Text) (p : Parser)
    → strip_prefix (codes "--") a ≡ none
    → flags_of a ≡ none
    → word again a p ≡ again (record p { done = true })
unfolding word strip_prefix cluster
word_plain again a p e f = rw (e, f) refl

pub next_word_end :
    (again : Parser → Next) (p : Parser)
    → (p.done ≡ true) ⊎ (get_elem? p.args p.idx ≡ none)
    → next_word again p ≡ some (none, p)
unfolding next_word
next_word_end again p (inl d) = rw d refl
next_word_end again p (inr g) = ground arith

pub next_word_at :
    (again : Parser → Next) (a : Text) (p : Parser)
    → p.done ≡ false
    → get_elem? p.args p.idx ≡ some a
    → next_word again p ≡ word again a p
unfolding next_word
next_word_at again a p d g = ground arith

pub next_on_empty :
    (n : ℕ) (p : Parser) → p.queue ≡ [] → next_on (suc n) p ≡ next_word (λ q. next_on n q) p
unfolding next_on
next_on_empty n p e = ground arith
