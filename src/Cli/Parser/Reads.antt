-- ===== src/Cli/Parser/Reads.antt =====
-- src/cli.rs: the loop over the options, step by step.
use yourfs.Base.{
  ℕ, suc, ◌+◌, false, List, [], ◌∷◌, ◌++◌, Option, none, some, length, ◌≡◌, refl, arith, get_elem?,
  ◌∙◌, sym, ap, length-append,
}
use yourfs.Base.Text.{Text}
use yourfs.Cli.Parser.{
  OptSpec, Command, opt, Parser, word, next_on, next_command, collect, read_all,
}
use yourfs.Cli.Parser.Steps.{next_word_at, next_on_empty}
use yourfs.Cli.Parser.Items.{Setting, opts}

module _ (specs : List OptSpec) (args : List Text) where
  abbrev pub at : ℕ → List Command → Parser
  at k queue = record {
    specs = specs;
    args = args;
    idx = k;
    done = false;
    pending = [];
    queue = queue;
  }

  pub enter :
      (k : ℕ) (a : Text)
      → get_elem? args k ≡ some a
      → next_command (at k []) ≡ word (λ q. next_on 1 q) a (at k [])
  unfolding next_command
  enter k a h = next_on_empty 1 (at k []) refl ∙ next_word_at (λ q. next_on 1 q) a (at k []) refl h

  unfoldable pub follow : List Setting → Option (List Command) → Option (List Command)
  follow ss none = none
  follow ss (some cs) = some (opts ss ++ cs)

  pub follow_nil : (r : Option (List Command)) → follow [] r ≡ r
  unfolding follow
  follow_nil none = refl
  follow_nil (some cs) = refl

  pub follow_cons :
      (s : Setting) (ss : List Setting) (r : Option (List Command))
      → follow (s ∷ []) (follow ss r) ≡ follow (s ∷ ss) r
  unfolding follow
  follow_cons s ss none = refl
  follow_cons s ss (some cs) = refl

  -- The options of `ss` come out, and the parser then stands at argument `j`.
  abbrev pub Reads : Parser → List Setting → ℕ → Type 0
  Reads p ss j = (n : ℕ) → read_all (length ss + n) p ≡ follow ss (read_all n (at j []))

  pub read_step :
      (p q : Parser) (c : ℕ) (v : Option Text) (n : ℕ)
      → next_command p ≡ some (some (opt c v), q)
      → read_all (suc n) p ≡ follow ((c, v) ∷ []) (read_all n q)
  unfolding read_all collect follow
  read_step p q c v n e = rw e (ground arith)

  pub popped :
      (c : ℕ) (v : Option Text) (ss : List Setting) (j : ℕ)
      → next_command (at j (opt c v ∷ opts ss)) ≡ some (some (opt c v), at j (opts ss))
  unfolding next_command next_on
  popped c v ss j = refl

  pub drain : (ss : List Setting) (j : ℕ) → Reads (at j (opts ss)) ss j
  drain [] j n = let e : 0 + n ≡ n = omega arith in rw e (sym (follow_nil (read_all n (at j []))))
  drain ((c, v) ∷ ss) j n =
      let f : suc (length ss) + n ≡ suc (length ss + n) = omega arith in
      rw f (
        read_step (at j (opt c v ∷ opts ss)) (at j (opts ss)) c v (length ss + n) (popped c v ss j)
        ∙ ap (follow ((c, v) ∷ [])) (drain ss j n)
        ∙ follow_cons (c, v) ss (read_all n (at j [])))

  pub first :
      (p : Parser) (c : ℕ) (v : Option Text) (ss : List Setting) (j : ℕ)
      → next_command p ≡ some (some (opt c v), at j (opts ss))
      → Reads p ((c, v) ∷ ss) j
  first p c v ss j e n =
      let f : suc (length ss) + n ≡ suc (length ss + n) = omega arith in
      rw f (
        read_step p (at j (opts ss)) c v (length ss + n) e
        ∙ ap (follow ((c, v) ∷ [])) (drain ss j n)
        ∙ follow_cons (c, v) ss (read_all n (at j [])))

  pub follow_append :
      (ss ts : List Setting) (r : Option (List Command))
      → follow ss (follow ts r) ≡ follow (ss ++ ts) r
  follow_append [] ts r = follow_nil (follow ts r)
  follow_append (s ∷ ss) ts r =
      sym (follow_cons s ss (follow ts r))
      ∙ ap (follow (s ∷ [])) (follow_append ss ts r)
      ∙ follow_cons s (ss ++ ts) r

  pub Reads-append :
      (p : Parser) (ss ts : List Setting) (i j : ℕ)
      → Reads p ss i
      → Reads (at i []) ts j
      → Reads p (ss ++ ts) j
  Reads-append p ss ts i j f g n =
      let e : length (ss ++ ts) + n ≡ length ss + (length ts + n) =
        omega (arith, length-append ss ts) in
      rw e (f (length ts + n) ∙ ap (follow ss) (g n) ∙ follow_append ss ts (read_all n (at j [])))
