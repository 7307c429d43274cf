-- ===== src/Cli/Parser/OneItem.antt =====
-- src/cli.rs: the option parser reads one item.
use yourfs.Base.{
  ℕ, ◌+◌, true, false, List, [], ◌∷◌, ◌++◌, none, some, length, All, ◌≡◌, ◌≢◌, refl, arith,
  get_elem?, ◌∙◌, sym, ap, append-nil,
}
use yourfs.Base.Text.{Text}
use yourfs.Cli.Parser.{
  OptSpec, Command, Parser, strip_prefix, long_value, flush, pop_front, short_value, cluster,
  next_on, next_command, flags_of,
}
use yourfs.Cli.Parser.Steps.{word_long, word_short, short_value_next}
use yourfs.Cli.Parser.Items.{
  Item, long_flag, long_inline, long_next, flags, short_inline, short_next, words, Setting, raised,
  settings, opts, IsNamed, IsShort, StartsPlain, IsItem,
}
use yourfs.Cli.Parser.Clusters.{
  long_option_plain, long_option_inline, cluster_flags, cluster_value, opts-raised,
}
use yourfs.Cli.Parser.Reads.{at, enter, Reads, first}

module _ (specs : List OptSpec) (args : List Text) where
  pub read_long :
      (k : ℕ) (name : Text) (s : OptSpec)
      → get_elem? args k ≡ some (b'-' ∷ b'-' ∷ name)
      → IsNamed specs name s false
      → Reads specs args (at specs args k []) ((s.short, none) ∷ []) (k + 1)
  unfolding strip_prefix long_value
  read_long k name s g (h, l, e, a) =
      first specs args (at specs args k []) s.short none [] (k + 1) (
        enter specs args k (b'-' ∷ b'-' ∷ name) g
        ∙ word_long (λ q. next_on 1 q) (b'-' ∷ b'-' ∷ name) name (at specs args k []) refl
        ∙ long_option_plain (λ q. next_on 1 q) name s (at specs args (k + 1) []) h l e
        ∙ rw a refl)

  pub read_long-next :
      (k : ℕ) (name v : Text) (s : OptSpec)
      → get_elem? args k ≡ some (b'-' ∷ b'-' ∷ name)
      → get_elem? args (k + 1) ≡ some v
      → IsNamed specs name s true
      → Reads specs args (at specs args k []) ((s.short, some v) ∷ []) ((k + 1) + 1)
  unfolding strip_prefix long_value
  read_long-next k name v s g i (h, l, e, a) =
      first specs args (at specs args k []) s.short (some v) [] ((k + 1) + 1) (
        enter specs args k (b'-' ∷ b'-' ∷ name) g
        ∙ word_long (λ q. next_on 1 q) (b'-' ∷ b'-' ∷ name) name (at specs args k []) refl
        ∙ long_option_plain (λ q. next_on 1 q) name s (at specs args (k + 1) []) h l e
        ∙ rw (a, i) refl)

  pub read_long-inline :
      (k : ℕ) (name v : Text) (s : OptSpec)
      → get_elem? args k ≡ some (b'-' ∷ b'-' ∷ name ++ b'=' ∷ v)
      → IsNamed specs name s true
      → Reads specs args (at specs args k []) ((s.short, some v) ∷ []) (k + 1)
  unfolding strip_prefix long_value
  read_long-inline k name v s g (h, l, e, a) =
      let w = b'-' ∷ b'-' ∷ name ++ b'=' ∷ v in
      first specs args (at specs args k []) s.short (some v) [] (k + 1) (
        enter specs args k w g
        ∙ word_long (λ q. next_on 1 q) w (name ++ b'=' ∷ v) (at specs args k []) refl
        ∙ long_option_inline (λ q. next_on 1 q) name v s (at specs args (k + 1) []) h l e
        ∙ rw a refl)

  -- A word of one dash is a cluster.
  pub enter_cluster :
      (k c : ℕ) (cs : List ℕ)
      → get_elem? args k ≡ some (b'-' ∷ c ∷ cs)
      → c ≢ b'-'
      → next_command (at specs args k []) ≡ cluster (λ q. next_on 1 q) (c ∷ cs) (at specs args k [])
  unfolding strip_prefix flags_of
  enter_cluster k c cs g h =
      enter specs args k (b'-' ∷ c ∷ cs) g
      ∙ word_short (λ q. next_on 1 q) (b'-' ∷ c ∷ cs) (c ∷ cs) (at specs args k []) (ground arith)
          refl

  pub read_flags :
      (k c : ℕ) (cs : List ℕ)
      → get_elem? args k ≡ some (b'-' ∷ c ∷ cs)
      → c ≢ b'-'
      → All (IsShort specs false) (c ∷ cs)
      → Reads specs args (at specs args k []) (raised (c ∷ cs)) (k + 1)
  unfolding cluster next_on
  read_flags k c cs g h a = first specs args (at specs args k []) c none (raised cs) (k + 1) (
      enter_cluster k c cs g h
      ∙ ap (λ (l : List ℕ). cluster (λ q. next_on 1 q) l (at specs args k []))
          (sym (append-nil (c ∷ cs)))
      ∙ cluster_flags (λ q. next_on 1 q) (c ∷ cs) [] (at specs args k []) a)

  pub enter_value :
      (i : ℕ) (cs : List ℕ) (k : ℕ) (v : Text)
      → get_elem? args i ≡ some (b'-' ∷ cs ++ k ∷ v)
      → StartsPlain (cs ++ k ∷ [])
      → All (IsShort specs false) cs
      → IsShort specs true k
      → next_command (at specs args i [])
        ≡ some (short_value k v (record (at specs args i []) { pending = opts (raised cs) }))
  enter_value i [] k v g h a b =
      enter_cluster i k v g h ∙ cluster_value (λ q. next_on 1 q) k v (at specs args i []) b
  enter_value i (c ∷ cs) k v g h a b =
      enter_cluster i c (cs ++ k ∷ v) g h
      ∙ cluster_flags (λ q. next_on 1 q) (c ∷ cs) (k ∷ v) (at specs args i []) a
      ∙ cluster_value (λ q. next_on 1 q) k v
          (record (at specs args i []) { pending = opts (raised (c ∷ cs)) }) b

  pub flushed :
      (i : ℕ) (cs : List ℕ) (k : ℕ) (v : Text)
      → flush k v (record (at specs args i []) { pending = opts (raised cs) })
        ≡ pop_front (at specs args (i + 1) (opts (raised cs ++ (k, some v) ∷ [])))
  unfolding flush
  flushed i cs k v =
      ap (λ (l : List Command). pop_front (at specs args (i + 1) l)) (opts-raised cs (k, some v))

  pub first_of :
      (p : Parser) (cs : List ℕ) (s : Setting) (j : ℕ)
      → next_command p ≡ some (pop_front (at specs args j (opts (raised cs ++ s ∷ []))))
      → Reads specs args p (raised cs ++ s ∷ []) j
  unfolding pop_front
  first_of p [] s j e = first specs args p s.0 s.1 [] j e
  first_of p (c ∷ cs) s j e = first specs args p c none (raised cs ++ s ∷ []) j e

  pub read_short-inline :
      (i : ℕ) (cs : List ℕ) (k x : ℕ) (xs : Text)
      → get_elem? args i ≡ some (b'-' ∷ cs ++ k ∷ x ∷ xs)
      → IsItem specs (short_inline cs k x xs)
      → Reads specs args (at specs args i []) (settings (short_inline cs k x xs)) (i + 1)
  unfolding short_value
  read_short-inline i cs k x xs g (h, a, b) =
      first_of (at specs args i []) cs (k, some (x ∷ xs)) (i + 1)
        (enter_value i cs k (x ∷ xs) g h a b ∙ ap some (flushed i cs k (x ∷ xs)))

  pub read_short-next :
      (i : ℕ) (cs : List ℕ) (k : ℕ) (v : Text)
      → get_elem? args i ≡ some (b'-' ∷ cs ++ k ∷ [])
      → get_elem? args (i + 1) ≡ some v
      → IsItem specs (short_next cs k v)
      → Reads specs args (at specs args i []) (settings (short_next cs k v)) ((i + 1) + 1)
  read_short-next i cs k v g f (h, a, b) =
      first_of (at specs args i []) cs (k, some v) ((i + 1) + 1)
        (enter_value i cs k [] g h a b
          ∙ short_value_next k v (record (at specs args i []) { pending = opts (raised cs) }) f
          ∙ ap some (flushed (i + 1) cs k v))

  pub two :
      (i : ℕ) (p : Parser) (ss : List Setting)
      → Reads specs args p ss ((i + 1) + 1)
      → Reads specs args p ss (i + 2)
  two i p ss r n = let e : i + 2 ≡ (i + 1) + 1 = omega arith in rw e (r n)

  pub at_start : (i : ℕ) (w : Text) → get_elem? args (i + 0) ≡ some w → get_elem? args i ≡ some w
  at_start i w g = let e : i ≡ i + 0 = omega arith in rw e g

  -- The words of an item stand at an argument, and the next item at another.
  abbrev pub Stands : Item → ℕ → Type 0
  Stands item i =
      (j : ℕ) (w : Text) → get_elem? (words item) j ≡ some w → get_elem? args (i + j) ≡ some w

  pub read_item :
      (item : Item) (i : ℕ)
      → Stands item i
      → IsItem specs item
      → Reads specs args (at specs args i []) (settings item) (i + length (words item))
  read_item (long_flag name s) i g h = read_long i name s (at_start i _ (g 0 _ refl)) h
  read_item (long_inline name s v) i g h = read_long-inline i name v s (at_start i _ (g 0 _ refl)) h
  read_item (long_next name s v) i g h =
      two i (at specs args i []) _
        (read_long-next i name v s (at_start i _ (g 0 _ refl)) (g 1 _ refl) h)
  read_item (flags c cs) i g h = read_flags i c cs (at_start i _ (g 0 _ refl)) h.0 h.1
  read_item (short_inline cs k x xs) i g h =
      read_short-inline i cs k x xs (at_start i _ (g 0 _ refl)) h
  read_item (short_next cs k v) i g h =
      two i (at specs args i []) _
        (read_short-next i cs k v (at_start i _ (g 0 _ refl)) (g 1 _ refl) h)
