-- ===== src/Cli/Parser/Progress.antt =====
-- src/cli.rs: the loop over the options of a command line ends.
use yourfs.Base.{
  ℕ, zero, suc, ◌+◌, ◌≤◌, ◌<◌, true, List, [], ◌∷◌, ◌++◌, Option, none, some, length, drop,
  get_elem?, length-append, ◌≡◌, refl, arith, ◌⊎◌, inl, inr, Option-cases, Bool-cases, sym,
}
use mathlib.Core.Path.{subst}
use yourfs.Base.Text.{Text, codes}
use yourfs.Base.Outcome.{ok, err}
use yourfs.Cli.Parser.Steps.{
  short_value_last, short_value_next, word_long, word_short, word_plain, next_word_end,
  next_word_at, next_on_empty,
}
use yourfs.Cli.Parser.{
  OptSpec, Command, opt, unknown, Parser, new, Next, strip_prefix, find_long, long_value,
  long_command, long_option, pop_front, flush, short_value, cluster, word, next_word, next_on,
  next_command, read_all, collect, flags_of,
}

-- The characters of the arguments from the one at an index on, and one for each argument.
abbrev pub cost : List Text → ℕ
cost [] = 0
cost (a ∷ rest) = suc (length a) + cost rest

left : List Text → ℕ → ℕ
left args i = cost (drop i args)

-- What is left to read.
abbrev size : Parser → ℕ
size p = length p.queue + length p.pending + left p.args p.idx

-- A step returns, and an option that it returns leaves less than `m` to read.
abbrev Progress : ℕ → Next → Type 0
Progress m none = ⊥
Progress m (some (none, q)) = Unit
Progress m (some (some (unknown e), q)) = Unit
Progress m (some (some (opt k v), q)) = size q < m

left-suc :
    (l : List Text) (i : ℕ)
    → (left l (suc i) ≤ left l i)
      × ((a : Text) → get_elem? l i ≡ some a → left l i ≡ suc (length a) + left l (suc i))
unfolding left
left-suc [] i = (ground arith, λ a h. cc)
left-suc (x ∷ l) zero = (ground arith, λ a h. ground arith)
left-suc (x ∷ l) (suc i) = left-suc l i

left_at :
    (l : List Text) (i : ℕ) (a : Text)
    → get_elem? l i ≡ some a
    → left l i ≡ suc (length a) + left l (i + 1)
left_at l i a h = let e : i + 1 ≡ suc i = omega arith in rw e ((left-suc l i).1 a h)

left_next : (l : List Text) (i : ℕ) → left l (i + 1) ≤ left l i
left_next l i = let e : i + 1 ≡ suc i = omega arith in rw e (left-suc l i).0

long_value-Progress :
    (m : ℕ) (name : Text) (inline : Option Text) (s : OptSpec) (p : Parser)
    → size p < m
    → Progress m (some (long_value name inline s p))
unfolding long_value
long_value-Progress m name inline s p h = ground (arith, left_next p.args p.idx)

long_command-Progress :
    (m : ℕ) (name : Text) (inline : Option Text) (p : Parser)
    → size p < m
    → Progress m (some (long_command name inline p))
unfolding long_command
long_command-Progress m name inline p h =
    elim (find_long p.specs name)
      as (λ f. Progress m (
        some (elim f [
          | err msg ↦ (some (unknown msg), p)
          | ok found ↦ elim found [
            | none ↦ (some (unknown (codes "--" ++ name)), p)
            | some s ↦ long_value name inline s p
          ]
        ]))) [ err msg ↦ tt | ok none ↦ tt | ok (some s) ↦ long_value-Progress m name inline s p h ]

-- With options off and nothing queued, the call on itself ends the command line.
again_done :
    (m n : ℕ) (p : Parser) → p.queue ≡ [] → Progress m (next_on (suc n) (record p { done = true }))
unfolding next_on next_word
again_done m n p h = ground arith

long_option-Progress :
    (m n : ℕ) (rest : Text) (p : Parser)
    → p.queue ≡ []
    → size p < m
    → Progress m (long_option (λ q. next_on (suc n) q) rest p)
unfolding long_option
long_option-Progress m n [] p e h = again_done m n p e
long_option-Progress m n (c ∷ cs) p e h = ground (
  arith,
  long_command-Progress m (c ∷ cs) none p h,
  λ (r : Text × Text). long_command-Progress m r.0 (some r.1) p h,
)

flush-Progress :
    (m c : ℕ) (v : Text) (p : Parser)
    → length p.queue + length p.pending + left p.args (p.idx + 1) < m
    → Progress m (some (flush c v p))
unfolding flush pop_front
flush-Progress m c v p h = ground (
  arith,
  length-append (p.queue ++ p.pending) (opt c (some v) ∷ []),
  length-append p.queue p.pending,
)

along : (m : ℕ) {a b : Next} → a ≡ b → Progress m b → Progress m a
along m e h = subst (Progress m) (sym e) h

short_value-Progress :
    (m c : ℕ) (cs : Text) (p : Parser)
    → length p.queue + length p.pending + left p.args (p.idx + 1) < m
    → Progress m (some (short_value c cs p))
unfolding short_value
short_value-Progress m c (x ∷ xs) p h = flush-Progress m c (x ∷ xs) p h
short_value-Progress m c [] p h = elim (Option-cases (get_elem? p.args (p.idx + 1))) [
  | inl e ↦ along m (short_value_last c p e) tt
  | inr (v, e) ↦ along m (short_value_next c v p e) (
      flush-Progress m c v (record p { idx = p.idx + 1 })
        (omega (arith, left_next p.args (p.idx + 1))))
]

-- The call on itself at the end of a cluster takes the first flag from the queue.
again_queued :
    (m n : ℕ) (p : Parser) → size p ≤ m → 0 < length p.queue → Progress m (next_on (suc n) p)
unfolding next_on
again_queued m n p h e = ground arith

cluster-Progress :
    (m n : ℕ) (flags : Text) (p : Parser)
    → length p.queue + length p.pending + length flags + left p.args (p.idx + 1) ≤ m
    → 0 < length p.pending + length flags
    → Progress m (cluster (λ q. next_on (suc n) q) flags p)
unfolding cluster
cluster-Progress m n [] p h e =
    again_queued m n (record p { idx = p.idx + 1; pending = []; queue = p.queue ++ p.pending })
      (omega (arith, length-append p.queue p.pending))
      (omega (arith, length-append p.queue p.pending))
cluster-Progress m n (c ∷ cs) p h e =
    let q : Parser = record p { pending = p.pending ++ opt c none ∷ [] } in
    let more = length-append p.pending (opt c none ∷ []) in
    ground (
      arith,
      short_value-Progress m c cs p (omega arith),
      cluster-Progress m n cs q (omega (arith, more)) (omega (arith, more)),
    )

flags_of-length :
    (a flags : Text) → flags_of a ≡ some flags → (length flags < length a) × (0 < length flags)
unfolding flags_of
flags_of-length (d ∷ c ∷ cs) flags h = ground arith
flags_of-length _ flags h = cc

word-Progress :
    (n : ℕ) (a : Text) (p : Parser)
    → p.queue ≡ []
    → get_elem? p.args p.idx ≡ some a
    → Progress (size p) (word (λ q. next_on (suc n) q) a p)
word-Progress n a p e h =
    let at = left_at p.args p.idx a h in
    elim (Option-cases (strip_prefix (codes "--") a)) [
      | inr (rest, s) ↦ along (size p) (word_long (λ q. next_on (suc n) q) a rest p s) (
          long_option-Progress (size p) n rest (record p { idx = p.idx + 1 }) e (omega (arith, at)))
      | inl s ↦ elim (Option-cases (flags_of a)) [
        | inr (flags, f) ↦ along (size p) (word_short (λ q. next_on (suc n) q) a flags p s f) (
            cluster-Progress (size p) n flags p (omega (arith, at, flags_of-length a flags f))
              (omega (arith, flags_of-length a flags f)))
        | inl f ↦
            along (size p) (word_plain (λ q. next_on (suc n) q) a p s f) (again_done (size p) n p e)
      ]
    ]

next_word-Progress :
    (n : ℕ) (p : Parser) → p.queue ≡ [] → Progress (size p) (next_word (λ q. next_on (suc n) q) p)
next_word-Progress n p e =
    let again = λ (q : Parser). next_on (suc n) q in
    elim (Bool-cases p.done) [
      | inl d ↦ along (size p) (next_word_end again p (inl d)) tt
      | inr d ↦ elim (Option-cases (get_elem? p.args p.idx)) [
        | inl g ↦ along (size p) (next_word_end again p (inr g)) tt
        | inr (a, g) ↦ along (size p) (next_word_at again a p d g) (word-Progress n a p e g)
      ]
    ]

empty_or_not : {A : Type 0} (l : List A) → (l ≡ []) ⊎ (0 < length l)
empty_or_not [] = inl refl
empty_or_not (x ∷ l) = inr (omega arith)

-- One call of `next_command` covers its calls of itself, and an option that it returns makes the
-- rest of the command line smaller.
next_command-Progress : (p : Parser) → Progress (size p) (next_command p)
unfolding next_command
next_command-Progress p = elim (empty_or_not p.queue) [
  | inl e ↦ along (size p) (next_on_empty 1 p e) (next_word-Progress 0 p e)
  | inr h ↦ again_queued (size p) 1 p (omega arith) h
]

collect-some :
    (m : ℕ) (rest : Parser → Option (List Command)) (r : Next)
    → Progress m r
    → ((q : Parser) → size q < m → (cs : List Command) × (rest q ≡ some cs))
    → (cs : List Command) × (collect rest r ≡ some cs)
unfolding collect
collect-some m rest none h k = ground arith
collect-some m rest (some (none, q)) h k = ([], refl)
collect-some m rest (some (some (unknown e), q)) h k = (unknown e ∷ [], refl)
collect-some m rest (some (some (opt c v), q)) h k =
    let (cs, e) = k q h in (opt c v ∷ cs, rw (e, collect) refl)

read_on : (n : ℕ) (p : Parser) → size p < n → (cs : List Command) × (read_all n p ≡ some cs)
unfolding read_all
read_on zero p h = ground arith
read_on (suc n) p h =
    collect-some (size p) (λ q. read_all n q) (next_command p) (next_command-Progress p)
      (λ q l. read_on n q (omega arith))

-- The loop over the options of any command line ends, for any table of options: one round more
-- than the line has arguments and characters is enough.
pub read_all-new :
    (specs : List OptSpec) (args : List Text)
    → (cs : List Command) × (read_all (suc (cost args)) (new specs args) ≡ some cs)
unfolding new left
read_all-new specs args = read_on (suc (cost args)) (new specs args) (omega arith)
