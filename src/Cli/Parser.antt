-- ===== src/Cli/Parser.antt =====
-- src/cli.rs: `OptSpec`, `Command` and `Parser`.
pub mod Steps
pub mod Progress
pub mod Items
pub mod Clusters
pub mod Reads
pub mod OneItem
pub mod Readback
use yourfs.Base.{
  ℕ, zero, suc, ◌+◌, Bool, true, false, ◌&&◌, List, [], ◌∷◌, ◌++◌, Option, none, some, ◌==◌,
  if◌then◌else◌, get_elem?,
}
use yourfs.Base.Text.{Text, codes, text_eq}
use yourfs.Base.Outcome.{Outcome, ok, err}

pub record OptSpec : Type 0 where
  pub short : ℕ
  pub long : Text
  pub arg : Bool

-- `Command::Opt` and `Command::Unknown`.
pub data Command : Type 0 where
  opt : ℕ → Option Text → Command
  unknown : Text → Command

pub record Parser : Type 0 where
  pub specs : List OptSpec
  pub args : List Text
  pub idx : ℕ
  pub done : Bool
  pub pending : List Command
  pub queue : List Command

unfoldable pub new : List OptSpec → List Text → Parser
new specs args = record {
  specs = specs;
  args = args;
  idx = 0;
  done = false;
  pending = [];
  queue = [];
}

-- `str::strip_prefix`, `str::starts_with` and `str::split_once`.
unfoldable pub strip_prefix : Text → Text → Option Text
strip_prefix [] s = some s
strip_prefix (c ∷ cs) [] = none
strip_prefix (c ∷ cs) (x ∷ xs) = let rest = strip_prefix cs xs in if c == x then rest else none

unfoldable pub starts_with : Text → Text → Bool
starts_with s prefix = elim (strip_prefix prefix s) [ some rest ↦ true | none ↦ false ]

unfoldable pub split_once : ℕ → Text → Option (Text × Text)
split_once k [] = none
split_once k (c ∷ cs) =
    let rest = split_once k cs in
    if c == k then some ([], cs) else (elim rest [ some r ↦ some (c ∷ r.0, r.1) | none ↦ none ])

unfoldable pub find_short : List OptSpec → ℕ → Option OptSpec
find_short [] c = none
find_short (s ∷ ss) c = let rest = find_short ss c in if s.short == c then some s else rest

unfoldable pub find_exact : List OptSpec → Text → Option OptSpec
find_exact [] name = none
find_exact (s ∷ ss) name =
    let rest = find_exact ss name in if text_eq s.long name then some s else rest

-- The options that `name` is a prefix of; the empty name is none's.
unfoldable pub hits : List OptSpec → Text → List OptSpec
hits ss [] = []
hits [] (c ∷ cs) = []
hits (s ∷ ss) (c ∷ cs) =
    let rest = hits ss (c ∷ cs) in if starts_with s.long (c ∷ cs) then s ∷ rest else rest

unfoldable pub find_long : List OptSpec → Text → Outcome Text (Option OptSpec)
unfolding find_exact hits
find_long specs name = elim (find_exact specs name) [
  | some s ↦ ok (some s)
  | none ↦ elim (hits specs name) [
    | [] ↦ ok none
    | s ∷ more ↦ elim more [
      | [] ↦ ok (some s)
      | t ∷ ts ↦ err (codes "option '--" ++ name ++ codes "' is ambiguous")
    ]
  ]
]

-- An option that wants a value takes the one after `=`, or the next argument. `p` is past the option.
unfoldable pub long_value : Text → Option Text → OptSpec → Parser → Option Command × Parser
long_value name inline s p =
    if s.arg
    then (elim inline [
      | some v ↦ (some (opt s.short (some v)), p)
      | none ↦ elim (get_elem? p.args p.idx) [
        | some v ↦ (some (opt s.short (some v)), record p { idx = p.idx + 1 })
        | none ↦ (some (unknown (codes "--" ++ name ++ codes " requires an argument")), p)
      ]
    ])
    else (some (opt s.short none), p)

unfoldable pub long_command : Text → Option Text → Parser → Option Command × Parser
unfolding long_value
long_command name inline p = elim (find_long p.specs name) [
  | err msg ↦ (some (unknown msg), p)
  | ok found ↦ elim found [
    | none ↦ (some (unknown (codes "--" ++ name)), p)
    | some s ↦ long_value name inline s p
  ]
]

-- What a step returns; `none` is a recursion that the fuel does not cover.
abbrev pub Next : Type 0
Next = Option (Option Command × Parser)

-- A long option, without its dashes. `again` is the call of `next_command` on itself.
unfoldable pub long_option : (Parser → Next) → Text → Parser → Next
unfolding long_command
long_option again [] p = again (record p { done = true })
long_option again (c ∷ cs) p = elim (split_once b'=' (c ∷ cs)) [
  | some r ↦ some (long_command r.0 (some r.1) p)
  | none ↦ some (long_command (c ∷ cs) none p)
]

-- The queue has an element here, so `unwrap` does not panic.
unfoldable pub pop_front : Parser → Option Command × Parser
pop_front p = elim p.queue [ c ∷ rest ↦ (some c, record p { queue = rest }) | [] ↦ (none, p) ]

-- The flags before an option with a value are returned ahead of it.
unfoldable pub flush : ℕ → Text → Parser → Option Command × Parser
unfolding pop_front
flush c v p = pop_front (record p {
  idx = p.idx + 1;
  pending = [];
  queue = (p.queue ++ p.pending) ++ opt c (some v) ∷ [];
})

unfoldable pub short_value : ℕ → Text → Parser → Option Command × Parser
unfolding flush
short_value c (x ∷ xs) p = flush c (x ∷ xs) p
short_value c [] p = elim (get_elem? p.args (p.idx + 1)) [
  | some v ↦ flush c v (record p { idx = p.idx + 1 })
  | none ↦ (some (unknown (b'-' ∷ c ∷ codes " requires an argument")), p)
]

-- The loop over the characters of a cluster.
unfoldable pub cluster : (Parser → Next) → Text → Parser → Next
unfolding short_value
cluster again [] p =
    again (record p { idx = p.idx + 1; pending = []; queue = p.queue ++ p.pending })
cluster again (c ∷ cs) p = elim (find_short p.specs c) [
  | none ↦ some (some (unknown (b'-' ∷ c ∷ [])), p)
  | some s ↦ elim s.arg [
    | true ↦ some (short_value c cs p)
    | false ↦ cluster again cs (record p { pending = p.pending ++ opt c none ∷ [] })
  ]
]

-- The characters after the dash of a word that is longer than the dash.
unfoldable pub flags_of : Text → Option Text
flags_of [] = none
flags_of (d ∷ []) = none
flags_of (d ∷ c ∷ cs) = if d == b'-' then some (c ∷ cs) else none

unfoldable pub word : (Parser → Next) → Text → Parser → Next
unfolding long_option
word again a p = elim (strip_prefix (codes "--") a) [
  | some rest ↦ long_option again rest (record p { idx = p.idx + 1 })
  | none ↦ elim (flags_of a) [
    | some flags ↦ cluster again flags p
    | none ↦ again (record p { done = true })
  ]
]

unfoldable pub next_word : (Parser → Next) → Parser → Next
unfolding word
next_word again p =
    if p.done
    then some (none, p)
    else (elim (get_elem? p.args p.idx) [ some a ↦ word again a p | none ↦ some (none, p) ])

-- `next_command`, with its calls of itself counted.
unfoldable pub next_on : ℕ → Parser → Next
unfolding next_word
next_on zero p = none
next_on (suc n) p = elim p.queue [
  | c ∷ rest ↦ some (some c, record p { queue = rest })
  | [] ↦ next_word (λ q. next_on n q) p
]

unfoldable pub next_command : Parser → Next
next_command p = next_on 2 p

-- The body of `while let Some(cmd) = p.next_command()`, which leaves the loop at an unknown option.
unfoldable pub collect : (Parser → Option (List Command)) → Next → Option (List Command)
collect rest none = none
collect rest (some (none, q)) = some []
collect rest (some (some (unknown msg), q)) = some (unknown msg ∷ [])
collect rest (some (some (opt k v), q)) = elim (rest q) [
  | some cs ↦ some (opt k v ∷ cs)
  | none ↦ none
]

-- The loop; `none` is more rounds than the fuel covers.
unfoldable pub read_all : ℕ → Parser → Option (List Command)
read_all zero p = none
read_all (suc n) p = collect (λ q. read_all n q) (next_command p)
