-- ===== src/Cli/Parser/Items.antt =====
-- The ways to write options on a command line, and what each of them means.
use yourfs.Base.{ℕ, Bool, true, false, List, [], ◌∷◌, ◌++◌, Option, none, some, All, ◌≡◌, ◌≢◌, ◌⊎◌}
use yourfs.Base.Text.{Text, Lacks}
use yourfs.Base.Outcome.{ok}
use yourfs.Cli.Parser.{OptSpec, Command, opt, find_short, find_long}

-- `--name`, `--name=value`, `--name value`, `-abc`, `-abXvalue` and `-abX value`. A cluster that
-- ends in a value is given as its flags, the option with the value, and the value.
pub data Item : Type 0 where
  long_flag : Text → OptSpec → Item
  long_inline long_next : Text → OptSpec → Text → Item
  flags : ℕ → List ℕ → Item
  short_inline : List ℕ → ℕ → ℕ → Text → Item
  short_next : List ℕ → ℕ → Text → Item

abbrev pub words : Item → List Text
words (long_flag name s) = (b'-' ∷ b'-' ∷ name) ∷ []
words (long_inline name s v) = (b'-' ∷ b'-' ∷ name ++ b'=' ∷ v) ∷ []
words (long_next name s v) = (b'-' ∷ b'-' ∷ name) ∷ v ∷ []
words (flags c cs) = (b'-' ∷ c ∷ cs) ∷ []
words (short_inline cs k x xs) = (b'-' ∷ cs ++ k ∷ x ∷ xs) ∷ []
words (short_next cs k v) = (b'-' ∷ cs ++ k ∷ []) ∷ v ∷ []

-- The options with their values, the flags of a cluster one by one.
abbrev pub Setting : Type 0
Setting = ℕ × Option Text

abbrev pub raised : List ℕ → List Setting
raised [] = []
raised (c ∷ cs) = (c, none) ∷ raised cs

abbrev pub settings : Item → List Setting
settings (long_flag name s) = (s.short, none) ∷ []
settings (long_inline name s v) = (s.short, some v) ∷ []
settings (long_next name s v) = (s.short, some v) ∷ []
settings (flags c cs) = raised (c ∷ cs)
settings (short_inline cs k x xs) = raised cs ++ (k, some (x ∷ xs)) ∷ []
settings (short_next cs k v) = raised cs ++ (k, some v) ∷ []

abbrev pub opts : List Setting → List Command
opts [] = []
opts (s ∷ ss) = opt s.0 s.1 ∷ opts ss

abbrev pub all_words : List Item → List Text
all_words [] = []
all_words (i ∷ is) = words i ++ all_words is

abbrev pub all_settings : List Item → List Setting
all_settings [] = []
all_settings (i ∷ is) = settings i ++ all_settings is

-- `name` names the option `s` of the table, whole or as a prefix of no other.
abbrev pub IsNamed : List OptSpec → Text → OptSpec → Bool → Type 0
IsNamed specs name s arg =
    (name ≢ []) × Lacks b'=' name × (find_long specs name ≡ ok (some s)) × (s.arg ≡ arg)

abbrev pub IsShort : List OptSpec → Bool → ℕ → Type 0
IsShort specs arg c = (s : OptSpec) × (find_short specs c ≡ some s) × (s.arg ≡ arg)

-- The first character of a cluster is no second dash.
abbrev pub StartsPlain : List ℕ → Type 0
StartsPlain [] = Unit
StartsPlain (c ∷ cs) = c ≢ b'-'

abbrev pub IsItem : List OptSpec → Item → Type 0
IsItem specs (long_flag name s) = IsNamed specs name s false
IsItem specs (long_inline name s v) = IsNamed specs name s true
IsItem specs (long_next name s v) = IsNamed specs name s true
IsItem specs (flags c cs) = (c ≢ b'-') × All (IsShort specs false) (c ∷ cs)
IsItem specs (short_inline cs k x xs) =
    StartsPlain (cs ++ k ∷ []) × All (IsShort specs false) cs × IsShort specs true k
IsItem specs (short_next cs k v) =
    StartsPlain (cs ++ k ∷ []) × All (IsShort specs false) cs × IsShort specs true k

-- Where the options end: nothing is left, or `--`, or a word that is no option.
abbrev pub Stops : List Text → Type 0
Stops [] = Unit
Stops ([] ∷ rest) = Unit
Stops ((c ∷ []) ∷ rest) = Unit
Stops ((c ∷ d ∷ cs) ∷ rest) = (c ≢ b'-') ⊎ ((c ≡ b'-') × (d ≡ b'-') × (cs ≡ []))
