-- ===== src/Cli/Parser/Clusters.antt =====
-- src/cli.rs, `Parser::next_command`: what a long option and a cluster come to.
use yourfs.Base.{
  ℕ, true, false, List, [], ◌∷◌, ◌++◌, Option, none, some, All, ◌≡◌, ◌≢◌, refl, arith, ◌∙◌, sym, ap,
  append_assoc, append-nil,
}
use yourfs.Base.Text.{Text, Lacks}
use yourfs.Base.Outcome.{ok}
use yourfs.Cli.Parser.{
  OptSpec, Command, opt, Parser, Next, split_once, find_long, long_value, long_command, long_option,
  short_value, cluster,
}
use yourfs.Cli.Parser.Items.{Setting, raised, opts, IsShort}

pub split_once-Lacks : (k : ℕ) (s : Text) → Lacks k s → split_once k s ≡ none
unfolding split_once
split_once-Lacks k [] h = refl
split_once-Lacks k (c ∷ cs) h = ground (arith, split_once-Lacks k cs h.1)

pub split_once-append : (k : ℕ) (s v : Text) → Lacks k s → split_once k (s ++ k ∷ v) ≡ some (s, v)
unfolding split_once
split_once-append k [] v h = ground arith
split_once-append k (c ∷ cs) v h = let e = split_once-append k cs v h.1 in rw (e, h.0) refl

pub long_command_found :
    (name : Text) (inline : Option Text) (s : OptSpec) (p : Parser)
    → find_long p.specs name ≡ ok (some s)
    → long_command name inline p ≡ long_value name inline s p
unfolding long_command
long_command_found name inline s p e = rw (e, long_command) refl

pub long_option_plain :
    (again : Parser → Next) (name : Text) (s : OptSpec) (p : Parser)
    → name ≢ []
    → Lacks b'=' name
    → find_long p.specs name ≡ ok (some s)
    → long_option again name p ≡ some (long_value name none s p)
unfolding long_option
long_option_plain again [] s p h l e = absurd (h refl)
long_option_plain again (c ∷ cs) s p h l e =
    rw (split_once-Lacks b'=' (c ∷ cs) l, long_option)
      (ap some (long_command_found (c ∷ cs) none s p e))

pub long_option_inline :
    (again : Parser → Next) (name v : Text) (s : OptSpec) (p : Parser)
    → name ≢ []
    → Lacks b'=' name
    → find_long p.specs name ≡ ok (some s)
    → long_option again (name ++ b'=' ∷ v) p ≡ some (long_value name (some v) s p)
unfolding long_option
long_option_inline again [] v s p h l e = absurd (h refl)
long_option_inline again (c ∷ cs) v s p h l e =
    rw (split_once-append b'=' (c ∷ cs) v l, long_option)
      (ap some (long_command_found (c ∷ cs) (some v) s p e))

pub cluster_flag :
    (again : Parser → Next) (c : ℕ) (cs : List ℕ) (p : Parser)
    → IsShort p.specs false c
    → cluster again (c ∷ cs) p
      ≡ cluster again cs (record p { pending = p.pending ++ opt c none ∷ [] })
unfolding cluster
cluster_flag again c cs p (s, f, a) = rw (f, cluster) (rw (a, cluster) refl)

-- A cluster moves its flags to `pending`.
pub cluster_flags :
    (again : Parser → Next) (cs rest : List ℕ) (p : Parser)
    → All (IsShort p.specs false) cs
    → cluster again (cs ++ rest) p
      ≡ cluster again rest (record p { pending = p.pending ++ opts (raised cs) })
unfolding cluster
cluster_flags again [] rest p h =
    ap (λ (l : List Command). cluster again rest (record p { pending = l }))
      (sym (append-nil p.pending))
cluster_flags again (c ∷ cs) rest p (f, h) =
    let q : Parser = record p { pending = p.pending ++ opt c none ∷ [] } in
    cluster_flag again c (cs ++ rest) p f
    ∙ cluster_flags again cs rest q h
    ∙ ap (λ (l : List Command). cluster again rest (record p { pending = l }))
        (append_assoc p.pending (opt c none ∷ []) (opts (raised cs)))

pub cluster_value :
    (again : Parser → Next) (k : ℕ) (v : Text) (p : Parser)
    → IsShort p.specs true k
    → cluster again (k ∷ v) p ≡ some (short_value k v p)
unfolding cluster
cluster_value again k v p (s, f, a) = rw (f, cluster) (rw (a, cluster) refl)

pub opts-raised :
    (cs : List ℕ) (s : Setting) → opts (raised cs) ++ opt s.0 s.1 ∷ [] ≡ opts (raised cs ++ s ∷ [])
opts-raised [] s = refl
opts-raised (c ∷ cs) s = ap (λ (l : List Command). opt c none ∷ l) (opts-raised cs s)
