-- ===== src/Db/Redis/Pattern.antt =====
-- src/db.rs: the SCAN pattern of a table is a literal prefix and a star.
use yourfs.Base.{
  ℕ, Bool, true, false, ◌||◌, [], ◌∷◌, ◌++◌, any, all, ◌==◌, ◌≡◌, refl, sym, arith, append_assoc,
}
use yourfs.Base.Text.{Text, is_ascii_alphanumeric}
use yourfs.Db.Keys.{check_ident}
use yourfs.Db.Redis.{pattern}
use yourfs.Db.Redis.Laws.{is_glob, IsLiteral}

all-any :
    (f g : ℕ → Bool) (s : Text)
    → ((c : ℕ) → f c ≡ true → g c ≡ false)
    → all f s ≡ true
    → any g s ≡ false
all-any f g [] h e = refl
all-any f g (c ∷ cs) h e =
    let a : f c ≡ true = ground (arith, e) in
    let b : all f cs ≡ true = ground (arith, e) in rw (h c a, all-any f g cs h b)

pub any-append : (g : ℕ → Bool) (s t : Text) → any g (s ++ t) ≡ (any g s || any g t)
any-append g [] t = refl
any-append g (c ∷ cs) t = ground (arith, any-append g cs t)

abbrev is_word : ℕ → Bool
is_word c = is_ascii_alphanumeric c || c == b'_'

word_glob : (c : ℕ) → is_word c ≡ true → is_glob c ≡ false
unfolding is_ascii_alphanumeric
word_glob c e = ground arith

pub check_ident-IsLiteral :
    (table : Text) → check_ident table ≡ true → IsLiteral (table ++ b'|' ∷ [])
unfolding check_ident is_ascii_alphanumeric
check_ident-IsLiteral table h =
    let plain = all-any is_word is_glob table (λ c e. word_glob c e) (ground arith) in
    rw (any-append is_glob table (b'|' ∷ []), plain) refl

pub shaped : (table : Text) → pattern table ≡ (table ++ b'|' ∷ []) ++ b'*' ∷ []
unfolding pattern
shaped table = sym (append_assoc table (b'|' ∷ []) (b'*' ∷ []))
