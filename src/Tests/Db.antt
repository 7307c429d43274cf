-- ===== src/Tests/Db.antt =====
-- Tests of the cache, the retry and the keys of src/db.rs.
use yourfs.Base.{
  ℕ, suc, ◌+◌, true, false, List, [], ◌∷◌, some, if◌then◌else◌, All, ◌==◌, ◌≡◌, ◌≢◌, refl, arith,
}
use yourfs.Base.Text.{codes, is_ascii_alphanumeric}
use yourfs.Base.Outcome.{ok, err}
use yourfs.Db.Cache.{Database, Cached, resolve, get, empty}
use yourfs.Db.Cache.Transparent.{
  IsStatic, Query, resolves, lists, ask_all, AllRight, ask_all-AllRight,
}
use yourfs.Db.Pool.{try_get, give_back}
use yourfs.Db.Retry.{
  rows, failed, Server, answer, overflow, State, query_retry, round, get as checkout,
}
use yourfs.Db.Retry.Slots.{Balanced, query_retry-Balanced}
use yourfs.Db.Retry.Queries.{Counts}
use yourfs.Db.Keys.{
  check_ident, dir_key, hash_key, urlencode, as_bytes, redis_url, split, utf8, encode_bytes,
  encode_byte, hex_digit,
}
use yourfs.Db.Keys.Distinct.{keys_distinct}
use yourfs.Db.Keys.Encoding.{IsSafe, decode, urlencode-IsSafe}

-- A database that fails on its first query, and then answers; it counts its queries.
abbrev moody : Database ℕ
moody = record {
  resolve = λ t p w. if 0 == w then (err (codes "down"), suc w) else (ok (some p), suc w);
  list = λ t p w. (ok (p ∷ []), suc w);
  check_table = λ t w. (ok tt, w);
}

moody-IsStatic : IsStatic moody (codes "data") (λ p. some p) (λ p. p ∷ [])
moody-IsStatic = record { resolves = λ p w v e. ground arith; lists = λ p w v e. ground arith }

abbrev queries : List Query
queries =
    resolves (codes "/a") ∷ resolves (codes "/a") ∷ resolves (codes "/a") ∷ lists (codes "/") ∷ []

ask_all-AllRight_example :
    AllRight moody
      (codes "data")
      (λ p. some p)
      (λ p. p ∷ [])
      queries
      (ask_all moody (codes "data") queries (empty 0))
ask_all-AllRight_example =
    ask_all-AllRight moody (codes "data") (λ p. some p) (λ p. p ∷ []) moody-IsStatic queries 0

-- The entry of one table is given out for another.
abbrev filled : Cached ℕ
filled = record { paths = (codes "/a", some (codes "/a")) ∷ []; dirs = []; inner = 2 }

-- The socket is dead at the first query. The world counts the queries.
abbrev blip : Server ℕ ℕ
blip = record {
  make = λ w. (ok 5, w);
  query = λ c w. if 0 == w then (failed true (codes "broken pipe"), w + 1) else (rows 9, w + 1);
}

abbrev before : State ℕ
before = record { pool = record { idle = 3 ∷ []; created = 2 }; world = 0 }

blip_hidden :
    query_retry 8 blip before
    ≡ (answer 9, record { pool = record { idle = 5 ∷ []; created = 2 }; world = 2 })
unfolding query_retry round checkout try_get give_back
blip_hidden = refl

query_retry-Balanced_example :
    Balanced {A = ℕ} 8 1 blip (query_retry 8 blip before).1
    × ((query_retry 8 blip before).0 ≢ overflow)
query_retry-Balanced_example = query_retry-Balanced 8 1 blip before refl

blip-Counts : Counts blip (λ w. w)
blip-Counts = record { makes = λ w. refl; queries = λ c w. ground arith }

idents :
    (check_ident (codes "data_1") ≡ true)
    × (check_ident (codes "a;b") ≡ false)
    × (check_ident [] ≡ false)
unfolding check_ident is_ascii_alphanumeric
idents = (refl, refl, refl)

urls :
    (redis_url (codes "redis://h/1") ≡ codes "redis://h/1")
    × (redis_url (codes "h:1") ≡ codes "redis://h:1/0")
    × (redis_url (codes "h,1") ≡ codes "redis://h:1/0")
    × (redis_url (codes "h,1,2,p@:") ≡ codes "redis://:p%40%3A@h:1/2")
unfolding redis_url split urlencode as_bytes utf8 encode_bytes encode_byte hex_digit
urls = (refl, refl, refl, refl)

keys_distinct_example :
    (hash_key (codes "a") (codes "/x") ≡ hash_key (codes "b") (codes "/x")
      → (codes "a" ≡ codes "b") × (codes "/x" ≡ codes "/x"))
    × (dir_key (codes "a") (codes "/x") ≡ dir_key (codes "b") (codes "/x")
        → (codes "a" ≡ codes "b") × (codes "/x" ≡ codes "/x"))
    × (hash_key (codes "a") (codes "/x") ≢ dir_key (codes "b") (codes "/x"))
unfolding check_ident is_ascii_alphanumeric
keys_distinct_example = keys_distinct (codes "a") (codes "b") (codes "/x") (codes "/x") refl refl

urlencode-IsSafe_example :
    All IsSafe (urlencode (codes "p@:é"))
    × (decode (urlencode (codes "p@:é")) ≡ as_bytes (codes "p@:é"))
urlencode-IsSafe_example = urlencode-IsSafe (codes "p@:é") (omega arith)
