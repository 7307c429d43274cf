-- ===== src/Tests/Store.antt =====
-- A redis server in memory, for the tests of src/db.rs: the log of its writes. A SCAN takes one round.
pub mod Laws
use yourfs.Base.{
  ℕ, zero, suc, ◌<◌, Bool, true, false, not, ◌&&◌, ◌||◌, List, [], ◌∷◌, ◌++◌, Option, none, some,
  if◌then◌else◌, any, ◌≡◌, refl, sym, ◌∙◌, ap, arith, ◌⊎◌, inl, inr, Bool-cases, append-nil,
}
use mathlib.Core.Path.{subst}
use yourfs.Base.Text.{Text, codes, text_eq, text_lt, text_eq_iff, text_eq_refl}
use yourfs.Base.Outcome.{Outcome, ok, err}
use yourfs.Cli.Number.{is_digit, value}
use yourfs.Db.Keys.{is_prefix}
use yourfs.Db.Retry.{Reply, rows, failed}
use yourfs.Db.Retry.Answers.{IsUp}
use yourfs.Db.Redis.{
  Write, zadd, hset, Cmd, ping, hget, zrange, scan, del, atomic, Client, Answer, server, parse_u64,
}
use yourfs.Db.Redis.Laws.{
  elem, IsSorted, stored, added, touched, View, Same, Still, Scanned, Deleted, Written, IsRedis,
}

abbrev pub key_of : Write → Text
key_of (zadd k m) = k
key_of (hset k f x) = k

unfoldable pub put_sorted : Text → List Text → List Text
put_sorted m [] = m ∷ []
put_sorted m (x ∷ xs) =
    if text_eq x m then x ∷ xs else if text_lt m x then m ∷ x ∷ xs else x ∷ put_sorted m xs

unfoldable pub members_of : List Write → Text → List Text
unfolding put_sorted
members_of [] k = []
members_of (zadd j m ∷ ws) k =
    if text_eq j k then put_sorted m (members_of ws k) else members_of ws k
members_of (hset j f x ∷ ws) k = members_of ws k

-- The pattern of the tests ends in a star.
unfoldable pub init : Text → Text
init [] = []
init (c ∷ []) = []
init (c ∷ d ∷ s) = c ∷ init (d ∷ s)

unfoldable pub found_keys : Text → List Write → List Text
found_keys p [] = []
found_keys p (w ∷ ws) =
    if is_prefix p (key_of w) then key_of w ∷ found_keys p ws else found_keys p ws

unfoldable pub without : List Text → List Write → List Write
without ks [] = []
without ks (w ∷ ws) = if elem (key_of w) ks then without ks ws else w ∷ without ks ws

-- The reply to a command.
unfoldable pub reply : (c : Cmd) → List Write → Reply (Answer c) × List Write
unfolding members_of without found_keys init
reply ping ws = (rows (codes "PONG"), ws)
reply (hget k f) ws = (rows (stored ws k f none), ws)
reply (zrange k) ws = (rows (members_of ws k), ws)
reply (scan c pattern) ws = (rows (codes "0", found_keys (init pattern) ws), ws)
reply (del ks) ws = (rows 0, without ks ws)
reply (atomic new) ws = (rows tt, ws ++ new)

unfoldable pub store : Client (List Write)
unfolding reply
store = record { make = λ ws. (ok 0, ws); query = λ n c ws. reply c ws }

unfoldable pub contents : View (List Write)
unfolding members_of
contents = record {
  hash = λ ws k f. stored ws k f none;
  members = members_of;
  has = touched;
  due = λ ws c k. true;
  left = λ ws c. 0;
}
