-- ===== src/Db/Redis/Laws.antt =====
-- What src/db.rs relies on of a redis server, as the documentation of its commands has it.
use yourfs.Base.{
  ℕ, ◌<◌, Bool, true, false, not, ◌&&◌, ◌||◌, List, [], ◌∷◌, ◌++◌, Option, none, some, any, ◌==◌,
  if◌then◌else◌, ◌≡◌, ◌⊎◌,
}
use yourfs.Base.Text.{Text, text_eq, text_lt}
use yourfs.Base.Outcome.{ok}
use yourfs.Db.Keys.{is_prefix}
use yourfs.Db.Retry.{rows, failed}
use yourfs.Db.Redis.{Write, zadd, hset, Cmd, hget, zrange, scan, del, atomic, Client, parse_u64}

-- A list has a text.
abbrev pub elem : Text → List Text → Bool
elem x l = any (λ y. text_eq y x) l

-- Byte order, without repetition.
abbrev pub IsSorted : List Text → Type 0
IsSorted [] = Unit
IsSorted (x ∷ []) = Unit
IsSorted (x ∷ y ∷ ys) = (text_lt x y ≡ true) × IsSorted (y ∷ ys)

-- What a transaction leaves under a key: the last value of a field, the members, the key itself.
unfoldable pub stored : List Write → Text → Text → Option Text → Option Text
stored [] k f old = old
stored (zadd j m ∷ ws) k f old = stored ws k f old
stored (hset j g x ∷ ws) k f old =
    stored ws k f (if text_eq j k && text_eq g f then some x else old)

unfoldable pub added : List Write → Text → Text → Bool
added [] k m = false
added (zadd j n ∷ ws) k m = (text_eq j k && text_eq n m) || added ws k m
added (hset j g x ∷ ws) k m = added ws k m

unfoldable pub touched : List Write → Text → Bool
touched [] k = false
touched (zadd j n ∷ ws) k = text_eq j k || touched ws k
touched (hset j g x ∷ ws) k = text_eq j k || touched ws k

abbrev pub is_glob : ℕ → Bool
is_glob c = c == b'*' || (c == b'?' || (c == b'[' || c == b'\\'))

-- No character of the text is special in a glob pattern.
abbrev pub IsLiteral : Text → Type 0
IsLiteral s = any is_glob s ≡ false

-- The data of the server: the fields of a hash, the members of a sorted set, the keys.
-- `due` are the keys that a SCAN at a cursor has still to return, `left` bounds its rounds.
pub record View (W : Type 0) : Type 0 where
  pub hash : W → Text → Text → Option Text
  pub members : W → Text → List Text
  pub has : W → Text → Bool
  pub due : W → ℕ → Text → Bool
  pub left : W → ℕ → ℕ

abbrev pub is_read : Cmd → Bool
is_read (del keys) = false
is_read (atomic ws) = false
is_read _ = true

module _ {W : Type 0} (view : View W) where
  open view use {hash, members, has, due, left}

  -- Both states hold the same data.
  pub record Same (u v : W) : Type 0 where
    pub hash_same : (k f : Text) → hash v k f ≡ hash u k f
    pub members_same : (k : Text) → members v k ≡ members u k
    pub has_same : (k : Text) → has v k ≡ has u k

  -- Nothing was done: the iterations go on too.
  pub record Still (u v : W) : Type 0 where
    pub same : Same u v
    pub due_still : (c : ℕ) (k : Text) → due v c k ≡ due u c k
    pub left_still : (c : ℕ) → left v c ≡ left u c

  -- A SCAN at `c` for the keys that begin with `p` has returned `ks` and the cursor `d`.
  pub record Scanned (u v : W) (p : Text) (c d : ℕ) (ks : List Text) : Type 0 where
    pub scan_same : Same u v
    pub only : (k : Text) → elem k ks ≡ true → (is_prefix p k ≡ true) × (has u k ≡ true)
    pub complete :
        (k : Text)
        → is_prefix p k ≡ true
        → has u k ≡ true
        → due u c k ≡ true
        → (elem k ks ≡ true) ⊎ ((0 < d) × (due v d k ≡ true))
    pub ends : 0 < d → left v d < left u c

  pub record Deleted (u v : W) (ks : List Text) : Type 0 where
    pub has_deleted : (k : Text) → has v k ≡ (not (elem k ks) && has u k)
    pub hash_kept : (k f : Text) → elem k ks ≡ false → hash v k f ≡ hash u k f
    pub members_kept : (k : Text) → elem k ks ≡ false → members v k ≡ members u k
    pub due_kept : (c : ℕ) (k : Text) → elem k ks ≡ false → due v c k ≡ due u c k
    pub left_kept : (c : ℕ) → left v c ≡ left u c

  pub record Written (u v : W) (ws : List Write) : Type 0 where
    pub hash_written : (k f : Text) → hash v k f ≡ stored ws k f (hash u k f)
    pub members_written :
        (k m : Text) → elem m (members v k) ≡ (added ws k m || elem m (members u k))
    pub has_written : (k : Text) → has v k ≡ (touched ws k || has u k)

  pub record IsRedis (client : Client W) : Type 0 where
    pub sorted : (w : W) (k : Text) → IsSorted (members w k)
    pub absent :
        (w : W) (k : Text) → has w k ≡ false → ((f : Text) → hash w k f ≡ none) × (members w k ≡ [])
    pub starts : (w : W) (k : Text) → has w k ≡ true → due w 0 k ≡ true
    pub makes : (w : W) → Still w (client.make w).1
    pub fails :
        (n : ℕ) (c : Cmd) (w : W) (io : Bool) (e : Text)
        → is_read c ≡ true
        → (client.query n c w).0 ≡ failed io e
        → Still w (client.query n c w).1
    pub hgets :
        (n : ℕ) (k f : Text) (u v : W) (a : Option Text)
        → client.query n (hget k f) u ≡ (rows a, v)
        → Same u v × (a ≡ hash u k f)
    pub zranges :
        (n : ℕ) (k : Text) (u v : W) (a : List Text)
        → client.query n (zrange k) u ≡ (rows a, v)
        → Same u v × (a ≡ members u k)
    pub scans :
        (n c : ℕ) (p next : Text) (ks : List Text) (u v : W)
        → IsLiteral p
        → client.query n (scan c (p ++ b'*' ∷ [])) u ≡ (rows (next, ks), v)
        → (d : ℕ) × (parse_u64 next ≡ ok d) × Scanned u v p c d ks
    pub dels :
        (n : ℕ) (ks : List Text) (u v : W) (a : ℕ)
        → client.query n (del ks) u ≡ (rows a, v)
        → Deleted u v ks
    pub atomics :
        (n : ℕ) (ws : List Write) (u v : W) (a : Unit {0})
        → client.query n (atomic ws) u ≡ (rows a, v)
        → Written u v ws
