-- ===== src/Db/Redis/Contents.antt =====
-- src/db.rs, `RedisWriter::finish`: what the rows leave on the server, as a whitelist.
use yourfs.Base.{
  ℕ, Bool, true, false, ◌&&◌, ◌||◌, List, [], ◌∷◌, ◌++◌, Option, none, some, if◌then◌else◌, ◌≡◌,
  refl, sym, ap, ◌∙◌, arith, Bool-cases, inl, inr,
}
use yourfs.Base.Text.{Text, codes, text_eq, text_eq_iff}
use yourfs.Base.Outcome.{ok}
use yourfs.Paths.{split_path}
use yourfs.Db.Keys.{dir_key, hash_key, is_prefix}
use yourfs.Db.Retry.{Reply, rows, failed}
use yourfs.Db.Redis.{Write, atomic, Client}
use yourfs.Db.Redis.Laws.{elem, stored, added, touched, View, Written, IsRedis}
use yourfs.Db.Redis.Sorted.{IsSorted-elem}
use yourfs.Db.Redis.Writer.{RedisWriter, writes, finish, sent}
use yourfs.Db.Redis.Writer.Drop.{KeptAt}
use yourfs.Scan.Walk.Rows.{Row}

-- The whitelist that a list of rows stands for: the real path of a name in a directory, by the last
-- row that has one, and whether a name is in a directory.
unfoldable pub real_of : List Row → Text → Text → Option Text
real_of [] p n = none
real_of ((q, m, x) ∷ rs) p n = elim (real_of rs p n) [
  | some y ↦ some y
  | none ↦ if text_eq q p && text_eq m n then some x else none
]

unfoldable pub child_of : List Row → Text → Text → Bool
child_of [] p n = false
child_of ((q, m, x) ∷ rs) p n = (text_eq q p && text_eq m n) || child_of rs p n

unfoldable pub lookup : List Row → Text → Option Text
lookup rs path =
    if text_eq path (codes "/")
    then some (codes "/")
    else (let (p, n) = split_path path in real_of rs p n)

pub text_eq-append : (a x y : Text) → text_eq (a ++ x) (a ++ y) ≡ text_eq x y
text_eq-append [] x y = refl
text_eq-append (c ∷ a) x y = ground (arith, text_eq-append a x y)

or_else : Option Text → Option Text → Option Text
or_else (some x) o = some x
or_else none o = o

or_else-none : (o : Option Text) → or_else o none ≡ o
unfolding or_else
or_else-none none = refl
or_else-none (some x) = refl

or_false : (b : Bool) → (b || false) ≡ b
or_false true = refl
or_false false = refl

hash_key-text_eq : (t q p : Text) → text_eq (hash_key t q) (hash_key t p) ≡ text_eq q p
unfolding hash_key
hash_key-text_eq t q p = text_eq-append t (codes "|h|" ++ q) (codes "|h|" ++ p)

dir_key-text_eq : (t q p : Text) → text_eq (dir_key t q) (dir_key t p) ≡ text_eq q p
unfolding dir_key
dir_key-text_eq t q p = text_eq-append t (codes "|d|" ++ q) (codes "|d|" ++ p)

stored-cons :
    (t q m x : Text) (rs : List Row) (k n : Text) (old : Option Text)
    → stored (writes t ((q, m, x) ∷ rs)) k n old
      ≡ stored (writes t rs) k n (if text_eq (hash_key t q) k && text_eq m n then some x else old)
unfolding stored writes
stored-cons t q m x rs k n old = refl

stored-writes :
    (t : Text) (rs : List Row) (p n : Text) (old : Option Text)
    → stored (writes t rs) (hash_key t p) n old ≡ or_else (real_of rs p n) old
unfolding real_of or_else
stored-writes t [] p n old = unfold stored writes in refl
stored-writes t ((q, m, x) ∷ rs) p n old =
    let here = if text_eq q p && text_eq m n then some x else old in
    stored-cons t q m x rs (hash_key t p) n old
    ∙ rw (hash_key-text_eq t q p) (stored-writes t rs p n here ∙ ground arith)

added-writes :
    (t : Text) (rs : List Row) (p n : Text) → added (writes t rs) (dir_key t p) n ≡ child_of rs p n
unfolding added writes child_of
added-writes t [] p n = refl
added-writes t ((q, m, x) ∷ rs) p n = rw (dir_key-text_eq t q p, added-writes t rs p n) refl

-- The keys of a table begin with its name and a bar.
abbrev pub prefix_of : Text → Text
prefix_of table = table ++ b'|' ∷ []

is_prefix-append : (t x : Text) → is_prefix (prefix_of t) (t ++ b'|' ∷ x) ≡ true
is_prefix-append [] x = refl
is_prefix-append (c ∷ t) x = ground (arith, is_prefix-append t x)

pub hash_key-is_prefix : (t p : Text) → is_prefix (prefix_of t) (hash_key t p) ≡ true
unfolding hash_key
hash_key-is_prefix t p = is_prefix-append t (codes "h|" ++ p)

pub dir_key-is_prefix : (t p : Text) → is_prefix (prefix_of t) (dir_key t p) ≡ true
unfolding dir_key
dir_key-is_prefix t p = is_prefix-append t (codes "d|" ++ p)

-- A key of the table is no other key.
apart :
    (t j k : Text)
    → is_prefix (prefix_of t) j ≡ true
    → is_prefix (prefix_of t) k ≡ false
    → text_eq j k ≡ false
apart t j k h e = elim (Bool-cases (text_eq j k)) [
  | inl f ↦
      let g : is_prefix (prefix_of t) k ≡ true =
        ap (is_prefix (prefix_of t)) (sym ((text_eq_iff j k).0 f)) ∙ h in
      ground (arith, g, e)
  | inr f ↦ f
]

-- The writes of one table leave the keys of the others alone.
record Apart (t : Text) (ws : List Write) (k : Text) : Type 0 where
  stored_apart : (f : Text) (old : Option Text) → stored ws k f old ≡ old
  added_apart : (m : Text) → added ws k m ≡ false
  touched_apart : touched ws k ≡ false

writes-Apart :
    (t : Text) (rs : List Row) (k : Text)
    → is_prefix (prefix_of t) k ≡ false
    → Apart t (writes t rs) k
unfolding writes stored added touched
writes-Apart t [] k h = record {
  stored_apart = λ f old. refl;
  added_apart = λ m. refl;
  touched_apart = refl;
}
writes-Apart t ((q, m, x) ∷ rs) k h =
    let a = writes-Apart t rs k h in
    let d = apart t (dir_key t q) k (dir_key-is_prefix t q) h in
    let e = apart t (hash_key t q) k (hash_key-is_prefix t q) h in
    record {
      stored_apart = λ f old. stored-cons t q m x rs k f old ∙ rw e (a.stored_apart f old);
      added_apart = λ n. rw d (a.added_apart n);
      touched_apart = rw (d, e) a.touched_apart;
    }

module _ {W : Type 0} (view : View W) where
  open view use {hash, members, has}

  -- The server holds the whitelist of the rows under the table's keys, and no other key of it.
  pub record Holds (table : Text) (rs : List Row) (w : W) : Type 0 where
    pub hash_held : (p n : Text) → hash w (hash_key table p) n ≡ real_of rs p n
    pub members_held : (p n : Text) → elem n (members w (dir_key table p)) ≡ child_of rs p n
    pub has_held :
        (k : Text) → is_prefix (prefix_of table) k ≡ true → has w k ≡ touched (writes table rs) k

  -- No key of the table is there.
  abbrev pub Cleared : Text → W → Type 0
  Cleared table w = (k : Text) → is_prefix (prefix_of table) k ≡ true → has w k ≡ false

  Written-Holds :
      (client : Client W) (table : Text) (rs : List Row) (u v : W)
      → IsRedis view client
      → Cleared table u
      → Written view u v (writes table rs)
      → Holds table rs v
  Written-Holds client table rs u v laws c w =
      let gone = λ (k : Text) (h : is_prefix (prefix_of table) k ≡ true). laws.absent u k (c k h) in
      record {
        hash_held = λ p n.
            w.hash_written (hash_key table p) n
            ∙ stored-writes table rs p n (hash u (hash_key table p) n)
            ∙ rw ((gone (hash_key table p) (hash_key-is_prefix table p)).0 n)
                (or_else-none (real_of rs p n));
        members_held = λ p n.
            w.members_written (dir_key table p) n
            ∙ rw (added-writes table rs p n, (gone (dir_key table p) (dir_key-is_prefix table p)).1)
                (or_false (child_of rs p n));
        has_held = λ k h. w.has_written k ∙ rw (c k h) (or_false (touched (writes table rs) k));
      }

  sent-Written :
      (client : Client W) (r : RedisWriter) (ws : List Write) (u : W) (s : Reply (Unit {0}) × W)
      → IsRedis view client
      → client.query r.conn (atomic ws) u ≡ s
      → (sent client r s).0 ≡ ok tt
      → Written view u (sent client r s).2 ws
  unfolding sent
  sent-Written client r ws u (rows a, v) laws e h = laws.atomics r.conn ws u v a e
  sent-Written client r ws u (failed io m, v) laws e h = cc

  finish-Written :
      (client : Client W) (conn : ℕ) (table : Text) (batch : List Row) (u : W)
      → IsRedis view client
      → let r : RedisWriter = record { conn = conn; table = table; batch = batch } in
        (finish client r u).0 ≡ ok tt → Written view u (finish client r u).2 (writes table batch)
  unfolding finish
  finish-Written client conn table [] u laws h =
      unfold writes stored added touched in
      (record {
        hash_written = λ k f. refl;
        members_written = λ k m. refl;
        has_written = λ k. refl;
      })
  finish-Written client conn table (row ∷ batch) u laws h =
      let r : RedisWriter = record { conn = conn; table = table; batch = row ∷ batch } in
      sent-Written client r (writes table (row ∷ batch)) u
        (client.query conn (atomic (writes table (row ∷ batch))) u) laws refl h

  -- `finish` on a table that was cleared: when it reports no error, the server holds the rows, and
  -- the keys of the other tables are as they were.
  pub finish-Holds :
      (client : Client W) (r : RedisWriter) (u : W)
      → IsRedis view client
      → Cleared r.table u
      → (finish client r u).0 ≡ ok tt
      → Holds r.table r.batch (finish client r u).2
        × ((k : Text)
            → is_prefix (prefix_of r.table) k ≡ false
            → KeptAt view u (finish client r u).2 k)
  finish-Holds client r u laws c h =
      let w = finish-Written client r.conn r.table r.batch u laws h in
      (
        Written-Holds client r.table r.batch u (finish client r u).2 laws c w,
        λ k e.
            let a = writes-Apart r.table r.batch k e in
            record {
              has_kept = w.has_written k ∙ rw a.touched_apart refl;
              hash_kept = λ f. w.hash_written k f ∙ a.stored_apart f (hash u k f);
              members_kept =
                  IsSorted-elem _ _ (laws.sorted (finish client r u).2 k) (laws.sorted u k)
                    (λ m. w.members_written k m ∙ rw (a.added_apart m) refl);
            },
      )
