-- ===== src/Db/Redis/Writer/Drop.antt =====
-- src/db.rs, `RedisWriter::create`: the keys of the table are dropped, and no others.
use yourfs.Base.{
  ℕ, zero, suc, ◌<◌, true, false, List, [], ◌∷◌, ◌++◌, Option, none, some, ◌≡◌, refl, ◌∙◌, arith,
  inl, inr, Bool-cases,
}
use yourfs.Base.Text.{Text}
use yourfs.Base.Outcome.{Outcome, ok, err}
use yourfs.Db.Keys.{Failure, bad_name, check_ident, is_prefix}
use yourfs.Db.Retry.{Reply, rows, failed}
use yourfs.Db.Redis.{scan, del, Client, parse_u64, pattern}
use yourfs.Db.Redis.Laws.{elem, IsLiteral, View, Scanned, Deleted, IsRedis}
use yourfs.Db.Redis.Pattern.{check_ident-IsLiteral, shaped}
use yourfs.Db.Redis.Writer.{RedisWriter, advance, deleted, found, drop_from, create}

module _ {W : Type 0} (view : View W) where
  open view use {hash, members, has, due, left}

  -- The key and what stands under it are as they were.
  pub record KeptAt (u v : W) (k : Text) : Type 0 where
    pub has_kept : has v k ≡ has u k
    pub hash_kept : (f : Text) → hash v k f ≡ hash u k f
    pub members_kept : members v k ≡ members u k

  -- Every key that begins with `p` is gone, and every other is kept.
  pub record Dropped (p : Text) (u v : W) : Type 0 where
    pub gone : (k : Text) → is_prefix p k ≡ true → has v k ≡ false
    pub kept : (k : Text) → is_prefix p k ≡ false → KeptAt u v k

  pub KeptAt-trans : (u v w : W) (k : Text) → KeptAt u v k → KeptAt v w k → KeptAt u w k
  KeptAt-trans u v w k a b = record {
    has_kept = b.has_kept ∙ a.has_kept;
    hash_kept = λ f. b.hash_kept f ∙ a.hash_kept f;
    members_kept = b.members_kept ∙ a.members_kept;
  }

module _ {W : Type 0} (client : Client W) (view : View W) (laws : IsRedis view client)
    (r : RedisWriter) (p : Text) (shape : pattern r.table ≡ p ++ b'*' ∷ [])
    (literal : IsLiteral p) where
  open view use {hash, members, has, due, left}

  -- Every key that is there and begins with `p` is still to come.
  abbrev Owed : ℕ → W → Type 0
  Owed c w = (k : Text) → is_prefix p k ≡ true → has w k ≡ true → due w c k ≡ true

  abbrev OthersKept : W → W → Type 0
  OthersKept u v = (k : Text) → is_prefix p k ≡ false → KeptAt view u v k

  abbrev Fine : W → Option (Outcome Failure (Unit {0}) × RedisWriter × W) → Type 0
  Fine u none = ⊥
  Fine u (some (err e, t, v)) = Unit {0}
  Fine u (some (ok a, t, v)) = (t ≡ r) × Dropped view p u v

  -- What the next round may count on, after a round from `u` at the cursor `c`.
  abbrev Goes : (ℕ → W → Option (Outcome Failure (Unit {0}) × RedisWriter × W)) → W → ℕ → Type 0
  Goes again u c =
      (d : ℕ) (x : W) → left x d < left u c → Owed d x → OthersKept u x → Fine u (again d x)

  -- After a round: what is left of the prefix is due at `d`, or gone if `d` is 0.
  advance-Fine :
      (again : ℕ → W → Option (Outcome Failure (Unit {0}) × RedisWriter × W)) (u v : W) (c d : ℕ)
      → Goes again u c
      → OthersKept u v
      → ((k : Text) → is_prefix p k ≡ true → has v k ≡ true → (0 < d) × (due v d k ≡ true))
      → (0 < d → left v d < left u c)
      → Fine u (advance client again r (ok d) v)
  unfolding advance
  advance-Fine again u v c zero g k q l = (
    refl,
    record {
      gone = λ x y. elim (Bool-cases (has v x)) [
        | inl z ↦ let o = q x y z in ground (arith, o)
        | inr z ↦ z
      ];
      kept = k;
    },
  )
  advance-Fine again u v c (suc n) g k q l = g (suc n) v (l (omega arith)) (λ x y z. (q x y z).1) k

  -- A key that was to come and is there after the round is due in the next.
  later :
      (u x v : W) (c d : ℕ) (ks : List Text) (k : Text)
      → Scanned view u x p c d ks
      → Deleted view x v ks
      → Owed c u
      → is_prefix p k ≡ true
      → has v k ≡ true
      → (0 < d) × (due v d k ≡ true)
  later u x v c d ks k sc dl o y z =
      let there = dl.has_deleted k in
      let not_in : elem k ks ≡ false = ground (arith, there, z) in
      let before : has u k ≡ true = ground (arith, there, z, sc.scan_same.has_same k) in
      elim (sc.complete k y before (o k y before)) [
        | inl e ↦ absurd (ground (arith, e, not_in))
        | inr (h, e) ↦ (h, dl.due_kept d k not_in ∙ e)
      ]

  others :
      (u x v : W) (c d : ℕ) (ks : List Text)
      → Scanned view u x p c d ks
      → Deleted view x v ks
      → OthersKept u v
  others u x v c d ks sc dl k h =
      let not_in : elem k ks ≡ false = elim (Bool-cases (elem k ks)) [
        | inl e ↦ let f = (sc.only k e).0 in absurd (ground (arith, f, h))
        | inr e ↦ e
      ] in
      record {
        has_kept =
            (let there = dl.has_deleted k in
              ground (arith, there, not_in, sc.scan_same.has_same k));
        hash_kept = λ f. dl.hash_kept k f not_in ∙ sc.scan_same.hash_same k f;
        members_kept = dl.members_kept k not_in ∙ sc.scan_same.members_same k;
      }

  deleted-Fine :
      (again : ℕ → W → Option (Outcome Failure (Unit {0}) × RedisWriter × W)) (u x : W) (c d : ℕ)
      (next : Text) (ks : List Text) (s : Reply ℕ × W)
      → client.query r.conn (del ks) x ≡ s
      → parse_u64 next ≡ ok d
      → Scanned view u x p c d ks
      → Owed c u
      → Goes again u c
      → Fine u (deleted client again r next s)
  unfolding deleted
  deleted-Fine again u x c d next ks (failed io e, v) h n sc o g = tt
  deleted-Fine again u x c d next ks (rows a, v) h n sc o g =
      let dl = laws.dels r.conn ks x v a h in
      rw n (
        advance-Fine again u v c d g (others u x v c d ks sc dl)
          (λ k y z. later u x v c d ks k sc dl o y z) (λ q. rw (dl.left_kept d) (sc.ends q)))

  -- The empty batch deletes nothing.
  none-Deleted : (u : W) → Deleted view u u []
  none-Deleted u = record {
    has_deleted = λ k. ground arith;
    hash_kept = λ k f e. refl;
    members_kept = λ k e. refl;
    due_kept = λ c k e. refl;
    left_kept = λ c. refl;
  }

  found-Fine :
      (again : ℕ → W → Option (Outcome Failure (Unit {0}) × RedisWriter × W)) (u : W) (c : ℕ)
      (s : Reply (Text × List Text) × W)
      → client.query r.conn (scan c (pattern r.table)) u ≡ s
      → Owed c u
      → Goes again u c
      → Fine u (found client again r s)
  unfolding found
  found-Fine again u c (failed io e, x) h o g = tt
  found-Fine again u c (rows (next, []), x) h o g =
      let (d, n, sc) = laws.scans r.conn c p next [] u x literal (rw⁻¹ shape h) in
      let dl = none-Deleted x in
      rw n (
        advance-Fine again u x c d g (others u x x c d [] sc dl)
          (λ k y z. later u x x c d [] k sc dl o y z) sc.ends)
  found-Fine again u c (rows (next, k ∷ ks), x) h o g =
      let (d, n, sc) = laws.scans r.conn c p next (k ∷ ks) u x literal (rw⁻¹ shape h) in
      deleted-Fine again u x c d next (k ∷ ks) (client.query r.conn (del (k ∷ ks)) x) refl n sc o g

  further :
      (u x : W) (s : Option (Outcome Failure (Unit {0}) × RedisWriter × W))
      → OthersKept u x
      → Fine x s
      → Fine u s
  further u x none k f = f
  further u x (some (err e, t, v)) k f = tt
  further u x (some (ok a, t, v)) k (e, dr) =
      (e, record { gone = dr.gone; kept = λ y h. KeptAt-trans view u x v y (k y h) (dr.kept y h) })

  drop_from-Fine : (n c : ℕ) (u : W) → left u c < n → Owed c u → Fine u (drop_from client n r c u)
  unfolding drop_from
  drop_from-Fine zero c u l o = absurd (omega arith)
  drop_from-Fine (suc n) c u l o =
      found-Fine (λ d x. drop_from client n r d x) u c
        (client.query r.conn (scan c (pattern r.table)) u) refl o
        (λ d x h q k.
          further u x (drop_from client n r d x) k (drop_from-Fine n d x (omega arith) q))

  settled :
      (u : W) (o : Option (Outcome Failure (Unit {0}) × RedisWriter × W))
      → Fine u o
      → (t : Outcome Failure (Unit {0}) × RedisWriter × W) × (o ≡ some t)
        × (t.0 ≡ ok tt → (t.1 ≡ r) × Dropped view p u t.2)
  settled u none f = absurd f
  settled u (some (err e, t, v)) f = ((err e, t, v), refl, λ h. cc)
  settled u (some (ok a, t, v)) f = ((ok a, t, v), refl, λ h. f)

-- With fuel for the rounds of the server, `create` comes to an end. If it reports no error, the table
-- name is an identifier, each key of the table is gone, and every other key of the server is as it
-- was.
pub create-Dropped :
    {W : Type 0} (client : Client W) (view : View W) (fuel : ℕ) (table : Text) (r : RedisWriter)
    (u : W)
    → IsRedis view client
    → view.left u 0 < fuel
    → (t : Outcome Failure (Unit {0}) × RedisWriter × W) × (create client fuel table r u ≡ some t)
      × (t.0 ≡ ok tt
          → (check_ident table ≡ true)
            × (t.1 ≡ record r { table = table })
            × Dropped view (table ++ b'|' ∷ []) u t.2)
unfolding create
create-Dropped client view fuel table r u laws l = elim (Bool-cases (check_ident table)) [
  | inr e ↦ ((err (bad_name table), r, u), rw e refl, λ h. cc)
  | inl e ↦
      let q : RedisWriter = record r { table = table } in
      let p = table ++ b'|' ∷ [] in
      let shape : pattern table ≡ p ++ b'*' ∷ [] = shaped table in
      let fine =
        drop_from-Fine client view laws q p shape (check_ident-IsLiteral table e) fuel 0 u l
          (λ k y z. laws.starts u k z) in
      let (t, h, d) = settled client view laws q p shape (check_ident-IsLiteral table e) u _ fine in
      (t, rw e h, λ o. let (a, b) = d o in (e, a, b))
]
