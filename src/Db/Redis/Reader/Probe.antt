-- ===== src/Db/Redis/Reader/Probe.antt =====
-- src/db.rs, `RedisDb::check_table`: the probe of a mount.
use yourfs.Base.{
  ℕ, zero, suc, ◌<◌, true, false, List, [], ◌∷◌, ◌++◌, Option, none, some, ◌≡◌, refl, sym, ◌∙◌,
  arith, Bool-cases, ◌⊎◌, inl, inr,
}
use yourfs.Base.Text.{Text, codes, text_eq_refl}
use yourfs.Base.Outcome.{ok}
use yourfs.Db.Keys.{check_ident, is_prefix}
use yourfs.Db.Retry.{Ended, answer, error, State}
use yourfs.Db.Retry.Answers.{IsUp, HasRoom, query_retry-IsUp}
use yourfs.Db.Redis.{
  Cmd, scan, Answer, Client, parse_u64, pattern, server, cmd_retry, next_round, scanned, scan_from,
  check_table,
}
use yourfs.Db.Redis.Laws.{View, Still, Scanned, IsRedis}
use yourfs.Db.Redis.Pattern.{check_ident-IsLiteral, shaped}
use yourfs.Db.Redis.Contents.{prefix_of}
use yourfs.Db.Redis.Reader.{ran}

-- The message for a table that is not there.
abbrev pub no_keys : Text → Text
no_keys table =
    codes "no keys for table '"
    ++ (table ++ codes "' in this redis database (build it with yourfs-tool)")

module _ {W : Type 0} (max : ℕ) (client : Client W) (view : View W) (laws : IsRedis view client)
    (up : (c : Cmd) → IsUp (server max client c)) (table : Text)
    (ident : check_ident table ≡ true) where
  open view use {hash, members, has, due, left}

  -- The result says whether the data of `u` have a key of the table.
  abbrev pub Verdict : W → Option (Ended (Unit {0}) × State W) → Type 0
  Verdict u none = ⊥
  Verdict u (some (e, t)) =
      ((e ≡ answer tt) × ((k : Text) × (is_prefix (prefix_of table) k ≡ true) × (has u k ≡ true)))
      ⊎ ((e ≡ error (no_keys table))
          × ((k : Text) → is_prefix (prefix_of table) k ≡ true → has u k ≡ false))

  abbrev Owed : ℕ → W → Type 0
  Owed c w = (k : Text) → is_prefix (prefix_of table) k ≡ true → has w k ≡ true → due w c k ≡ true

  ask :
      (c : Cmd) (s : State W)
      → HasRoom max s.pool
      → (a : Answer c) × (t : State W) × (cmd_retry max client c s ≡ (answer a, t))
        × HasRoom max t.pool
  unfolding cmd_retry
  ask c s room = query_retry-IsUp max (server max client c) (up c) s room

  Verdict-same :
      (u v : W) (o : Option (Ended (Unit {0}) × State W))
      → ((k : Text) → has v k ≡ has u k)
      → Verdict v o
      → Verdict u o
  Verdict-same u v none h d = d
  Verdict-same u v (some (e, t)) h (inl (f, (k, p, q))) = inl (f, (k, p, sym (h k) ∙ q))
  Verdict-same u v (some (e, t)) h (inr (f, g)) = inr (f, λ k p. sym (h k) ∙ g k p)

  next_round-Verdict :
      (again : ℕ → State W → Option (Ended (Unit {0}) × State W)) (t : State W) (d : ℕ)
      → ((k : Text)
          → is_prefix (prefix_of table) k ≡ true
          → has t.world k ≡ true
          → (0 < d) × (due t.world d k ≡ true))
      → (0 < d → Owed d t.world → Verdict t.world (again d t))
      → Verdict t.world (next_round max client again table t (ok d))
  unfolding next_round
  next_round-Verdict again t zero h g = inr (
    refl,
    λ k p. elim (Bool-cases (has t.world k)) [
      | inl e ↦ let o = h k p e in ground (arith, o)
      | inr e ↦ e
    ],
  )
  next_round-Verdict again t (suc n) h g = g (omega arith) (λ k p e. (h k p e).1)

  found-Verdict :
      (again : ℕ → State W → Option (Ended (Unit {0}) × State W)) (c d : ℕ) (u w : W) (t : State W)
      (next : Text) (ks : List Text)
      → Still view u w
      → parse_u64 next ≡ ok d
      → Scanned view w t.world (prefix_of table) c d ks
      → Owed c u
      → (0 < d → left t.world d < left u c → Owed d t.world → Verdict t.world (again d t))
      → Verdict u (scanned max client again table (answer (next, ks), t))
  unfolding scanned
  found-Verdict again c d u w t next (k ∷ ks) st n sc o g =
      let (p, h) = sc.only k (rw (text_eq_refl k) refl) in
      inl (refl, (k, p, sym (st.same.has_same k) ∙ h))
  found-Verdict again c d u w t next [] st n sc o g =
      let same = λ (k : Text). sc.scan_same.has_same k ∙ st.same.has_same k in
      Verdict-same u t.world _ same (
        rw n (
          next_round-Verdict again t d
            (λ k p e.
              let before = sym (same k) ∙ e in
              let there = sym (sc.scan_same.has_same k) ∙ e in
              elim (sc.complete k p there (st.due_still c k ∙ o k p before)) [
                | inl f ↦ cc
                | inr f ↦ f
              ])
            (λ q r. g q (rw⁻¹ (st.left_still c) (sc.ends q)) r)))

  scan_from-Verdict :
      (n c : ℕ) (s : State W)
      → left s.world c < n
      → Owed c s.world
      → HasRoom max s.pool
      → Verdict s.world (scan_from max client n table c s)
  unfolding scan_from
  scan_from-Verdict zero c s l o room = absurd (omega arith)
  scan_from-Verdict (suc n) c s l o room =
      let ((next, ks), t, e, m) = ask (scan c (pattern table)) s room in
      let (i, w, st, q) = ran max client view laws (scan c (pattern table)) s (next, ks) t refl e in
      let (d, parsed, sc) =
        laws.scans i c (prefix_of table) next ks w t.world (check_ident-IsLiteral table ident)
          (rw⁻¹ (shaped table) q) in
      rw e (
        found-Verdict (λ x y. scan_from max client n table x y) c d s.world w t next ks st parsed sc
          o (λ x y z. scan_from-Verdict n d t (omega arith) z m))

  -- On a server that is up, with fuel for its rounds, the probe comes to an end: it passes where the
  -- server has a key of the table, and it reports that there are none where there is none.
  pub check_table-Verdict :
      (fuel : ℕ) (s : State W)
      → left s.world 0 < fuel
      → HasRoom max s.pool
      → Verdict s.world (check_table max client fuel table s)
  unfolding check_table
  check_table-Verdict fuel s l room =
      scan_from-Verdict fuel 0 s l (λ k p e. laws.starts s.world k e) room
