-- ===== src/Db/Sqlite/Writer/Commits.antt =====
-- src/db.rs, `SqliteWriter::finish`: what is sent, and that nothing is committed before all of it is.
use yourfs.Base.{
  ℕ, ◌+◌, false, List, [], ◌∷◌, ◌++◌, ◌≡◌, ◌≢◌, refl, sym, ap, ◌∙◌, append_assoc, append-nil,
  is_empty,
}
use mathlib.Core.Path.{subst}
use yourfs.Base.Text.{Text, codes}
use yourfs.Base.Int.{pos}
use yourfs.Base.Outcome.{Outcome, ok, err, and_then}
use yourfs.Db.Keys.{Failure}
use yourfs.Db.Sqlite.{Value, text, int, Client}
use yourfs.Db.Sqlite.Writer.{SqliteWriter, insert_sql, concluded, inserts, transaction, finish}
use yourfs.Scan.Walk.Rows.{Row}

-- A statement that was carried out.
pub data Sent : Type 0 where
  batched : Text → Sent
  executed : Text → List Value → Sent

-- `log` has the statements that were carried out: a call that reports no error adds its own.
pub record IsLogged {W : Type 0} (client : Client W) (log : W → List Sent) : Type 0 where
  pub prepares : (c : ℕ) (sql : Text) (u : W) → log (client.prepare c sql u).1 ≡ log u
  pub batches :
      (c : ℕ) (sql : Text) (u v : W) (a : Unit {0})
      → client.execute_batch c sql u ≡ (ok a, v)
      → log v ≡ log u ++ batched sql ∷ []
  pub executes :
      (c : ℕ) (sql : Text) (params : List Value) (u v : W) (a : Unit {0})
      → client.execute c sql params u ≡ (ok a, v)
      → log v ≡ log u ++ executed sql params ∷ []
  pub batch_fails :
      (c : ℕ) (sql : Text) (u v : W) (e : Text)
      → client.execute_batch c sql u ≡ (err e, v)
      → log v ≡ log u
  pub execute_fails :
      (c : ℕ) (sql : Text) (params : List Value) (u v : W) (e : Text)
      → client.execute c sql params u ≡ (err e, v)
      → log v ≡ log u

-- The rows with their numbers.
unfoldable pub numbered : Text → ℕ → List Row → List Sent
numbered sql i [] = []
numbered sql i ((p, n, x) ∷ rs) =
    executed sql (int (pos (i + 1)) ∷ text p ∷ text n ∷ text x ∷ []) ∷ numbered sql (i + 1) rs

-- All of `finish` but the end.
abbrev pub before_commit : Text → List Row → List Sent
before_commit table rs = batched (codes "BEGIN") ∷ numbered (insert_sql table) 0 rs

not_empty : (rs : List Row) → rs ≢ [] → is_empty rs ≡ false
not_empty [] h = absurd (h refl)
not_empty (r ∷ rs) h = refl

module _ {W : Type 0} (client : Client W) (log : W → List Sent) (logged : IsLogged client log) where
  -- The plan is carried out, or a beginning of it and an error.
  abbrev Follows : List Sent → W → Outcome Text (Unit {0}) × W → Type 0
  Follows p u (ok a, v) = log v ≡ log u ++ p
  Follows p u (err e, v) =
      (xs : List Sent) × (ys : List Sent) × (p ≡ xs ++ ys) × (log v ≡ log u ++ xs)

  batch-Follows :
      (c : ℕ) (sql : Text) (u : W) (r : Outcome Text (Unit {0}) × W)
      → client.execute_batch c sql u ≡ r
      → Follows (batched sql ∷ []) u r
  batch-Follows c sql u (ok a, v) e = logged.batches c sql u v a e
  batch-Follows c sql u (err m, v) e =
      ([], batched sql ∷ [], refl, logged.batch_fails c sql u v m e ∙ sym (append-nil (log u)))

  execute-Follows :
      (c : ℕ) (sql : Text) (params : List Value) (u : W) (r : Outcome Text (Unit {0}) × W)
      → client.execute c sql params u ≡ r
      → Follows (executed sql params ∷ []) u r
  execute-Follows c sql params u (ok a, v) e = logged.executes c sql params u v a e
  execute-Follows c sql params u (err m, v) e = (
    [],
    executed sql params ∷ [],
    refl,
    logged.execute_fails c sql params u v m e ∙ sym (append-nil (log u)),
  )

  prepare-Follows : (u : W) (r : Outcome Text (Unit {0}) × W) → log r.1 ≡ log u → Follows [] u r
  prepare-Follows u (ok a, v) e = e ∙ sym (append-nil (log u))
  prepare-Follows u (err m, v) e = ([], [], refl, e ∙ sym (append-nil (log u)))

  further :
      (p q : List Sent) (u w : W) (r : Outcome Text (Unit {0}) × W)
      → log w ≡ log u ++ p
      → Follows q w r
      → Follows (p ++ q) u r
  further p q u w (ok a, v) e f = f ∙ ap (λ (l : List Sent). l ++ q) e ∙ append_assoc (log u) p q
  further p q u w (err m, v) e (xs, ys, f, g) = (
    p ++ xs,
    ys,
    ap (λ (l : List Sent). p ++ l) f ∙ sym (append_assoc p xs ys),
    g ∙ ap (λ (l : List Sent). l ++ xs) e ∙ append_assoc (log u) p xs,
  )

  and_then-Follows :
      (p q : List Sent) (u : W) (r : Outcome Text (Unit {0}) × W)
      (next : Unit {0} → W → Outcome Text (Unit {0}) × W)
      → Follows p u r
      → ((a : Unit {0}) (w : W) → Follows q w (next a w))
      → Follows (p ++ q) u (and_then r next)
  unfolding and_then
  and_then-Follows p q u (ok a, w) next f g = further p q u w (next a w) f (g a w)
  and_then-Follows p q u (err m, v) next (xs, ys, f, h) g =
      (xs, ys ++ q, ap (λ (l : List Sent). l ++ q) f ∙ append_assoc xs ys q, h)

  inserts-Follows :
      (c : ℕ) (sql : Text) (i : ℕ) (rs : List Row) (u : W)
      → Follows (numbered sql i rs) u (inserts client c sql i rs u)
  unfolding inserts numbered
  inserts-Follows c sql i [] u = sym (append-nil (log u))
  inserts-Follows c sql i ((p, n, x) ∷ rs) u =
      let params = int (pos (i + 1)) ∷ text p ∷ text n ∷ text x ∷ [] in
      and_then-Follows (executed sql params ∷ []) (numbered sql (i + 1) rs) u
        (client.execute c sql params u) _ (execute-Follows c sql params u _ refl)
        (λ a w. inserts-Follows c sql (i + 1) rs w)

  -- The plan and the commit, or a beginning of the plan and an error.
  abbrev pub Commits : List Sent → W → Outcome Text (Unit {0}) × W → Type 0
  Commits p u (ok a, v) = log v ≡ log u ++ (p ++ batched (codes "COMMIT") ∷ [])
  Commits p u (err e, v) =
      (xs : List Sent) × (ys : List Sent) × (p ≡ xs ++ ys) × (log v ≡ log u ++ xs)

  commit-Commits :
      (c : ℕ) (u : W) (r : Outcome Text (Unit {0}) × W)
      → client.execute_batch c (codes "COMMIT") u ≡ r
      → Commits [] u r
  commit-Commits c u (ok a, v) e = logged.batches c (codes "COMMIT") u v a e
  commit-Commits c u (err m, v) e =
      ([], [], refl, logged.batch_fails c (codes "COMMIT") u v m e ∙ sym (append-nil (log u)))

  then-Commits :
      (p q : List Sent) (u w : W) (r : Outcome Text (Unit {0}) × W)
      → log w ≡ log u ++ p
      → Commits q w r
      → Commits (p ++ q) u r
  then-Commits p q u w (ok a, v) e f =
      let end = batched (codes "COMMIT") ∷ [] in
      f
      ∙ ap (λ (l : List Sent). l ++ (q ++ end)) e
      ∙ append_assoc (log u) p (q ++ end)
      ∙ ap (λ (l : List Sent). log u ++ l) (sym (append_assoc p q end))
  then-Commits p q u w (err m, v) e f = further p q u w (err m, v) e f

  and_then-Commits :
      (p q : List Sent) (u : W) (r : Outcome Text (Unit {0}) × W)
      (next : Unit {0} → W → Outcome Text (Unit {0}) × W)
      → Follows p u r
      → ((a : Unit {0}) (w : W) → Commits q w (next a w))
      → Commits (p ++ q) u (and_then r next)
  unfolding and_then
  and_then-Commits p q u (ok a, w) next f g = then-Commits p q u w (next a w) f (g a w)
  and_then-Commits p q u (err m, v) next (xs, ys, f, h) g =
      (xs, ys ++ q, ap (λ (l : List Sent). l ++ q) f ∙ append_assoc xs ys q, h)

  transaction-Commits :
      (c : ℕ) (table : Text) (rs : List Row) (u : W)
      → Commits (before_commit table rs) u (transaction client table rs c u)
  unfolding transaction
  transaction-Commits c table rs u =
      let sql = insert_sql table in
      let plan = numbered sql 0 rs in
      subst
        (λ (l : List Sent).
          Commits (batched (codes "BEGIN") ∷ l) u (transaction client table rs c u))
        (append-nil plan)
        (and_then-Commits (batched (codes "BEGIN") ∷ []) (plan ++ []) u
          (client.execute_batch c (codes "BEGIN") u) _ (batch-Follows c (codes "BEGIN") u _ refl)
          (λ a w1.
            and_then-Commits [] (plan ++ []) w1 (client.prepare c sql w1) _
              (prepare-Follows w1 _ (logged.prepares c sql w1))
              (λ b w2.
                and_then-Commits plan [] w2 (inserts client c sql 0 rs w2) _
                  (inserts-Follows c sql 0 rs w2) (λ d w3. commit-Commits c w3 _ refl))))

  -- What `finish` leaves.
  abbrev pub Finished : SqliteWriter → W → Outcome Failure (Unit {0}) × SqliteWriter × W → Type 0
  Finished r u (ok a, s, v) =
      (s ≡ record r { batch = [] })
      × (log v ≡ log u ++ (before_commit r.table r.batch ++ batched (codes "COMMIT") ∷ []))
  Finished r u (err e, s, v) =
      (s ≡ r)
      × ((xs : List Sent) × (ys : List Sent) × (before_commit r.table r.batch ≡ xs ++ ys)
          × (log v ≡ log u ++ xs))

  concluded-Finished :
      (r : SqliteWriter) (u : W) (d : Outcome Text (Unit {0}) × W)
      → Commits (before_commit r.table r.batch) u d
      → Finished r u (concluded client (λ s. record s { batch = [] }) r d)
  unfolding concluded
  concluded-Finished r u (ok a, v) h = (refl, h)
  concluded-Finished r u (err e, v) h = (refl, h)

  -- A writer that has rows: a `finish` with no error has opened a transaction, inserted the rows in
  -- their order with the numbers from 1 on, and committed it, and the writer is empty. A `finish` with
  -- an error has carried out a beginning of that, with no commit, and the writer has its rows.
  pub finish-Finished : (r : SqliteWriter) (u : W) → r.batch ≢ [] → Finished r u (finish client r u)
  unfolding finish
  finish-Finished r u h = rw (not_empty r.batch h) (
      concluded-Finished r u (transaction client r.table r.batch r.conn u)
        (transaction-Commits r.conn r.table r.batch u))
