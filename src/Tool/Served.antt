-- ===== src/Tool/Served.antt =====
-- src/scan.rs, src/bin/yourfs_tool.rs and the redis backend of src/db.rs: what is resolved in the end.
pub mod Spelled
pub mod Told
pub mod Single
pub mod Tables
use yourfs.Base.{
  ℕ, ◌<◌, Bool, true, false, List, [], ◌∷◌, ◌++◌, Option, none, some, if◌then◌else◌, length, All,
  ◌⊎◌, ◌≡◌, ◌≢◌, refl, sym, ap, ◌∙◌, arith, inl, inr,
}
use mathlib.Core.Path.{subst}
use yourfs.Base.Text.{Text, codes, text_eq, Lacks}
use yourfs.Paths.{split_path}
use yourfs.Scan.Walk.{dir, Entries, scan_to_file}
use yourfs.Scan.Walk.Rows.{rows, parent_of, split_path_entry, IsPlain, AllNames}
use yourfs.Load.{Loaded, load}
use yourfs.Load.RoundTrip.{IsName, AllNames-IsPlain, scan-load}
use yourfs.Db.Keys.{Failure, is_prefix}
use yourfs.Db.Retry.{answer, State}
use yourfs.Db.Retry.Answers.{IsUp, HasRoom}
use yourfs.Db.Redis.{Cmd, Client, server, resolve, list}
use yourfs.Db.Redis.Laws.{elem, IsSorted, View, IsRedis}
use yourfs.Db.Redis.Writer.{RedisWriter}
use yourfs.Db.Redis.Contents.{lookup, Holds}
use yourfs.Db.Redis.Reader.{resolve-IsUp, list-IsUp}
use yourfs.Tool.{Exit, loaded, failed as fails, write_mode}
use yourfs.Tool.Publish.{Session, redis_writer, write_mode-Published}
use yourfs.Tool.Served.Spelled.{spell, has_entry}
use yourfs.Tool.Served.Told.{rows-Tells}
use yourfs.Tool.Served.Single.{below_root}

-- The rows of a tree, looked up.
pub lookup-rows :
    (es : Entries) (ds : List Text) (n : Text)
    → AllNames IsPlain es
    → All IsPlain ds
    → IsPlain n
    → lookup (rows [] es) (spell ds ++ b'/' ∷ n)
      ≡ (if has_entry es ds n then some (spell ds ++ b'/' ∷ n) else none)
unfolding lookup
lookup-rows es ds n h k p =
    let told = rows-Tells [] es ds n h k in
    rw (below_root (spell ds) n p.0, split_path_entry (spell ds) n p) told.real_told

module _ {W : Type 0} (client : Client W) (view : View W) (laws : IsRedis view client) (fuel : ℕ)
    (table : Text) where
  -- How a scan ends that is written to a server: in failure, or with the rows of the tree on it.
  pub scan-Holds :
      (scan_path : Text) (es : Entries) (r : RedisWriter) (u : W)
      → AllNames IsName es
      → r.batch ≡ []
      → view.left u 0 < fuel
      → (file : Text) × (scan_to_file scan_path (dir es) ≡ some file)
        × ((x : Exit × Session W) × (write_mode
                (redis_writer client fuel)
                table
                file
                (record { writer = r; outside = u })
              ≡ some x)
            × ((x.0 ≡ fails)
                ⊎ ((x.0 ≡ loaded (length (rows [] es)) 0)
                    × Holds view table (rows [] es) x.1.outside)))
  scan-Holds scan_path es r u h b f =
      let (file, e, l) = scan-load scan_path es h in
      let (x, q, ends) = write_mode-Published client view laws fuel table file r u b f in
      (
        file,
        e,
        (
          x,
          q,
          elim ends [
            | inl g ↦ inl g
            | inr (g, i, p) ↦ inr (
              g ∙ ap (λ (m : Loaded). loaded m.n m.skipped) l,
              subst (λ (m : Loaded). Holds view table m.inserted x.1.outside) l p.held,
            )
          ],
        ),
      )

module _ {W : Type 0} (client : Client W) (view : View W) (laws : IsRedis view client)
    (fuel max : ℕ) (table : Text) (up : (c : Cmd) → IsUp (server max client c)) where
  -- A mount of the server resolves the paths of the tree, and no others, and lists its folders.
  pub record Serves (es : Entries) (w : W) : Type 0 where
    pub resolves :
        (s : State W) (ds : List Text) (n : Text)
        → s.world ≡ w
        → HasRoom max s.pool
        → All IsPlain ds
        → IsPlain n
        → let path = spell ds ++ b'/' ∷ n in
          (t : State W) × (resolve max client table path s
            ≡ (answer (if has_entry es ds n then some path else none), t))
          × HasRoom max t.pool
    pub lists :
        (s : State W) (ds : List Text)
        → s.world ≡ w
        → HasRoom max s.pool
        → All IsPlain ds
        → (names : List Text) × (t : State W) × (list max client table (parent_of (spell ds)) s
            ≡ (answer names, t))
          × HasRoom max t.pool
          × IsSorted names
          × ((n : Text) → elem n names ≡ has_entry es ds n)

  Holds-Serves :
      (es : Entries) (w : W) → AllNames IsPlain es → Holds view table (rows [] es) w → Serves es w
  Holds-Serves es w h held = record {
    resolves = λ s ds n e room k p.
        let path = spell ds ++ b'/' ∷ n in
        let (t, q, m, again) =
          resolve-IsUp max client view laws table (rows [] es) path s up room (rw e held) in
        (
          t,
          subst (λ (x : Option Text). resolve max client table path s ≡ (answer x, t))
              (lookup-rows es ds n h k p) q,
          m,
        );
    lists = λ s ds e room k.
        let (names, t, q, m, sorted, same) =
          list-IsUp max client view laws table (rows [] es) (parent_of (spell ds)) s up room
            (rw e held) in
        (names, t, q, m, sorted, λ n. same n ∙ (rows-Tells [] es ds n h k).child_told);
  }

  -- A tree whose names have no newline is scanned to a file, and with fuel for the rounds of the server
  -- the write mode on that file comes to an end. The program fails, or it counts every row and skips
  -- none, and then, in one answer each while the server is up and the pool has room, a mount of the
  -- server resolves a path exactly when the tree has an entry there, to that path, and lists a folder
  -- with the names that the tree has in it, each once and in byte order.
  pub scan-resolve :
      (scan_path : Text) (es : Entries) (r : RedisWriter) (u : W)
      → AllNames IsName es
      → r.batch ≡ []
      → view.left u 0 < fuel
      → (file : Text) × (scan_to_file scan_path (dir es) ≡ some file)
        × ((x : Exit × Session W) × (write_mode
                (redis_writer client fuel)
                table
                file
                (record { writer = r; outside = u })
              ≡ some x)
            × ((x.0 ≡ fails) ⊎ ((x.0 ≡ loaded (length (rows [] es)) 0) × Serves es x.1.outside)))
  scan-resolve scan_path es r u h b f =
      let (file, e, (x, q, ends)) = scan-Holds client view laws fuel table scan_path es r u h b f in
      (
        file,
        e,
        (
          x,
          q,
          elim ends [
            | inl g ↦ inl g
            | inr (g, held) ↦ inr (g, Holds-Serves es x.1.outside (AllNames-IsPlain es h) held)
          ],
        ),
      )
