-- ===== src/Fs/Live/Requests.antt =====
-- src/fs.rs and src/nfscli.rs: what reaches the NFS server.
use yourfs.Base.{
  ℕ, Bool, List, [], ◌∷◌, Option, none, some, All, ◌≡◌, refl, sym, ap, ◌⊎◌, Bool-cases, inl, inr,
}
use mathlib.Core.Path.{subst}
use yourfs.Base.Text.{Text, codes, text_eq}
use yourfs.Base.Int.{ℤ}
use yourfs.Base.Outcome.{Outcome, ok, err, and_then}
use yourfs.Db.Cache.{Database}
use yourfs.Db.Mounted.Speaks.{Speaks}
use yourfs.Fs.Defs.{Caller, Ids}
use yourfs.Nfs.Defs.{
  NfsPool, Request, lstats, readlinks, statvfses, Link, open_file, lstat64, statvfs,
}
use yourfs.Nfs.Readlink as nfs_readlink
use yourfs.Nfs.Files.{read_file}
use yourfs.Nfs.Named.{Names, open_file-keeps, read_file-keeps, release_file-keeps}
use yourfs.Fs.Live.{
  Mount, Call, getattrs, opens, reads, releases, readdirs, statfses, Result, answered, on_nfs,
  real_path, real_or_root, getattr, readlink, opened, open_on, open_handle, statfs, readdir, serve,
  serve_all,
}
use yourfs.Fs.Live as live

answered-ok :
    (o : Outcome Text (Option Text)) (real : Text) → answered o ≡ ok real → o ≡ ok (some real)
unfolding answered
answered-ok (ok (some r)) real h =
    ap (λ (x : Outcome ℤ Text). elim x [ ok y ↦ ok (some y) | err e ↦ ok (some r) ]) h
answered-ok (ok none) real h = cc
answered-ok (err e) real h = cc

-- The paths of the export that a whitelist gives out, and the root.
abbrev pub Listed : (Text → Option Text) → Text → Type 0
Listed says real = (real ≡ codes "/") ⊎ ((path : Text) × (says path ≡ some real))

module _ {V W Statvfs : Type 0} (db : Database V) (table : Text) (link : Link W Statvfs)
    (lossy : List ℕ → List ℕ) (Good : V → Type 0) (says : Text → Option Text)
    (child : Text → Text → Bool) (speaks : Speaks db table Good says child) (I : W → Type 0)
    (keeps : (i : ℕ) (c : Option Caller) (q : Request) (w : W)
      → I w
      → Names (Listed says) q
      → I (link i c q w).1) where
  -- The whitelist is as the contract has it, and the server as the invariant has it.
  pub record Fine (m : Mount V W) : Type 0 where
    pub good : Good m.whitelist
    pub held : I m.net

  -- A value that satisfies `P`, if there is one, in a fine state.
  abbrev Safe : {A : Type 0} → (A → Type 0) → Outcome ℤ A × Mount V W → Type 0
  Safe {A} P r = ((a : A) → r.0 ≡ ok a → P a) × Fine r.1

  and_then-Fine :
      {A B : Type 0} (P : A → Type 0) (r : Outcome ℤ A × Mount V W)
      (next : A → Mount V W → Outcome ℤ B × Mount V W)
      → Safe P r
      → ((a : A) (m : Mount V W) → P a → Fine m → Fine (next a m).1)
      → Fine (and_then r next).1
  unfolding and_then
  and_then-Fine P (ok a, m) next h k = k a m (h.0 a refl) h.1
  and_then-Fine P (err e, m) next h k = h.1

  real_path-Safe :
      (path : Text) (m : Mount V W)
      → Fine m
      → Safe (Listed says) (real_path db table link lossy path m)
  unfolding real_path
  real_path-Safe path m f = (
    (λ real e. inr (
      path,
      sym (
          speaks.resolves path m.whitelist (some real) f.good
            (answered-ok (db.resolve table path m.whitelist).0 real e)),
    )),
    record { good = speaks.resolve_keeps path m.whitelist f.good; held = f.held },
  )

  real_or_root-Safe :
      (path : Text) (m : Mount V W)
      → Fine m
      → Safe (Listed says) (real_or_root db table link lossy path m)
  unfolding real_or_root
  real_or_root-Safe path m f = elim (Bool-cases (text_eq path (codes "/"))) [
    | inl h ↦ rw h (λ real e. inl (root_of real e), f)
    | inr h ↦ rw h (real_path-Safe path m f)
  ]
    where
      root_of :
          (real : Text) → ◌≡◌ {A = Outcome ℤ Text} (ok (codes "/")) (ok real) → real ≡ codes "/"
      root_of real e = sym (ap (λ (o : Outcome ℤ Text). elim o [ ok x ↦ x | err x ↦ codes "/" ]) e)

  -- The state after a call of the client that keeps the invariant.
  after_nfs :
      {A : Type 0} (call : NfsPool × W → A × NfsPool × W) (m : Mount V W)
      → Fine m
      → I (call (m.pool, m.net)).2
      → Fine (on_nfs db table link lossy call m).1
  unfolding on_nfs
  after_nfs call m f h = record { good = f.good; held = h }

  getattr-Fine :
      (ids : Ids) (path : Text) (m : Mount V W)
      → Fine m
      → Fine (getattr db table link lossy ids path m).1
  unfolding getattr lstat64
  getattr-Fine ids path m f =
      and_then-Fine (Listed says) _ _ (real_or_root-Safe path m f) (λ real n l g.
        and_then-Fine (λ st. Unit) _ _
          (
            (λ st e. tt),
            after_nfs (lstat64 link real ids.caller) n g
                (keeps _ (some ids.caller) (lstats real) n.net g.held l),
          )
          (λ st o u h. h))

  readlink-Fine :
      (ids : Ids) (path : Text) (buf : List ℕ) (size : ℕ) (m : Mount V W)
      → Fine m
      → Fine (readlink db table link lossy ids path buf size m).1
  unfolding readlink nfs_readlink.readlink
  readlink-Fine ids path buf size m f =
      and_then-Fine (Listed says) _ _ (real_path-Safe path m f) (λ real n l g.
        and_then-Fine (λ target. Unit) _ _
          (
            (λ target e. tt),
            after_nfs (nfs_readlink.readlink link lossy real size ids.caller) n g
                (keeps _ (some ids.caller) (readlinks real) n.net g.held l),
          )
          (λ target o u h. h))

  statfs-Fine : (path : Text) (m : Mount V W) → Fine m → Fine (statfs db table link lossy path m).1
  unfolding statfs statvfs
  statfs-Fine path m f = and_then-Fine (Listed says) _ _ (real_or_root-Safe path m f) (λ real n l g.
      after_nfs (statvfs link real) n g (keeps _ none (statvfses real) n.net g.held l))

  opened-Fine : (r : Outcome ℤ ℕ × Mount V W) → Fine r.1 → Fine (opened db table link lossy r).1
  unfolding opened
  opened-Fine (ok h, m) f = f
  opened-Fine (err e, m) f = f

  open_on-Fine :
      (ids : Ids) (flags : ℤ) (fh : ℕ) (r : Outcome ℤ Text × Mount V W)
      → Safe (Listed says) r
      → Fine (open_on db table link lossy ids flags fh r).1
  unfolding open_on
  open_on-Fine ids flags fh (ok real, m) h =
      opened-Fine (on_nfs db table link lossy (open_file link real flags ids.caller) m) (
        after_nfs (open_file link real flags ids.caller) m h.1 (
          open_file-keeps link (Listed says) I keeps real flags ids.caller m.pool m.net h.1.held
            (h.0 real refl)))
  open_on-Fine ids flags fh (err e, m) h = h.1

  serve-Fine :
      (ids : Ids) (call : Call) (m : Mount V W)
      → Fine m
      → Fine (serve db table link lossy ids call m).1
  unfolding serve open_handle readdir
  serve-Fine ids (getattrs path) m f = getattr-Fine ids path m f
  serve-Fine ids (live.readlinks path buf size) m f = readlink-Fine ids path buf size m f
  serve-Fine ids (opens path flags fh) m f =
      open_on-Fine ids flags fh (real_path db table link lossy path m) (real_path-Safe path m f)
  serve-Fine ids (reads fh offset buf) m f =
      after_nfs (read_file link fh offset buf ids.caller) m f
        (read_file-keeps link (Listed says) I keeps fh offset buf ids.caller m.pool m.net f.held)
  serve-Fine ids (releases fh) m f = record {
    good = f.good;
    held = release_file-keeps link (Listed says) I keeps fh m.pool m.net f.held;
  }
  serve-Fine ids (readdirs path) m f = record {
    good = speaks.list_keeps path m.whitelist f.good;
    held = f.held;
  }
  serve-Fine ids (statfses path) m f = statfs-Fine path m f

  pub serve_all-Fine :
      (calls : List (Ids × Call)) (m : Mount V W)
      → Fine m
      → Fine (serve_all db table link lossy calls m).1
  unfolding serve_all
  serve_all-Fine [] m f = f
  serve_all-Fine ((ids, call) ∷ calls) m f =
      serve_all-Fine calls (serve db table link lossy ids call m).1 (serve-Fine ids call m f)

-- `log` is what the server has been asked, newest first.
abbrev pub IsLog : {W Statvfs : Type 0} → Link W Statvfs → (W → List Request) → Type 0
IsLog link log =
    (i : ℕ) (c : Option Caller) (q : Request) (w : _) → log (link i c q w).1 ≡ q ∷ log w

pub serve_all-Listed :
    {V W Statvfs : Type 0} (db : Database V) (table : Text) (link : Link W Statvfs)
    (lossy : List ℕ → List ℕ) (Good : V → Type 0) (says : Text → Option Text)
    (child : Text → Text → Bool) (log : W → List Request) (calls : List (Ids × Call))
    (m : Mount V W)
    → Speaks db table Good says child
    → IsLog link log
    → Good m.whitelist
    → All (Names (Listed says)) (log m.net)
    → let n = (serve_all db table link lossy calls m).1 in
      All (Names (Listed says)) (log n.net) × Good n.whitelist
serve_all-Listed {W = W} db table link lossy Good says child log calls m speaks logged good asked =
    let I : W → Type 0 = λ w. All (Names (Listed says)) (log w) in
    let f =
      serve_all-Fine db table link lossy Good says child speaks I
        (λ i c q w h k. subst (All (Names (Listed says))) (sym (logged i c q w)) (k, h)) calls m
        (record { good = good; held = asked }) in
    (f.held, f.good)
