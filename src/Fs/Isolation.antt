-- ===== src/Fs/Isolation.antt =====
-- src/fs.rs: a mount shows what the whitelist names, and nothing else of the export.
use yourfs.Base.{ℕ, List, Option, none, some, ◌≡◌, refl, inl, inr, ◌⊎◌, Bool-cases}
use yourfs.Base.Text.{Text, codes, text_eq}
use yourfs.Base.Int.{ℤ, neg}
use yourfs.Base.Outcome.{Outcome, ok, err}
use yourfs.Fs.Defs.{
  Whitelist, Nfs, Caller, Ids, enoent, eio, real_path, real_or_root, getattr, readlink, open_handle,
  statfs,
}

-- A path of the export that the whitelist gives out.
abbrev pub IsListed : Whitelist → Text → Type 0
IsListed db real = (real ≡ codes "/") ⊎ ((path : Text) × (db.resolve path ≡ ok (some real)))

real_path-IsListed :
    (db : Whitelist) (path : Text)
    → ((e : ℤ) × (real_path db path ≡ err e))
      ⊎ ((real : Text) × (real_path db path ≡ ok real) × IsListed db real)
unfolding real_path
real_path-IsListed db path = go (db.resolve path) refl
  where
    go :
        (r : Outcome Text (Option Text))
        → db.resolve path ≡ r
        → ((e : ℤ) × (real_path db path ≡ err e))
          ⊎ ((real : Text) × (real_path db path ≡ ok real) × IsListed db real)
    go (ok (some real)) h = inr (real, rw (h, real_path), inr (path, h))
    go (ok none) h = inl (neg enoent, rw (h, real_path))
    go (err e) h = inl (neg eio, rw (h, real_path))

real_or_root-IsListed :
    (db : Whitelist) (path : Text)
    → ((e : ℤ) × (real_or_root db path ≡ err e))
      ⊎ ((real : Text) × (real_or_root db path ≡ ok real) × IsListed db real)
unfolding real_or_root
real_or_root-IsListed db path = elim (Bool-cases (text_eq path (codes "/"))) [
  | inl h ↦ inr (codes "/", rw h, inl refl)
  | inr h ↦ elim (real_path-IsListed db path) [
    | inl (e, p) ↦ inl (e, rw h p)
    | inr (real, p, l) ↦ inr (real, rw h p, l)
  ]
]

-- Two exports that a client can tell apart only at paths that the whitelist does not give out.
pub record Agrees {Statvfs : Type 0} (db : Whitelist) (a b : Nfs Statvfs) : Type 0 where
  pub lstat64 :
      (real : Text) → IsListed db real → (c : Caller) → a.lstat64 real c ≡ b.lstat64 real c
  pub readlink :
      (real : Text)
      → IsListed db real
      → (n : ℕ) (c : Caller) → a.readlink real n c ≡ b.readlink real n c
  pub open_file :
      (real : Text)
      → IsListed db real
      → (f : ℤ) (c : Caller) → a.open_file real f c ≡ b.open_file real f c
  pub statvfs : (real : Text) → IsListed db real → a.statvfs real ≡ b.statvfs real

module _ {Statvfs : Type 0} (db : Whitelist) (a b : Nfs Statvfs) (same : Agrees db a b) where
  getattr-Agrees : (ids : Ids) (path : Text) → getattr db a ids path ≡ getattr db b ids path
  unfolding getattr
  getattr-Agrees ids path = elim (real_or_root-IsListed db path) [
    | inl (e, p) ↦ rw p
    | inr (real, p, l) ↦ rw (p, same.lstat64 real l ids.caller)
  ]

  readlink-Agrees :
      (ids : Ids) (path : Text) (buf : List ℕ) (size : ℕ)
      → readlink db a ids path buf size ≡ readlink db b ids path buf size
  unfolding readlink
  readlink-Agrees ids path buf size = elim (real_path-IsListed db path) [
    | inl (e, p) ↦ rw p
    | inr (real, p, l) ↦ rw (p, same.readlink real l size ids.caller)
  ]

  open_handle-Agrees :
      (ids : Ids) (path : Text) (flags : ℤ) (fh : ℕ)
      → open_handle db a ids path flags fh ≡ open_handle db b ids path flags fh
  unfolding open_handle
  open_handle-Agrees ids path flags fh = elim (real_path-IsListed db path) [
    | inl (e, p) ↦ rw (p, open_handle)
    | inr (real, p, l) ↦ rw (p, same.open_file real l flags ids.caller, open_handle)
  ]

  statfs-Agrees : (ids : Ids) (path : Text) → statfs db a ids path ≡ statfs db b ids path
  unfolding statfs
  statfs-Agrees ids path = elim (real_or_root-IsListed db path) [
    | inl (e, p) ↦ rw p
    | inr (real, p, l) ↦ rw (p, same.statvfs real l)
  ]

  -- File isolation: on two exports that agree at the root and at every real path that the whitelist
  -- gives out, `getattr`, `readlink`, `open` and `statfs` return and store the same, whatever path
  -- they are asked for.
  pub handlers-Agrees :
      (ids : Ids) (path : Text)
      → (getattr db a ids path ≡ getattr db b ids path)
        × ((buf : List ℕ) (size : ℕ)
            → readlink db a ids path buf size ≡ readlink db b ids path buf size)
        × ((flags : ℤ) (fh : ℕ)
            → open_handle db a ids path flags fh ≡ open_handle db b ids path flags fh)
        × (statfs db a ids path ≡ statfs db b ids path)
  handlers-Agrees ids path = (
    getattr-Agrees ids path,
    readlink-Agrees ids path,
    open_handle-Agrees ids path,
    statfs-Agrees ids path,
  )
