-- ===== src/Nfs/Routing.antt =====
-- src/nfscli.rs: a handle stays with the connection that opened it.
use yourfs.Base.{
  ℕ, zero, suc, ◌≤◌, ◌<◌, Bool, true, false, List, [], ◌∷◌, Option, none, some, ◌==◌, if◌then◌else◌,
  ◌≡◌, ◌≢◌, refl, arith, inl, inr, Option-cases, ◌∙◌,
}
use yourfs.Base.Text.{Text}
use yourfs.Base.Int.{ℤ, neg}
use yourfs.Base.Outcome.{ok, err}
use yourfs.Fs.Defs.{Caller, eio}
use yourfs.Nfs.Defs.{
  NfsPool, find, remove, mount_more, init, pick, Link, lstat64, statvfs, open_file, close, pread,
}

find-remove :
    (h k : ℕ) (m : List (ℕ × ℕ)) → find k (remove h m) ≡ (if h == k then none else find k m)
unfolding find remove
find-remove h k [] = ground arith
find-remove h k ((l, j) ∷ m) = ground (arith, find-remove h k m)

-- The calls that the FUSE threads make.
pub data Call : Type 0 where
  lstats : Text → Caller → Call
  statvfses : Text → Call
  opens : Text → ℤ → Caller → Call
  closes : ℕ → Call
  preads : ℕ → ℕ → List ℕ → Caller → Call

module _ {W Statvfs : Type 0} (link : Link W Statvfs) where
  -- The state after a call, and the handle that it opened.
  unfoldable pub perform : Call → NfsPool × W → Option ℕ × NfsPool × W
  perform (lstats path caller) s = let r = lstat64 link path caller s in (none, r.1, r.2)
  perform (statvfses path) s = let r = statvfs link path s in (none, r.1, r.2)
  perform (opens path flags caller) s =
      let r = open_file link path flags caller s in
      (elim r.0 [ ok h ↦ some h | err e ↦ none ], r.1, r.2)
  perform (closes fh) s = let r = close link fh s in (none, r.0, r.1)
  perform (preads fh offset buf caller) s =
      let r = pread link fh offset buf caller s in (none, r.1, r.2)

  unfoldable pub perform_all : List Call → NfsPool × W → NfsPool × W
  perform_all [] s = s
  perform_all (c ∷ cs) s = let r = perform c s in perform_all cs (r.1, r.2)

  -- No call of the run closes the handle, and none is given it by a further open.
  unfoldable pub Keeps : ℕ → List Call → NfsPool × W → Type 0
  Keeps h [] s = Unit
  Keeps h (c ∷ cs) s =
      let r = perform c s in
      ((k : ℕ) → c ≡ closes k → k ≢ h) × (r.0 ≢ some h) × Keeps h cs (r.1, r.2)

  close-find : (fh : ℕ) (p : NfsPool) (w : W) → find fh (close link fh (p, w)).0.open_files ≡ none
  unfolding close
  close-find fh p w = elim (Option-cases (find fh p.open_files)) [
    | inl e ↦ rw (e, close) e
    | inr (i, e) ↦ rw (e, close) (ground (arith, find-remove fh fh p.open_files))
  ]

  unknown_handle :
      (fh offset : ℕ) (buf : List ℕ) (caller : Caller) (p : NfsPool) (w : W)
      → find fh p.open_files ≡ none
      → (pread link fh offset buf caller (p, w) ≡ ((err (neg eio), buf), p, w))
        × (close link fh (p, w) ≡ (p, w))
  unfolding close pread
  unknown_handle fh offset buf caller p w e = (rw (e, pread), rw (e, close))

  -- After a close, a read of the same handle fails with EIO and reaches no connection: the buffer,
  -- the pool and what lies behind it are as the close left them. A second close does nothing.
  pread-close :
      (fh offset : ℕ) (buf : List ℕ) (caller : Caller) (p : NfsPool) (w : W)
      → let s = close link fh (p, w) in
        (pread link fh offset buf caller s ≡ ((err (neg eio), buf), s.0, s.1))
        × (close link fh s ≡ s)
  pread-close fh offset buf caller p w =
      let s = close link fh (p, w) in
      unknown_handle fh offset buf caller s.0 s.1 (close-find fh p w)

  perform-slots : (c : Call) (p : NfsPool) (w : W) → (perform c (p, w)).1.slots ≡ p.slots
  unfolding perform lstat64 statvfs open_file close pread pick
  perform-slots (lstats path caller) p w = refl
  perform-slots (statvfses path) p w = refl
  perform-slots (opens path flags caller) p w = ground arith
  perform-slots (closes fh) p w = ground arith
  perform-slots (preads fh offset buf caller) p w = ground arith

  perform_all-slots :
      (cs : List Call) (p : NfsPool) (w : W) → (perform_all cs (p, w)).0.slots ≡ p.slots
  unfolding perform_all
  perform_all-slots [] p w = refl
  perform_all-slots (c ∷ cs) p w =
      let r = perform c (p, w) in perform_all-slots cs r.1 r.2 ∙ perform-slots c p w

mount_more-le : (n : ℕ) (mounts : List Bool) → mount_more n mounts ≤ n
unfolding mount_more
mount_more-le zero mounts = omega arith
mount_more-le (suc n) [] = omega arith
mount_more-le (suc n) (false ∷ mounts) = omega arith
mount_more-le (suc n) (true ∷ mounts) = omega (arith, mount_more-le n mounts)

-- A pool opens at least one connection and at most `pool_size` (or one). After any run of calls,
-- the connection that is picked next is one of them.
pick-lt-slots :
    {W Statvfs : Type 0} (link : Link W Statvfs) (pool_size : ℕ) (mounts : List Bool)
    (cs : List Call) (w : W)
    → let s = perform_all link cs (init pool_size mounts, w) in
      ((pick s.0).0 < s.0.slots) × (s.0.slots ≤ (if pool_size == 0 then 1 else pool_size))
pick-lt-slots link pool_size mounts cs w =
    let s = perform_all link cs (init pool_size mounts, w) in
    let kept = perform_all-slots link cs (init pool_size mounts) w in
    let b = init-slots pool_size mounts in
    (unfold pick in omega (arith, kept, b.0), omega (arith, kept, b.1))
  where
    init-slots :
        (n : ℕ) (ms : List Bool)
        → (0 < (init n ms).slots) × ((init n ms).slots ≤ (if n == 0 then 1 else n))
    init-slots zero ms = unfold init mount_more in (omega arith, omega arith)
    init-slots (suc n) ms = unfold init in (omega arith, ground (arith, mount_more-le n ms))
