-- ===== src/Nfs/Named.antt =====
-- src/nfscli.rs: the paths that requests name, and what the operations keep if requests keep it.
use yourfs.Base.{ℕ, List, Option, none, some, length, Bool-cases, inl, inr, ◌==◌, is_empty}
use yourfs.Base.Text.{Text}
use yourfs.Base.Int.{ℤ}
use yourfs.Fs.Defs.{Caller}
use yourfs.Nfs.Defs.{
  Request, lstats, opens, closes, preads, statvfses, readlinks, NfsPool, Link, pick, open_file,
  closed, close, pread_on, pread, find,
}
use yourfs.Nfs.Files.{read_file, release_file}

-- The path that a request names, if it names one.
abbrev pub Names : (Text → Type 0) → Request → Type 0
Names P (lstats path) = P path
Names P (opens path flags) = P path
Names P (statvfses path) = P path
Names P (readlinks path) = P path
Names P (closes fh) = Unit
Names P (preads fh offset size) = Unit

module _ {W Statvfs : Type 0} (link : Link W Statvfs) (P : Text → Type 0) (I : W → Type 0)
    (keeps : (i : ℕ) (c : Option Caller) (q : Request) (w : W)
      → I w
      → Names P q
      → I (link i c q w).1) where
  pub open_file-keeps :
      (path : Text) (flags : ℤ) (c : Caller) (p : NfsPool) (w : W)
      → I w
      → P path
      → I (open_file link path flags c (p, w)).2
  unfolding open_file pick
  open_file-keeps path flags c p w h k = keeps _ (some c) (opens path flags) w h k

  close-keeps : (fh : ℕ) (p : NfsPool) (w : W) → I w → I (close link fh (p, w)).1
  unfolding close closed
  close-keeps fh p w h = elim (find fh p.open_files) as (λ o. I (closed link fh o (p, w)).1) [
    | none ↦ h
    | some i ↦ keeps i none (closes fh) w h tt
  ]

  pread-keeps :
      (fh offset : ℕ) (buf : List ℕ) (c : Caller) (p : NfsPool) (w : W)
      → I w
      → I (pread link fh offset buf c (p, w)).2
  unfolding pread pread_on
  pread-keeps fh offset buf c p w h =
      elim (find fh p.open_files) as (λ o. I (pread_on link o fh offset buf c (p, w)).2) [
        | none ↦ h
        | some i ↦ keeps i (some c) (preads fh offset (length buf)) w h tt
      ]

  pub read_file-keeps :
      (fh : ℕ) (offset : ℤ) (buf : List ℕ) (c : Caller) (p : NfsPool) (w : W)
      → I w
      → I (read_file link fh offset buf c (p, w)).2
  unfolding read_file
  read_file-keeps fh offset buf c p w h = elim (Bool-cases (is_empty buf)) [
    | inl e ↦ rw e h
    | inr e ↦ rw e (pread-keeps fh _ buf c p w h)
  ]

  pub release_file-keeps : (fh : ℕ) (p : NfsPool) (w : W) → I w → I (release_file link fh (p, w)).1
  unfolding release_file
  release_file-keeps fh p w h = elim (Bool-cases (fh == 0)) [
    | inl e ↦ rw e h
    | inr e ↦ rw e (close-keeps fh p w h)
  ]
