-- ===== src/Nfs/Files.antt =====
-- src/fs.rs: `yourfs_read` and `yourfs_release`, over the pool of src/nfscli.rs. The handle is the `fh` of
-- the open file, 0 for none.
use yourfs.Base.{ℕ, ◌%◌, ◌^◌, List, ◌==◌, if◌then◌else◌, is_empty}
use yourfs.Base.Int.{ℤ, pos, to_i32, to_u64}
use yourfs.Base.Outcome.{Outcome, ok, err}
use yourfs.Fs.Defs.{Caller}
use yourfs.Nfs.Defs.{NfsPool, Link, pread, close}

-- `n as c_int`, or the error.
unfoldable pub returned : Outcome ℤ ℕ → ℤ
returned (ok n) = to_i32 (n % 2 ^ 32)
returned (err e) = e

module _ {W Statvfs : Type 0} (link : Link W Statvfs) where
  -- The return value and the buffer.
  unfoldable pub read_file : ℕ → ℤ → List ℕ → Caller → NfsPool × W → (ℤ × List ℕ) × NfsPool × W
  read_file fh offset buf caller (p, w) =
      if is_empty buf
      then ((pos 0, buf), p, w)
      else let r = pread link fh (to_u64 offset) buf caller (p, w) in
        ((returned r.0.0, r.0.1), r.1, r.2)

  -- It returns 0.
  unfoldable pub release_file : ℕ → NfsPool × W → NfsPool × W
  release_file fh (p, w) = if fh == 0 then (p, w) else close link fh (p, w)
