-- ===== src/Nfs/Read.antt =====
-- src/nfscli.rs, `pread` with `read_cb` of src/libnfs.rs: what a read delivers.
use yourfs.Base.{
  ℕ, ◌≤◌, List, Option, none, some, min, length, drop, ◌≡◌, refl, arith, inl, inr, Option-cases,
}
use yourfs.Base.Int.{ℤ, pos, negsuc}
use yourfs.Base.Outcome.{Outcome, ok, err}
use yourfs.Fs.Defs.{Caller}
use yourfs.Fs.Buffer.{drop-overwrite}
use yourfs.Nfs.Defs.{NfsPool, Request, preads, Link, read_cb, pread, find}

-- A count that fits the buffer, with the rest of the buffer as it was; on an error, all of it.
abbrev pub Delivered : List ℕ → Outcome ℤ ℕ × List ℕ → Type 0
Delivered buf (ok m, after) = (m ≤ length buf) × (drop m after ≡ drop m buf)
Delivered buf (err e, after) = after ≡ buf

-- libnfs hands over no null data with a positive count.
abbrev pub GivesData : {W Statvfs : Type 0} → Link W Statvfs → Type 0
GivesData {W} link =
    (i : ℕ) (c : Option Caller) (q : Request) (w : W) (n : ℕ)
    → (link i c q w).0.bytes ≡ none
    → (link i c q w).0.status ≡ pos n
    → n ≡ 0

read_cb-Delivered :
    (status : ℤ) (bytes : Option (List ℕ)) (buf : List ℕ)
    → ((n : ℕ) → bytes ≡ none → status ≡ pos n → n ≡ 0)
    → let d = read_cb status bytes buf in
      Delivered buf (elim d.0 [ pos n ↦ ok n | negsuc n ↦ err (negsuc n) ], d.1)
unfolding read_cb
read_cb-Delivered (negsuc n) bytes buf h = refl
read_cb-Delivered (pos n) none buf h = (omega (arith, h n refl refl), refl)
read_cb-Delivered (pos n) (some bytes) buf h =
    (omega arith, drop-overwrite (min n (length buf)) (min n (length buf)) bytes buf (omega arith))

-- Whatever count the server replies with, a read reports at most as many bytes as the buffer has
-- and writes nothing past the bytes that it reports; where it fails the buffer is as it was.
pub pread-Delivered :
    {W Statvfs : Type 0} (link : Link W Statvfs) (fh offset : ℕ) (buf : List ℕ) (caller : Caller)
    (p : NfsPool) (w : W)
    → GivesData link
    → Delivered buf (pread link fh offset buf caller (p, w)).0
unfolding pread
pread-Delivered link fh offset buf caller p w h = elim (Option-cases (find fh p.open_files)) [
  | inl e ↦ rw (e, pread) refl
  | inr (i, e) ↦
      let q = preads fh offset (length buf) in
      let r = link i (some caller) q w in
      rw (e, pread) (read_cb-Delivered r.0.status r.0.bytes buf (h i (some caller) q w))
]
