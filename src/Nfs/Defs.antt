-- ===== src/Nfs/Defs.antt =====
-- src/nfscli.rs: the operations over the pool of connections, and src/libnfs.rs: the callback of a
-- read. What an operation comes to on the connection of a slot is a parameter with a state `W`.
use yourfs.Base.{
  ℕ, zero, suc, ◌+◌, ◌%◌, ◌^◌, Bool, true, false, List, [], ◌∷◌, Option, none, some, ◌==◌,
  if◌then◌else◌, min, length, take,
}
use yourfs.Base.Text.{Text}
use yourfs.Base.Int.{ℤ, pos, negsuc, neg, is_neg}
use yourfs.Base.Outcome.{Outcome, ok, err}
use yourfs.Fs.Defs.{NfsStat, Caller, eio, overwrite}

-- `open_files`: from handles to slots.
unfoldable pub find : ℕ → List (ℕ × ℕ) → Option ℕ
find h [] = none
find h ((k, i) ∷ m) = if k == h then some i else find h m

unfoldable pub insert : ℕ → ℕ → List (ℕ × ℕ) → List (ℕ × ℕ)
insert h i [] = (h, i) ∷ []
insert h i ((k, j) ∷ m) = if k == h then (h, i) ∷ m else (k, j) ∷ insert h i m

unfoldable pub remove : ℕ → List (ℕ × ℕ) → List (ℕ × ℕ)
remove h [] = []
remove h ((k, j) ∷ m) = if k == h then remove h m else (k, j) ∷ remove h m

-- `slots` is the length of the source's vector; `next` is a `usize`.
pub record NfsPool : Type 0 where
  pub slots : ℕ
  pub next : ℕ
  pub open_files : List (ℕ × ℕ)

-- The loop of `init` over the extra mounts: each answers whether `mount_extra` gave a context.
unfoldable pub mount_more : ℕ → List Bool → ℕ
mount_more zero mounts = 0
mount_more (suc n) [] = 0
mount_more (suc n) (false ∷ mounts) = 0
mount_more (suc n) (true ∷ mounts) = suc (mount_more n mounts)

-- `for _ in 1..pool_size.max(1)` runs one round less than the size.
unfoldable pub rounds : ℕ → ℕ
rounds zero = 0
rounds (suc n) = n

unfoldable pub init : ℕ → List Bool → NfsPool
unfolding rounds
init pool_size mounts = record {
  slots = suc (mount_more (rounds pool_size) mounts);
  next = 0;
  open_files = [];
}

unfoldable pub pick : NfsPool → ℕ × NfsPool
pick p = (p.next % p.slots, record p { next = (p.next + 1) % 2 ^ 64 })

-- What is asked of a connection.
pub data Request : Type 0 where
  lstats : Text → Request
  opens : Text → ℤ → Request
  closes : ℕ → Request
  preads : ℕ → ℕ → ℕ → Request
  statvfses : Text → Request
  readlinks : Text → Request

-- What libnfs hands to the callback: a status, a pointer, the bytes read, a stat and a statvfs.
pub record Completion (Statvfs : Type 0) : Type 0 where
  pub status : ℤ
  pub ptr : ℕ
  pub bytes : Option (List ℕ)
  pub stat : NfsStat
  pub svfs : Statvfs

-- `run_op` on a slot: the request is issued with the credentials given, and its completion awaited.
abbrev pub Link : Type 0 → Type 0 → Type 0
Link W Statvfs = ℕ → Option Caller → Request → W → Completion Statvfs × W

-- `read_cb`: the status that it leaves, and the caller's buffer. `none` is a null pointer.
unfoldable pub read_cb : ℤ → Option (List ℕ) → List ℕ → ℤ × List ℕ
read_cb (negsuc n) bytes buf = (negsuc n, buf)
read_cb (pos n) none buf = (pos n, buf)
read_cb (pos n) (some bytes) buf =
    let m = min n (length buf) in (pos m, overwrite (take m bytes) buf)

-- `if reply.status < 0 { return Err(reply.status) }`
abbrev pub checked {ℓ} : {A : Type ℓ} → ℤ → A → Outcome ℤ A
checked (pos n) a = ok a
checked (negsuc n) a = err (negsuc n)

module _ {W Statvfs : Type 0} (link : Link W Statvfs) where
  unfoldable pub lstat64 : Text → Caller → NfsPool × W → Outcome ℤ NfsStat × NfsPool × W
  lstat64 path caller (p, w) =
      let i = pick p in
      let r = link i.0 (some caller) (lstats path) w in (checked r.0.status r.0.stat, i.1, r.1)

  unfoldable pub statvfs : Text → NfsPool × W → Outcome ℤ Statvfs × NfsPool × W
  statvfs path (p, w) =
      let i = pick p in
      let r = link i.0 none (statvfses path) w in (checked r.0.status r.0.svfs, i.1, r.1)

  -- The end of `open`: the handle is entered for the slot that opened it.
  unfoldable pub opened : ℕ → Completion Statvfs → NfsPool → Outcome ℤ ℕ × NfsPool
  opened i r p =
      if is_neg r.status
      then (err r.status, p)
      else if r.ptr == 0
      then (err (neg eio), p)
      else (ok r.ptr, record p { open_files = insert r.ptr i p.open_files })

  unfoldable pub open_file : Text → ℤ → Caller → NfsPool × W → Outcome ℤ ℕ × NfsPool × W
  unfolding opened
  open_file path flags caller (p, w) =
      let i = pick p in
      let r = link i.0 (some caller) (opens path flags) w in
      let o = opened i.0 r.0 i.1 in (o.0, o.1, r.1)

  unfoldable pub closed : ℕ → Option ℕ → NfsPool × W → NfsPool × W
  closed fh none (p, w) = (p, w)
  closed fh (some i) (p, w) =
      (record p { open_files = remove fh p.open_files }, (link i none (closes fh) w).1)

  unfoldable pub close : ℕ → NfsPool × W → NfsPool × W
  unfolding closed
  close fh (p, w) = closed fh (find fh p.open_files) (p, w)

  -- The result of a read, and the buffer.
  unfoldable pub pread_on :
      Option ℕ → ℕ → ℕ → List ℕ → Caller → NfsPool × W → (Outcome ℤ ℕ × List ℕ) × NfsPool × W
  pread_on none fh offset buf caller (p, w) = ((err (neg eio), buf), p, w)
  pread_on (some i) fh offset buf caller (p, w) =
      let r = link i (some caller) (preads fh offset (length buf)) w in
      let d = read_cb r.0.status r.0.bytes buf in
      ((elim d.0 [ pos n ↦ ok n | negsuc n ↦ err (negsuc n) ], d.1), p, r.1)

  unfoldable pub pread :
      ℕ → ℕ → List ℕ → Caller → NfsPool × W → (Outcome ℤ ℕ × List ℕ) × NfsPool × W
  unfolding pread_on
  pread fh offset buf caller (p, w) = pread_on (find fh p.open_files) fh offset buf caller (p, w)
