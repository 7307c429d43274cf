-- ===== src/Fs/Defs.antt =====
-- src/fs.rs: the handlers, over the whitelist (`Database` of src/db.rs) and the NFS client
-- (src/nfscli.rs). Returned integers are `c_int`; an error is its negative code.
use yourfs.Base.{
  ℕ, ◌-◌, ◌%◌, ◌^◌, not, ◌&&◌, List, [], ◌∷◌, Option, none, some, ltb, ◌==◌, if◌then◌else◌, min,
  length, take, set, is_empty,
}
use yourfs.Base.Text.{Text, codes, text_eq}
use yourfs.Base.Int.{ℤ, pos, negsuc, neg, int_eq, to_i64, to_u32}
use yourfs.Base.Outcome.{Outcome, ok, err, ◌>>=◌}
use yourfs.Paths.{strip_nul}

abbrev pub enoent : ℕ
enoent = 2

abbrev pub eio : ℕ
eio = 5

-- The queries of `Database`, on the mount's table. The error is a message that no handler reads.
pub record Whitelist : Type 0 where
  pub resolve : Text → Outcome Text (Option Text)
  pub list : Text → Outcome Text (List Text)

-- `nfs_stat_64`.
pub record NfsStat : Type 0 where
  pub nfs_dev : ℕ
  pub nfs_ino : ℕ
  pub nfs_mode : ℕ
  pub nfs_nlink : ℕ
  pub nfs_uid : ℕ
  pub nfs_gid : ℕ
  pub nfs_rdev : ℕ
  pub nfs_size : ℕ
  pub nfs_blksize : ℕ
  pub nfs_blocks : ℕ
  pub nfs_atime : ℕ
  pub nfs_mtime : ℕ
  pub nfs_ctime : ℕ
  pub nfs_atime_nsec : ℕ
  pub nfs_mtime_nsec : ℕ
  pub nfs_ctime_nsec : ℕ

-- The `Stat` that the handler fills.
pub record Stat : Type 0 where
  pub st_dev : ℕ
  pub st_ino : ℕ
  pub st_nlink : ℕ
  pub st_mode : ℕ
  pub st_uid : ℕ
  pub st_gid : ℕ
  pub st_rdev : ℕ
  pub st_size : ℤ
  pub st_blksize : ℤ
  pub st_blocks : ℤ
  pub st_atime : ℤ
  pub st_atime_nsec : ℤ
  pub st_mtime : ℤ
  pub st_mtime_nsec : ℤ
  pub st_ctime : ℤ
  pub st_ctime_nsec : ℤ

abbrev pub Caller : Type 0
Caller = ℕ × ℕ

-- The functions of the NFS client by which a path is named. `Statvfs` is passed through unread.
pub record Nfs (Statvfs : Type 0) : Type 0 where
  pub lstat64 : Text → Caller → Outcome ℤ NfsStat
  pub readlink : Text → ℕ → Caller → Outcome ℤ (List ℕ)
  pub open_file : Text → ℤ → Caller → Outcome ℤ ℕ
  pub statvfs : Text → Outcome ℤ Statvfs

-- `CUSTOM_UID` and `CUSTOM_GID`, and the caller that FUSE reports.
pub record Ids : Type 0 where
  pub custom_uid : ℤ
  pub custom_gid : ℤ
  pub caller : Caller

-- `map_uid` and `map_gid`: the two differ in the id they read.
unfoldable pub map_id : ℤ → ℕ → ℕ → ℕ
map_id custom own possible =
    if not (int_eq custom (negsuc 0)) && possible == to_u32 custom then own else possible

abbrev pub map_uid : Ids → ℕ → ℕ
map_uid ids = map_id ids.custom_uid ids.caller.0

abbrev pub map_gid : Ids → ℕ → ℕ
map_gid ids = map_id ids.custom_gid ids.caller.1

-- `x as u32` for a `u64`.
abbrev pub low_u32 : ℕ → ℕ
low_u32 x = x % 2 ^ 32

unfoldable pub fill_stat : Ids → NfsStat → Stat
fill_stat ids st = record {
  st_dev = st.nfs_dev;
  st_ino = st.nfs_ino;
  st_nlink = st.nfs_nlink;
  st_mode = low_u32 st.nfs_mode;
  st_uid = map_uid ids (low_u32 st.nfs_uid);
  st_gid = map_gid ids (low_u32 st.nfs_gid);
  st_rdev = st.nfs_rdev;
  st_size = to_i64 st.nfs_size;
  st_blksize = to_i64 st.nfs_blksize;
  st_blocks = to_i64 st.nfs_blocks;
  st_atime = to_i64 st.nfs_atime;
  st_atime_nsec = to_i64 st.nfs_atime_nsec;
  st_mtime = to_i64 st.nfs_mtime;
  st_mtime_nsec = to_i64 st.nfs_mtime_nsec;
  st_ctime = to_i64 st.nfs_ctime;
  st_ctime_nsec = to_i64 st.nfs_ctime_nsec;
}

-- The match on `resolve` that the handlers share.
unfoldable pub real_path : Whitelist → Text → Outcome ℤ Text
real_path db path = elim (db.resolve path) [
  | ok found ↦ elim found [ some real ↦ ok real | none ↦ err (neg enoent) ]
  | err e ↦ err (neg eio)
]

-- `getattr` and `statfs` do not ask the whitelist about the root.
unfoldable pub real_or_root : Whitelist → Text → Outcome ℤ Text
real_or_root db path = if text_eq path (codes "/") then ok (codes "/") else real_path db path

-- The bytes that `copy_nonoverlapping` writes over the front of the buffer.
unfoldable pub overwrite : List ℕ → List ℕ → List ℕ
overwrite [] buf = buf
overwrite (b ∷ bs) [] = []
overwrite (b ∷ bs) (x ∷ buf) = b ∷ overwrite bs buf

-- The buffer after the copy and the terminator.
unfoldable pub store_link : List ℕ → ℕ → List ℕ → List ℕ
store_link target size buf =
    let n = min (length target) size in
    let copied = overwrite (take n target) buf in
    if ltb n size then set copied n 0 else if ltb 0 size then set copied (size - 1) 0 else copied

module _ {Statvfs : Type 0} (db : Whitelist) (nfs : Nfs Statvfs) (ids : Ids) where
  -- `ok st` is the return value 0 with the stat buffer filled; an error leaves it as it was.
  unfoldable pub getattr : Text → Outcome ℤ Stat
  getattr path = do
    real ← real_or_root db path
    st ← nfs.lstat64 real ids.caller
    ok (fill_stat ids st)

  -- The buffer is the one FUSE hands in; on an error it is left as it was.
  unfoldable pub readlink : Text → List ℕ → ℕ → Outcome ℤ (List ℕ)
  readlink path buf size = do
    real ← real_path db path
    target ← nfs.readlink real size ids.caller
    ok (store_link target size buf)

  -- The return value and `fi.fh`, which is reset once the path is resolved.
  unfoldable pub open_handle : Text → ℤ → ℕ → ℤ × ℕ
  open_handle path flags fh = elim (real_path db path) [
    | err e ↦ (e, fh)
    | ok real ↦ elim (nfs.open_file real flags ids.caller) [ ok h ↦ (pos 0, h) | err e ↦ (e, 0) ]
  ]

  unfoldable pub statfs : Text → Outcome ℤ Statvfs
  statfs path = do real ← real_or_root db path; nfs.statvfs real

-- The names that the loop hands to `filler`, as C strings.
unfoldable pub fill_names : List Text → List Text
fill_names [] = []
fill_names (n ∷ ns) = let rest = fill_names ns in if is_empty n then rest else strip_nul n ∷ rest

unfoldable pub readdir : Whitelist → Text → Outcome ℤ (List Text)
readdir db path = elim (db.list path) [
  | ok names ↦ ok (codes "." ∷ codes ".." ∷ fill_names names)
  | err e ↦ err (neg eio)
]
