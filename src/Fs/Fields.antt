-- ===== src/Fs/Fields.antt =====
-- src/fs.rs, `yourfs_getattr`: the casts between `nfs_stat_64` (src/libnfs.rs) and `Stat` (src/fuse2.rs).
use yourfs.Base.{ℕ, ◌<◌, ◌^◌, ◌&&◌, not, ltb, ◌==◌, ◌≡◌, arith, Bool-cases, inl, inr}
use yourfs.Base.Int.{ℤ, pos, negsuc, int_eq, to_i64, to_u32, to_u64}
use yourfs.Fs.Defs.{NfsStat, Stat, Ids, map_id, low_u32, fill_stat}

abbrev pub IsU32 : ℕ → Type 0
IsU32 x = x < 2 ^ 32

abbrev pub IsU64 : ℕ → Type 0
IsU64 x = x < 2 ^ 64

abbrev pub IsI64 : ℤ → Type 0
IsI64 (pos n) = n < 2 ^ 63
IsI64 (negsuc n) = n < 2 ^ 63

-- A `u64` as an `i64`, which gives the `u64` back.
abbrev pub IsCast : ℕ → ℤ → Type 0
IsCast x z = IsI64 z × (to_u64 z ≡ x)

to_i64-IsCast : (x : ℕ) → IsU64 x → IsCast x (to_i64 x)
unfolding to_i64 to_u64
to_i64-IsCast x h = elim (Bool-cases (ltb x (2 ^ 63))) [
  | inl e ↦ rw e (ground (arith, e), ground (arith, e))
  | inr e ↦ rw e (ground (arith, e, h), ground (arith, e, h))
]

map_id-IsU32 :
    (custom : ℤ) (own possible : ℕ)
    → IsU32 own
    → IsU32 possible
    → IsU32 (map_id custom own possible)
unfolding map_id
map_id-IsU32 custom own possible h k =
    elim (Bool-cases (not (int_eq custom (negsuc 0)) && possible == to_u32 custom)) [
      | inl e ↦ rw e h
      | inr e ↦ rw e k
    ]

-- The fields of the server's answer that are cast are `u64`.
pub record AreU64 (st : NfsStat) : Type 0 where
  pub size_u64 : IsU64 st.nfs_size
  pub blksize_u64 : IsU64 st.nfs_blksize
  pub blocks_u64 : IsU64 st.nfs_blocks
  pub atime_u64 : IsU64 st.nfs_atime
  pub atime_nsec_u64 : IsU64 st.nfs_atime_nsec
  pub mtime_u64 : IsU64 st.nfs_mtime
  pub mtime_nsec_u64 : IsU64 st.nfs_mtime_nsec
  pub ctime_u64 : IsU64 st.nfs_ctime
  pub ctime_nsec_u64 : IsU64 st.nfs_ctime_nsec

-- The fields of the answer to the kernel have their types, and each of the signed ones is the
-- server's, cast.
pub record AreTyped (st : NfsStat) (s : Stat) : Type 0 where
  pub mode_u32 : IsU32 s.st_mode
  pub uid_u32 : IsU32 s.st_uid
  pub gid_u32 : IsU32 s.st_gid
  pub size_cast : IsCast st.nfs_size s.st_size
  pub blksize_cast : IsCast st.nfs_blksize s.st_blksize
  pub blocks_cast : IsCast st.nfs_blocks s.st_blocks
  pub atime_cast : IsCast st.nfs_atime s.st_atime
  pub atime_nsec_cast : IsCast st.nfs_atime_nsec s.st_atime_nsec
  pub mtime_cast : IsCast st.nfs_mtime s.st_mtime
  pub mtime_nsec_cast : IsCast st.nfs_mtime_nsec s.st_mtime_nsec
  pub ctime_cast : IsCast st.nfs_ctime s.st_ctime
  pub ctime_nsec_cast : IsCast st.nfs_ctime_nsec s.st_ctime_nsec

-- `getattr` fills a `Stat` whose fields have their types, for every caller and configured id: the
-- mode and the two ids, mapped or not, are `u32`, and each size and time is an `i64` that is the
-- server's `u64` when it is cast back, so none is cut.
pub fill_stat-AreTyped :
    (ids : Ids) (st : NfsStat)
    → IsU32 ids.caller.0
    → IsU32 ids.caller.1
    → AreU64 st
    → AreTyped st (fill_stat ids st)
unfolding fill_stat
fill_stat-AreTyped ids st uid gid h = record {
  mode_u32 = omega arith;
  uid_u32 = map_id-IsU32 ids.custom_uid ids.caller.0 (low_u32 st.nfs_uid) uid (omega arith);
  gid_u32 = map_id-IsU32 ids.custom_gid ids.caller.1 (low_u32 st.nfs_gid) gid (omega arith);
  size_cast = to_i64-IsCast st.nfs_size h.size_u64;
  blksize_cast = to_i64-IsCast st.nfs_blksize h.blksize_u64;
  blocks_cast = to_i64-IsCast st.nfs_blocks h.blocks_u64;
  atime_cast = to_i64-IsCast st.nfs_atime h.atime_u64;
  atime_nsec_cast = to_i64-IsCast st.nfs_atime_nsec h.atime_nsec_u64;
  mtime_cast = to_i64-IsCast st.nfs_mtime h.mtime_u64;
  mtime_nsec_cast = to_i64-IsCast st.nfs_mtime_nsec h.mtime_nsec_u64;
  ctime_cast = to_i64-IsCast st.nfs_ctime h.ctime_u64;
  ctime_nsec_cast = to_i64-IsCast st.nfs_ctime_nsec h.ctime_nsec_u64;
}
