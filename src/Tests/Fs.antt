-- ===== src/Tests/Fs.antt =====
-- Tests of src/fs.rs.
use yourfs.Base.{
  ℕ, List, [], ◌∷◌, Option, none, some, if◌then◌else◌, drop, ◌≡◌, refl, arith, inl, inr, Bool-cases,
  false,
}
use yourfs.Base.Text.{Text, codes, text_eq}
use yourfs.Base.Int.{ℤ, negsuc}
use yourfs.Base.Outcome.{Outcome, ok}
use yourfs.Fs.Defs.{
  Whitelist, Nfs, NfsStat, Ids, getattr, readlink, open_handle, statfs, readdir, store_link,
  fill_names, fill_stat,
}
use yourfs.Fs.Isolation.{IsListed, Agrees, handlers-Agrees}
use yourfs.Fs.Fields.{AreTyped, fill_stat-AreTyped}
use yourfs.Fs.Buffer.{c_string, c_string-store_link}
use yourfs.Paths.{strip_nul}

-- One file, renamed: `/x` stands for `/data/x`.
abbrev db : Whitelist
db = record {
  resolve = λ p. if text_eq p (codes "/x") then ok (some (codes "/data/x")) else ok none;
  list = λ p. ok (codes "x" ∷ [] ∷ codes "y" ∷ []);
}

abbrev pub stat : ℕ → NfsStat
stat size = record {
  nfs_dev = 1;
  nfs_ino = 2;
  nfs_mode = 33188;
  nfs_nlink = 1;
  nfs_uid = 1000;
  nfs_gid = 1000;
  nfs_rdev = 0;
  nfs_size = size;
  nfs_blksize = 512;
  nfs_blocks = 1;
  nfs_atime = 0;
  nfs_mtime = 0;
  nfs_ctime = 0;
  nfs_atime_nsec = 0;
  nfs_mtime_nsec = 0;
  nfs_ctime_nsec = 0;
}

-- Two exports that differ at a path that is not whitelisted.
abbrev export : ℕ → Nfs ℕ
export secret = record {
  lstat64 = λ p c. if text_eq p (codes "/secret") then ok (stat secret) else ok (stat 5);
  readlink = λ p n c. ok (codes "target");
  open_file = λ p f c. ok 77;
  statvfs = λ p. ok 9;
}

abbrev pub ids : Ids
ids = record { custom_uid = negsuc 0; custom_gid = negsuc 0; caller = (7, 8) }

secret_unlisted : (real : Text) → IsListed db real → text_eq real (codes "/secret") ≡ false
secret_unlisted real (inl e) = rw e
secret_unlisted real (inr (path, e)) = elim (Bool-cases (text_eq path (codes "/x"))) [
  | inl h ↦
      let found : ◌≡◌ {A = Outcome Text (Option Text)} (ok (some (codes "/data/x")))
          (ok (some real)) =
        rw h at e in
      let same : codes "/data/x" ≡ real = cc in rw (← same)
  | inr h ↦
      let missing : ◌≡◌ {A = Outcome Text (Option Text)} (ok none) (ok (some real)) = rw h at e in
      cc
]

exports_agree : Agrees db (export 1) (export 2)
exports_agree = record {
  lstat64 = λ real l c. rw (secret_unlisted real l);
  readlink = λ real l n c. refl;
  open_file = λ real l f c. refl;
  statvfs = λ real l. refl;
}

handlers-Agrees_example :
    (getattr db (export 1) ids (codes "/x") ≡ getattr db (export 2) ids (codes "/x"))
    × ((buf : List ℕ) (size : ℕ)
        → readlink db (export 1) ids (codes "/x") buf size
          ≡ readlink db (export 2) ids (codes "/x") buf size)
    × ((flags : ℤ) (fh : ℕ)
        → open_handle db (export 1) ids (codes "/x") flags fh
          ≡ open_handle db (export 2) ids (codes "/x") flags fh)
    × (statfs db (export 1) ids (codes "/x") ≡ statfs db (export 2) ids (codes "/x"))
handlers-Agrees_example = handlers-Agrees db (export 1) (export 2) exports_agree ids (codes "/x")

readdir_skips_empty :
    readdir db (codes "/") ≡ ok (codes "." ∷ codes ".." ∷ codes "x" ∷ codes "y" ∷ [])
unfolding readdir fill_names strip_nul
readdir_skips_empty = refl

c_string-store_link_example :
    (c_string (store_link (codes "target") 4 (1 ∷ 1 ∷ 1 ∷ 1 ∷ 1 ∷ [])) ≡ codes "tar")
    × (drop 4 (store_link (codes "target") 4 (1 ∷ 1 ∷ 1 ∷ 1 ∷ 1 ∷ [])) ≡ 1 ∷ [])
c_string-store_link_example =
    c_string-store_link (codes "target") (1 ∷ 1 ∷ 1 ∷ 1 ∷ 1 ∷ []) 4 (omega arith) (omega arith)
      (ground arith)

-- ASCII only.
abbrev plain : List ℕ → Option Text
plain bytes = some bytes

fill_stat-AreTyped_example : AreTyped (stat 5) (fill_stat ids (stat 5))
fill_stat-AreTyped_example = fill_stat-AreTyped ids (stat 5) (omega arith) (omega arith) (record {
  size_u64 = omega arith;
  blksize_u64 = omega arith;
  blocks_u64 = omega arith;
  atime_u64 = omega arith;
  atime_nsec_u64 = omega arith;
  mtime_u64 = omega arith;
  mtime_nsec_u64 = omega arith;
  ctime_u64 = omega arith;
  ctime_nsec_u64 = omega arith;
})
