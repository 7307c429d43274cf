-- ===== src/Nfs/Credentials.antt =====
-- src/nfscli.rs, `update_rpc_credentials`: whose ids an RPC carries.
use yourfs.Base.{ℕ, Bool, true, false, not, ◌&&◌, ◌||◌, ◌==◌, if◌then◌else◌, ◌≡◌, ◌≢◌, ◌⊎◌}
use yourfs.Base.Int.{ℤ, negsuc, int_eq, to_i32}

pub record Cfg : Type 0 where
  pub custom_uid : ℤ
  pub custom_gid : ℤ
  pub allow_other_own_ids : Bool
  pub mount_user_uid : ℕ
  pub mount_user_gid : ℕ

-- `use_caller_uid` and `use_caller_gid`: the two conditions are the same but for the ids.
unfoldable pub use_caller : ℤ → Bool → ℕ → ℕ → Bool
use_caller custom allow mount caller =
    (int_eq custom (negsuc 0) && not allow)
    || (allow && (int_eq custom (negsuc 0) || not (caller == mount)))

-- The ids handed to `nfs_set_uid` and `nfs_set_gid`.
unfoldable pub update_rpc_credentials : Cfg → ℕ × ℕ → ℤ × ℤ
unfolding use_caller
update_rpc_credentials cfg (uid, gid) = (
  if use_caller cfg.custom_uid cfg.allow_other_own_ids cfg.mount_user_uid uid
      then to_i32 uid
      else cfg.custom_uid,
  if use_caller cfg.custom_gid cfg.allow_other_own_ids cfg.mount_user_gid gid
      then to_i32 gid
      else cfg.custom_gid,
)

-- The id that a request should carry: the caller's own where no id was configured, or where other
-- users keep theirs and this is another user; else the configured one.
abbrev pub Wanted : ℤ → Bool → ℕ → ℕ → ℤ → Type 0
Wanted custom allow mount caller chosen =
    ((custom ≡ negsuc 0) × (chosen ≡ to_i32 caller))
    ⊎ (((custom ≢ negsuc 0) × (allow ≡ true) × (caller ≢ mount) × (chosen ≡ to_i32 caller))
        ⊎ ((custom ≢ negsuc 0) × ((allow ≡ false) ⊎ (caller ≡ mount)) × (chosen ≡ custom)))
