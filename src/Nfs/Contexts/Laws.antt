-- ===== src/Nfs/Contexts/Laws.antt =====
-- What src/nfscli.rs and src/bin/yourfs.rs rely on of libnfs: which pointers it has handed out.
use yourfs.Base.{ℕ, Bool, false, not, ◌&&◌, ◌||◌, none, some, ◌==◌, ◌≡◌}
use yourfs.Base.Text.{Text}
use yourfs.Nfs.Contexts.{Host}

-- `contexts` and `urls` are the pointers that libnfs has handed out and not taken back. A new pointer
-- is not one of them.
pub record IsHost {W : Type 0} (host : Host W) (contexts urls : W → ℕ → Bool) : Type 0 where
  pub init_none :
      (w v : W)
      → host.nfs_init_context w ≡ (none, v)
      → ((d : ℕ) → contexts v d ≡ contexts w d) × ((d : ℕ) → urls v d ≡ urls w d)
  pub init_some :
      (w v : W) (c : ℕ)
      → host.nfs_init_context w ≡ (some c, v)
      → (contexts w c ≡ false)
        × ((d : ℕ) → contexts v d ≡ ((c == d) || contexts w d))
        × ((d : ℕ) → urls v d ≡ urls w d)
  pub mounts :
      (c : ℕ) (server export : Text) (w : W)
      → let v = (host.nfs_mount c server export w).1 in
        ((d : ℕ) → contexts v d ≡ contexts w d) × ((d : ℕ) → urls v d ≡ urls w d)
  pub destroys :
      (c : ℕ) (w : W)
      → let v = host.nfs_destroy_context c w in
        ((d : ℕ) → contexts v d ≡ (not (c == d) && contexts w d)) × ((d : ℕ) → urls v d ≡ urls w d)
  pub parses_none :
      (c : ℕ) (url : Text) (w v : W)
      → host.nfs_parse_url_dir c url w ≡ (none, v)
      → ((d : ℕ) → contexts v d ≡ contexts w d) × ((d : ℕ) → urls v d ≡ urls w d)
  pub parses_some :
      (c : ℕ) (url : Text) (w v : W) (u : ℕ)
      → host.nfs_parse_url_dir c url w ≡ (some u, v)
      → (urls w u ≡ false)
        × ((d : ℕ) → contexts v d ≡ contexts w d)
        × ((d : ℕ) → urls v d ≡ ((u == d) || urls w d))
  pub destroys_url :
      (u : ℕ) (w : W)
      → let v = host.nfs_destroy_url u w in
        ((d : ℕ) → contexts v d ≡ contexts w d) × ((d : ℕ) → urls v d ≡ (not (u == d) && urls w d))
  pub quits :
      (c : ℕ) (w : W)
      → let v = host.send_quit c w in
        ((d : ℕ) → contexts v d ≡ contexts w d) × ((d : ℕ) → urls v d ≡ urls w d)
  pub joins :
      (c : ℕ) (w : W)
      → let v = host.join c w in
        ((d : ℕ) → contexts v d ≡ contexts w d) × ((d : ℕ) → urls v d ≡ urls w d)
