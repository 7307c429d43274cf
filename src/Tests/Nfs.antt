-- ===== src/Tests/Nfs.antt =====
-- Tests of src/nfscli.rs.
use yourfs.Nfs.Callbacks.{SyncCbData, cb_default}
use yourfs.Nfs.Callbacks as callbacks
use yourfs.Base.{ℕ, ◌+◌, true, List, [], ◌∷◌, some, ◌≡◌, refl}
use yourfs.Base.Text.{codes}
use yourfs.Base.Int.{pos, negsuc}
use yourfs.Base.Outcome.{ok}
use yourfs.Fs.Defs.{NfsStat}
use yourfs.Nfs.Defs.{NfsPool, Link, pick, insert, open_file, pread}
use yourfs.Nfs.Routing.{Call, opens, closes, preads}
use yourfs.Nfs.Read.{Delivered, pread-Delivered}
use yourfs.Nfs.Credentials.{Cfg}
use yourfs.Nfs.Actor.{Actor, next}

abbrev no_stat : NfsStat
no_stat = record {
  nfs_dev = 0;
  nfs_ino = 0;
  nfs_mode = 0;
  nfs_nlink = 0;
  nfs_uid = 0;
  nfs_gid = 0;
  nfs_rdev = 0;
  nfs_size = 0;
  nfs_blksize = 0;
  nfs_blocks = 0;
  nfs_atime = 0;
  nfs_mtime = 0;
  nfs_ctime = 0;
  nfs_atime_nsec = 0;
  nfs_mtime_nsec = 0;
  nfs_ctime_nsec = 0;
}

-- A server that replies with nine bytes to every request, and gives a new handle each time.
abbrev link : Link ℕ ℕ
link i c q w = (
  record {
    status = pos 9;
    ptr = w + 1;
    bytes = some (codes "ninebytes");
    stat = no_stat;
    svfs = 0;
  },
  w + 1,
)

abbrev pool : NfsPool
pool = record { slots = 3; next = 4; open_files = [] }

pread-Delivered_example :
    Delivered
      (0 ∷ 0 ∷ [])
      (pread link 7 0 (0 ∷ 0 ∷ []) (1, 1) (record pool { open_files = (7, 2) ∷ [] }, 0)).0
pread-Delivered_example =
    pread-Delivered link 7 0 (0 ∷ 0 ∷ []) (1, 1) (record pool { open_files = (7, 2) ∷ [] }) 0
      (λ i c q w n e. cc)

abbrev after_open : NfsPool
after_open = record { slots = 3; next = 5; open_files = (1, 1) ∷ [] }

opened : open_file link (codes "/f") (pos 0) (1, 1) (pool, 0) ≡ (ok 1, after_open, 1)
unfolding open_file pick insert
opened = refl

abbrev calls : List Call
calls = opens (codes "/g") (pos 0) (1, 1) ∷ closes 2 ∷ preads 1 0 [] (1, 1) ∷ []

abbrev cfg : Cfg
cfg = record {
  custom_uid = pos 500;
  custom_gid = negsuc 0;
  allow_other_own_ids = true;
  mount_user_uid = 1;
  mount_user_gid = 1;
}

abbrev one_queued : Actor
one_queued = record {
  running = true;
  inflight = 1;
  outstanding = 4 ∷ [];
  submitted = 4 ∷ [];
  replied = [];
}

abbrev small_cb : SyncCbData
small_cb = record cb_default { return_data = 200; max_size = 2 }
