-- ===== src/Tests/Startup.antt =====
-- Tests of the end of `main` in src/bin/yourfs.rs and of the slots of src/nfscli.rs: libnfs in memory,
-- whose world is the contexts and the URLs that it has handed out.
use yourfs.Base.{
  ℕ, suc, ◌+◌, ◌<◌, Bool, false, not, ◌&&◌, List, [], ◌∷◌, Option, none, some, if◌then◌else◌, ◌==◌,
  map, ◌≡◌, refl, ap, arith,
}
use yourfs.Base.Text.{Text, codes}
use yourfs.Base.Int.{pos}
use yourfs.Base.Outcome.{err}
use yourfs.Db.Retry.{failed}
use yourfs.Db.Factory.{Libraries, sqlite_db}
use yourfs.Nfs.Contexts.{Host, new_slot, init}
use yourfs.Nfs.Contexts.Extra.{has}
use yourfs.Nfs.Contexts.Laws.{IsHost}
use yourfs.Nfs.Contexts.Owned.{Owns, init-Owns}
use yourfs.Nfs.Credentials.{Cfg}
use yourfs.Nfs.Defs as pool
use yourfs.Nfs.Defs.{Link}
use yourfs.Nfs.Readlink as nfs_readlink
use yourfs.Nfs.RunOp.{Serving, Channels, run_op}
use yourfs.Tests.Fs.{stat}
use yourfs.Mount.Startup.{Machine, mount_share}
use yourfs.Mount.Startup.Released.{mount_share-Kept}
use yourfs.Tests.Mount.{settings}

abbrev Handed : Type 0
Handed = List ℕ × List ℕ

-- A number that is not in the list.
unfoldable sum : List ℕ → ℕ
sum [] = 0
sum (c ∷ cs) = c + sum cs

has-above : (k : ℕ) (cs : List ℕ) → sum cs < k → has k cs ≡ false
unfolding sum
has-above k [] h = refl
has-above k (c ∷ cs) h = ground (arith, has-above k cs, h)

unfoldable without : ℕ → List ℕ → List ℕ
without c [] = []
without c (d ∷ ds) = let rest = without c ds in if d == c then rest else d ∷ rest

has-without : (c d : ℕ) (ds : List ℕ) → has d (without c ds) ≡ (not (c == d) && has d ds)
unfolding without
has-without c d [] = ground arith
has-without c d (e ∷ ds) = ground (arith, has-without c d ds)

abbrev memory : Host Handed
memory = record {
  nfs_init_context = λ w. (some (suc (sum w.0)), (suc (sum w.0) ∷ w.0, w.1));
  nfs_mount = λ c server export w. (pos 0, w);
  nfs_destroy_context = λ c w. (without c w.0, w.1);
  nfs_parse_url_dir = λ c url w. (some (suc (sum w.1)), (w.0, suc (sum w.1) ∷ w.1));
  server_of = λ u w. some (codes "server");
  path_of = λ u w. some (codes "/export");
  nfs_destroy_url = λ u w. (w.0, without u w.1);
  spawn = λ c w. w;
  send_quit = λ c w. w;
  join = λ c w. w;
}

abbrev contexts : Handed → ℕ → Bool
contexts w d = has d w.0

abbrev urls : Handed → ℕ → Bool
urls w d = has d w.1

value_of : Option ℕ × Handed → ℕ
value_of (none, w) = 0
value_of (some c, w) = c

given :
    (a c : ℕ) (v w : Handed)
    → ◌≡◌ {A = Option ℕ × Handed} (some a, v) (some c, w)
    → (a ≡ c) × (v ≡ w)
unfolding value_of
given a c v w e = (ap value_of e, ap (λ (r : Option ℕ × Handed). r.1) e)

memory-IsHost : IsHost memory contexts urls
memory-IsHost = record {
  init_none = λ w v e. absurd cc;
  init_some = λ w v c e.
      let (p, q) = given (suc (sum w.0)) c _ v e in
      rw (← p, ← q) (has-above (suc (sum w.0)) w.0 (omega arith), (λ d. refl), λ d. refl);
  mounts = λ c server export w. ((λ d. refl), λ d. refl);
  destroys = λ c w. ((λ d. has-without c d w.0), λ d. refl);
  parses_none = λ c url w v e. absurd cc;
  parses_some = λ c url w v u e.
      let (p, q) = given (suc (sum w.1)) u _ v e in
      rw (← p, ← q) (has-above (suc (sum w.1)) w.1 (omega arith), (λ d. refl), λ d. refl);
  destroys_url = λ u w. ((λ d. refl), λ d. has-without u d w.1);
  quits = λ c w. ((λ d. refl), λ d. refl);
  joins = λ c w. ((λ d. refl), λ d. refl);
}

-- No client library connects.
abbrev refusing : Libraries Handed
refusing = record {
  sqlite = record {
    exists = λ p w. false;
    open_file = λ p w. (err [], w);
    pragma_update = λ c n v w. (err [], w);
    prepare = λ c sql w. (err [], w);
    step_rows = λ c sql ps w. (err [], w);
    execute = λ c sql ps w. (err [], w);
    execute_batch = λ c sql w. (err [], w);
  };
  postgres = record {
    dial = λ c w. (err [], w);
    query = λ c sql ps w. (failed false [], w);
    simple_query = λ c sql w. (err [], w);
    prepare = λ c sql w. (err [], w);
    execute = λ c sql ps w. (err [], w);
  };
  redis_dial = λ url. err [];
}

abbrev machine : Machine Handed
machine = record {
  libraries = refusing;
  debug = λ t. t;
  fuel = 1;
  host = memory;
  getuid = 1000;
  getgid = 1000;
  fuse_main = λ c args w. ((pos 0, c.connections.slots), w);
}

mount_share-Kept_example :
    let v =
      (mount_share machine settings
        (codes "nfs://s/e")
        (sqlite_db [] (pos 1))
        (record { idle = []; created = 0 })
        (3 ∷ [], 4 ∷ [])).1 in
    ((d : ℕ) → contexts v d ≡ has d (3 ∷ [])) × ((d : ℕ) → urls v d ≡ has d (4 ∷ []))
mount_share-Kept_example =
    mount_share-Kept machine contexts urls memory-IsHost
      (λ c args w. (refl, ((λ d. refl), λ d. refl))) settings (codes "nfs://s/e")
      (sqlite_db [] (pos 1)) (record { idle = []; created = 0 }) (3 ∷ [], 4 ∷ [])

abbrev cfg : Cfg
cfg = record {
  custom_uid = pos 0;
  custom_gid = pos 0;
  allow_other_own_ids = false;
  mount_user_uid = 0;
  mount_user_gid = 0;
}

init-Owns_example :
    let r = init memory 4 (codes "server") (codes "/export") cfg 3 (4 ∷ 3 ∷ [], []) in
    Owns memory contexts urls memory-IsHost (map (λ s. s.ctx) r.0.slots) (3 ∷ [], []) r.1
    × ((answers : List Bool) × (r.0.pool ≡ pool.init 3 answers))
init-Owns_example =
    init-Owns memory contexts urls memory-IsHost 4 (codes "server") (codes "/export") cfg 3
      (3 ∷ [], []) (4 ∷ 3 ∷ [], []) ((λ d. ground arith, λ d k. ground (arith, k)), λ d. refl)

-- The threads have gone.
abbrev silent : Channels Handed ℕ
silent = record {
  send = λ i c q w. (false, w);
  receive = λ i w. (none, w);
  no_stat = stat 0;
  no_svfs = 0;
}

abbrev link : Link (Serving Handed) ℕ
link = run_op memory silent

abbrev idle : pool.NfsPool
idle = record { slots = 1; next = 0; open_files = [] }

abbrev serving : Serving Handed
serving = record { slots = new_slot 3 ∷ []; outside = (3 ∷ [], []) }
