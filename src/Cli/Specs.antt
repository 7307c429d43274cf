-- ===== src/Cli/Specs.antt =====
-- src/cli.rs: the option tables of the two programs.
use yourfs.Base.{ℕ, Bool, true, false, List, [], ◌∷◌}
use yourfs.Base.Text.{Text, codes}
use yourfs.Cli.Parser.{OptSpec}

abbrev option : ℕ → Text → Bool → OptSpec
option short long arg = record { short = short; long = long; arg = arg }

unfoldable pub yourfs_specs : List OptSpec
yourfs_specs =
    option b'?' (codes "help") false
    ∷ option b'n' (codes "nfs_share") true
    ∷ option b'm' (codes "mountpoint") true
    ∷ option b'U' (codes "yourfs_uid") true
    ∷ option b'G' (codes "yourfs_gid") true
    ∷ option b'o' (codes "yourfs_allow_other_own_ids") false
    ∷ option b'a' (codes "allow_other") false
    ∷ option b'u' (codes "uid") true
    ∷ option b'g' (codes "gid") true
    ∷ option b'D' (codes "debug") false
    ∷ option b'p' (codes "default_permissions") true
    ∷ option b'd' (codes "direct_io") false
    ∷ option b'r' (codes "allow_root") false
    ∷ option b'k' (codes "kernel_cache") false
    ∷ option b'c' (codes "auto_cache") false
    ∷ option b'l' (codes "large_read") false
    ∷ option b'L' (codes "logfile") true
    ∷ option b'h' (codes "hard_remove") false
    ∷ option b'f' (codes "fsname") true
    ∷ option b's' (codes "subtype") true
    ∷ option b'b' (codes "blkdev") false
    ∷ option b'i' (codes "intr") false
    ∷ option b'R' (codes "max_read") true
    ∷ option b'H' (codes "max_readahead") true
    ∷ option b'A' (codes "async_read") false
    ∷ option b'S' (codes "sync_read") false
    ∷ option b'K' (codes "umask") true
    ∷ option b'E' (codes "entry_timeout") true
    ∷ option b'N' (codes "negative_timeout") true
    ∷ option b'T' (codes "attr_timeout") true
    ∷ option b'C' (codes "ac_attr_timeout") true
    ∷ option b'Y' (codes "nonempty") false
    ∷ option b'I' (codes "intr_signal") true
    ∷ option b'q' (codes "use_ino") false
    ∷ option b'Q' (codes "readdir_ino") false
    ∷ option b't' (codes "multithread") true
    ∷ option b'O' (codes "read_only") false
    ∷ option b'X' (codes "database") true
    ∷ option b'Z' (codes "table") true
    ∷ option b'M' (codes "cache_memory") true
    ∷ option b'w' (codes "whitelist_cache") false
    ∷ option b'V' (codes "nfs_connections") true
    ∷ option b'F' (codes "filter_database") true
    ∷ option b'P' (codes "passwd") true
    ∷ option b'y' (codes "yourkey") true
    ∷ []

unfoldable pub tool_specs : List OptSpec
tool_specs =
    option b'?' (codes "help") false
    ∷ option b's' (codes "scan") true
    ∷ option b'i' (codes "input") true
    ∷ option b'o' (codes "output") true
    ∷ option b'X' (codes "database") true
    ∷ option b'Z' (codes "table") true
    ∷ option b'M' (codes "cache_memory") true
    ∷ option b'F' (codes "filter_database") true
    ∷ option b'P' (codes "passwd") true
    ∷ []
