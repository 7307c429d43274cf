-- ===== src/Fs/Operations.antt =====
-- src/fuse2.rs, `fuse_operations` and `fuse_file_info`, and src/fs.rs, `operations`: the table of callbacks
-- that libfuse is given.
use yourfs.Base.{Bool, true, false, Option, none, some, [], ◌≡◌, refl, ◌⊎◌, inl, inr}
use yourfs.Base.Int.{pos}
use yourfs.Fs.Live.{Call, getattrs, readlinks, opens, reads, releases, readdirs, statfses}

-- The handlers of src/fs.rs, for their function pointers.
data Handler : Type 0 where
  yourfs_getattr yourfs_readlink yourfs_open yourfs_read : Handler
  yourfs_release yourfs_readdir yourfs_statfs : Handler

-- The fields of the table that hold a pointer, in their order.
data Callback : Type 0 where
  getattr_op readlink_op getdir_op mknod_op mkdir_op unlink_op : Callback
  rmdir_op symlink_op rename_op link_op chmod_op chown_op : Callback
  truncate_op utime_op open_op read_op write_op statfs_op : Callback
  flush_op release_op fsync_op setxattr_op getxattr_op listxattr_op : Callback
  removexattr_op opendir_op readdir_op releasedir_op fsyncdir_op init_op : Callback
  destroy_op access_op create_op ftruncate_op fgetattr_op lock_op : Callback
  utimens_op bmap_op ioctl_op poll_op write_buf_op read_buf_op : Callback
  flock_op fallocate_op : Callback

-- A table: what stands in each field; a null pointer is `none`. The padding word is left out.
abbrev FuseOperations : Type 0
FuseOperations = Callback → Option Handler

unfoldable empty : FuseOperations
empty c = none

-- `op.<field> = Some(h)`, for the fields that `operations` sets.
unfoldable operations : FuseOperations
unfolding empty
operations getattr_op = some yourfs_getattr
operations readlink_op = some yourfs_readlink
operations open_op = some yourfs_open
operations read_op = some yourfs_read
operations release_op = some yourfs_release
operations readdir_op = some yourfs_readdir
operations statfs_op = some yourfs_statfs
operations c = empty c

-- The callbacks by which a file, a directory or its metadata would be changed.
unfoldable changes : Callback → Bool
changes mknod_op = true
changes mkdir_op = true
changes unlink_op = true
changes rmdir_op = true
changes symlink_op = true
changes rename_op = true
changes link_op = true
changes chmod_op = true
changes chown_op = true
changes truncate_op = true
changes utime_op = true
changes write_op = true
changes setxattr_op = true
changes removexattr_op = true
changes create_op = true
changes ftruncate_op = true
changes utimens_op = true
changes write_buf_op = true
changes fallocate_op = true
changes c = false

-- The field through which libfuse makes a call of Fs.Live, and the function that serves it there.
abbrev field_of : Call → Callback
field_of (getattrs path) = getattr_op
field_of (readlinks path buf size) = readlink_op
field_of (opens path flags fh) = open_op
field_of (reads fh offset buf) = read_op
field_of (releases fh) = release_op
field_of (readdirs path) = readdir_op
field_of (statfses path) = statfs_op

abbrev handler_of : Call → Handler
handler_of (getattrs path) = yourfs_getattr
handler_of (readlinks path buf size) = yourfs_readlink
handler_of (opens path flags fh) = yourfs_open
handler_of (reads fh offset buf) = yourfs_read
handler_of (releases fh) = yourfs_release
handler_of (readdirs path) = yourfs_readdir
handler_of (statfses path) = yourfs_statfs

operations-handler_of : (call : Call) → operations (field_of call) ≡ some (handler_of call)
unfolding operations
operations-handler_of (getattrs path) = refl
operations-handler_of (readlinks path buf size) = refl
operations-handler_of (opens path flags fh) = refl
operations-handler_of (reads fh offset buf) = refl
operations-handler_of (releases fh) = refl
operations-handler_of (readdirs path) = refl
operations-handler_of (statfses path) = refl

operations-field_of : (c : Callback) → (operations c ≡ none) ⊎ ((call : Call) × (field_of call ≡ c))
unfolding operations empty
operations-field_of getattr_op = inr (getattrs [], refl)
operations-field_of readlink_op = inr (readlinks [] [] 0, refl)
operations-field_of open_op = inr (opens [] (pos 0) 0, refl)
operations-field_of read_op = inr (reads 0 (pos 0) [], refl)
operations-field_of statfs_op = inr (statfses [], refl)
operations-field_of release_op = inr (releases 0, refl)
operations-field_of readdir_op = inr (readdirs [], refl)
operations-field_of c = inl refl

changes-none : (call : Call) → changes (field_of call) ≡ false
unfolding changes
changes-none (getattrs path) = refl
changes-none (readlinks path buf size) = refl
changes-none (opens path flags fh) = refl
changes-none (reads fh offset buf) = refl
changes-none (releases fh) = refl
changes-none (readdirs path) = refl
changes-none (statfses path) = refl

-- The table given to libfuse is read-only. Each call that a mount serves finds its own handler in its
-- own field; every other field is null; and no field by which a file, a directory or its metadata
-- would be changed has a handler.
operations-read_only :
    ((call : Call) → operations (field_of call) ≡ some (handler_of call))
    × ((c : Callback) → (operations c ≡ none) ⊎ ((call : Call) × (field_of call ≡ c)))
    × ((c : Callback) → changes c ≡ true → operations c ≡ none)
operations-read_only = (
  operations-handler_of,
  operations-field_of,
  λ c h. elim (operations-field_of c) [
    | inl e ↦ e
    | inr (call, e) ↦ absurd (let f : changes c ≡ false = rw (← e) (changes-none call) in cc)
  ],
)
