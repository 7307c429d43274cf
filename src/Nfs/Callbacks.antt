-- ===== src/Nfs/Callbacks.antt =====
-- src/libnfs.rs: the callbacks of the requests, over the memory of the process. A pointer is an address,
-- 0 for null. `readlink_cb` is in Nfs.Readlink, and `read_cb` is there again over a list, in Nfs.Defs.
use yourfs.Base.{
  ℕ, ◌+◌, ◌-◌, ◌<◌, ◌≤◌, true, ◌&&◌, ◌||◌, ltb, leb, ◌==◌, if◌then◌else◌, min, ◌≡◌, ◌⊎◌,
}
use yourfs.Base.Int.{ℤ, pos, negsuc, is_neg}

-- The byte at each address.
abbrev pub Memory : Type 0
Memory = ℕ → ℕ

pub record SyncCbData : Type 0 where
  pub is_finished : ℕ
  pub status : ℤ
  pub return_data : ℕ
  pub max_size : ℕ

abbrev pub cb_default : SyncCbData
cb_default = record { is_finished = 0; status = pos 0; return_data = 0; max_size = 0 }

-- `ptr::copy_nonoverlapping`, of bytes.
unfoldable pub copy_nonoverlapping : ℕ → ℕ → ℕ → Memory → Memory
copy_nonoverlapping src dst n m a =
    if leb dst a && ltb a (dst + n) then m (src + (a - dst)) else m a

-- What each callback begins with.
abbrev pub finished : ℤ → SyncCbData → SyncCbData
finished status cb = record cb { is_finished = 1; status = status }

unfoldable pub generic_cb : ℤ → ℕ → SyncCbData × Memory → SyncCbData × Memory
generic_cb status data_ptr (cb, m) = (finished status cb, m)

unfoldable pub copy_struct_cb : ℤ → ℕ → SyncCbData × Memory → SyncCbData × Memory
copy_struct_cb status data_ptr (cb, m) =
    if is_neg status || (data_ptr == 0 || cb.return_data == 0)
    then (finished status cb, m)
    else (finished status cb, copy_nonoverlapping data_ptr cb.return_data cb.max_size m)

unfoldable pub open_cb : ℤ → ℕ → SyncCbData × Memory → SyncCbData × Memory
open_cb status data_ptr (cb, m) =
    if is_neg status
    then (finished status cb, m)
    else (record (finished status cb) { return_data = data_ptr }, m)

-- `status as usize` of a status that is not negative.
as_usize : ℤ → ℕ
as_usize (pos n) = n
as_usize (negsuc n) = 0

unfoldable pub read_cb : ℤ → ℕ → SyncCbData × Memory → SyncCbData × Memory
unfolding as_usize
read_cb status data_ptr (cb, m) =
    if is_neg status || data_ptr == 0
    then (finished status cb, m)
    else (let n = min (as_usize status) cb.max_size in
        (finished (pos n) cb, copy_nonoverlapping data_ptr cb.return_data n m))

-- The callbacks that a request may be issued with.
pub data Which : Type 0 where
  generic structs opens reads : Which

abbrev pub run_cb : Which → ℤ → ℕ → SyncCbData × Memory → SyncCbData × Memory
run_cb generic = generic_cb
run_cb structs = copy_struct_cb
run_cb opens = open_cb
run_cb reads = read_cb

-- An address that is not in the buffer of `size` bytes at `start`.
abbrev pub IsOutside : ℕ → ℕ → ℕ → Type 0
IsOutside start size a = (a < start) ⊎ (start + size ≤ a)

-- The completion is recorded, nothing outside of the caller's buffer is written, and a failure writes
-- nothing at all.
abbrev pub IsWithin : ℤ → SyncCbData × Memory → SyncCbData × Memory → Type 0
IsWithin status (cb, m) (d, v) =
    (d.is_finished ≡ 1)
    × ((a : ℕ) → IsOutside cb.return_data cb.max_size a → v a ≡ m a)
    × (is_neg status ≡ true → (d.status ≡ status) × ((a : ℕ) → v a ≡ m a))

-- What a read delivers: a status that is not negative, with data, becomes the number of bytes copied,
-- which is the smaller of the status and the size of the buffer, and these bytes are the server's.
abbrev pub IsDelivered : ℕ → ℕ → SyncCbData × Memory → SyncCbData × Memory → Type 0
IsDelivered n data_ptr (cb, m) (d, v) =
    (d.status ≡ pos (min n cb.max_size))
    × ((i : ℕ) → i < min n cb.max_size → v (cb.return_data + i) ≡ m (data_ptr + i))
