-- ===== src/HostVariable/Flags.antt =====
-- The word `flags` of src/host_variable.c: what each function computes from the flags that it has
-- loaded, for its compare-exchange to store. Field `b` counts the readers of buffer `b`, with 15
-- for a writer; field 15 is the target, the buffer that was published last.
pub mod Target
pub mod Readers
pub mod FreeMask
pub mod Writers
use robot_ipc.Common.{
  ℕ, ◌+◌, ◌-◌, ◌*◌, ◌%◌, bit_and, bit_or, Option, none, some, ◌==◌, if◌then◌else◌,
}
use robot_ipc.Word.{u64, u64_mod, ◌<<<◌, ◌>>>◌, bit_not}
use robot_ipc.Word.Scan.{ctz}

-- SHM_BUFFER_CNT of src/config.h.
abbrev pub shm_buffer_cnt : ℕ
shm_buffer_cnt = 4

-- What `link_host_variable` stores into a new variable.
unfoldable pub init_flags : ℕ
init_flags = ((1 <<< (15 - shm_buffer_cnt) * 4) - 1) <<< shm_buffer_cnt * 4

-- `flags >> 60`.
unfoldable pub target_of : ℕ → ℕ
target_of flags = flags >>> 60

-- The body of the loop of `__acquire_read_lock`: the target and `new_flags`, or `none` for the
-- return of -1.
unfoldable pub acquire_read : ℕ → Option (ℕ × ℕ)
unfolding target_of
acquire_read flags =
    let target = target_of flags in
    let tmp = bit_and (flags >>> target * 4) 0xF + 1 in
    if tmp == 0xF
    then none
    else some (target, bit_or (bit_and flags (bit_not (0xF <<< target * 4))) (tmp <<< target * 4))

-- `new_flags` in the loop of `__release_read_lock`. The subtraction is on `uint64_t`.
unfoldable pub release_read : ℕ → ℕ → ℕ
release_read target flags =
    let tmp = u64 (bit_and (flags >>> target * 4) 0xF + u64_mod - 1) in
    bit_or (bit_and flags (bit_not (0xF <<< target * 4))) (tmp <<< target * 4)

-- `free_mask` in the first loop of `write_host_variable`: bit `4 b` is set where buffer `b` is free.
unfoldable pub free_mask : ℕ → ℕ
unfolding target_of
free_mask flags =
    bit_and
      (bit_not (
        bit_or (bit_or (bit_or (bit_or flags (flags >>> 1)) (flags >>> 2)) (flags >>> 3))
          (0xF <<< target_of flags * 4)))
      0x0111111111111111

-- The body of that loop: `target4` and `new_flags`, or `none` for the return of -1.
unfoldable pub claim : ℕ → Option (ℕ × ℕ)
unfolding free_mask
claim flags =
    let target4 = ctz (free_mask flags) in
    if free_mask flags == 0 then none else some (target4, bit_or flags (0xF <<< target4))

-- `new_flags` in the last loop of `write_host_variable`.
unfoldable pub publish : ℕ → ℕ → ℕ
publish target4 flags =
    bit_or (target4 >>> 2 <<< 60)
      (bit_and (bit_and flags 0x0FFFFFFFFFFFFFFF) (bit_not (0xF <<< target4)))

-- What `atomic_fetch_and` leaves where the write is out of date.
unfoldable pub drop_claim : ℕ → ℕ → ℕ
drop_claim target4 flags = bit_and flags (bit_not (0xF <<< target4))
