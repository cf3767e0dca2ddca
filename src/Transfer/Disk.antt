-- ===== src/Transfer/Disk.antt =====
-- internal/transport/disk_unix.go, diskFreeBytesFromStat: the free space of a file system.
use wormzy.Prelude.{
  ℕ, ◌-◌, ◌*◌, ◌/◌, ◌%◌, ◌^◌, ◌<◌, Option, none, some, ◌==◌, Nat_eq, ◌≡◌, arith, if◌then◌else◌, ltb,
}
use wormzy.Prelude.Int.{ℤ, pos, negsuc}
use native.Mathlib.Nat.{le-div_iff_mul-le}

unfoldable pub disk_free_bytes_from_stat : ℕ → ℤ → Option ℕ
disk_free_bytes_from_stat available_blocks (negsuc n) = none
disk_free_bytes_from_stat available_blocks (pos block_size) =
    if block_size == 0
    then none
    else if ltb ((2 ^ 64 - 1) / block_size) available_blocks
    then none
    else some (available_blocks * block_size % 2 ^ 64)

-- For a block size that is positive, the answer is the product, unless it does not fit a uint64.
disk_free_bytes_from_stat_lem :
    (blocks size : ℕ)
    → 0 < size
    → disk_free_bytes_from_stat blocks (pos size)
      ≡ (if ltb (blocks * size) (2 ^ 64) then some (blocks * size) else none)
unfolding disk_free_bytes_from_stat
disk_free_bytes_from_stat_lem blocks size h =
    let fits = le-div_iff_mul-le {k = size} {x = blocks} {y = 2 ^ 64 - 1} h in
    ground (arith, fits, h)
