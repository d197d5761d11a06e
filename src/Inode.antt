-- ===== src/Inode.antt =====
-- group0/src/filesys/inode.c: the bytes of a file on the device. Offsets and sizes are the
-- nonnegative values of `off_t`. Loops run on fuel, one more than the size.
pub mod Bytes
pub mod Read
pub mod Write
use cs162hwproj.Prelude.{
  ℕ, zero, suc, ◌+◌, ◌-◌, ◌/◌, ◌%◌, ◌^◌, Bool, true, false, ◌&&◌, ◌||◌, Option, none, some, List,
  ◌++◌, ltb, ◌==◌, if◌then◌else◌, min, take, drop, replicate, length, splice, ◌>>=◌,
}
use cs162hwproj.Device.{Block, sector_size, block_read, block_write}

-- `struct inode_disk`, less the bytes that are not used. `length` is the pattern of an `off_t`.
pub record InodeDisk : Type 0 where
  pub start : ℕ
  pub length : ℕ
  pub magic : ℕ

-- `struct inode`, less the list element; `disk` is its member `data`.
pub record Inode : Type 0 where
  pub sector : ℕ
  pub open_cnt : ℕ
  pub removed : Bool
  pub deny_write_cnt : ℕ
  pub disk : InodeDisk

-- `DIV_ROUND_UP (size, BLOCK_SECTOR_SIZE)` on the pattern of an `off_t`. The sum wraps around; the quotient of a
-- negative sum is rounded to 0, and is then a `size_t`.
abbrev pub bytes_to_sectors : ℕ → ℕ
bytes_to_sectors size =
    let sum = (size + 511) % 2 ^ 32 in
    if ltb sum (2 ^ 31) then sum / 512 else (2 ^ 32 - (2 ^ 32 - sum) / 512) % 2 ^ 32

-- The length in bytes. One that is negative as an `off_t` counts as 0 here: offsets are not
-- negative, so each comparison of the code with it comes out the same.
abbrev pub inode_length : InodeDisk → ℕ
inode_length d = if ltb d.length (2 ^ 31) then d.length else 0

-- The sum is one of 32-bit numbers; -1 is their largest.
abbrev pub byte_to_sector : InodeDisk → ℕ → ℕ
byte_to_sector d pos =
    if ltb pos (inode_length d) then (d.start + pos / sector_size) % 2 ^ 32 else 2 ^ 32 - 1

-- `chunk_size`: the bytes to copy in one round, 0 where the code's number is 0 or negative.
abbrev pub chunk_size : InodeDisk → ℕ → ℕ → ℕ
chunk_size d size offset =
    min size (min (inode_length d - offset) (sector_size - offset % sector_size))

-- `bounce` is whether `malloc` gives the bounce buffer; `out` is what the buffer holds so far.
unfoldable pub read_loop :
    (fuel : ℕ) (bounce : Bool) → Block → InodeDisk → (size offset : ℕ) → List ℕ → Option (List ℕ)
read_loop zero bounce dev d size offset out = none
read_loop (suc fuel) bounce dev d size offset out =
    let chunk = chunk_size d size offset in
    let sector_ofs = offset % sector_size in
    let next = λ (bytes : List ℕ).
      read_loop fuel bounce dev d (size - chunk) (offset + chunk) (out ++ bytes) in
    if size == 0
    then some out
    else if chunk == 0
    then some out
    else if (sector_ofs == 0) && (chunk == sector_size)
    then (block_read dev (byte_to_sector d offset) >>= next)
    else if bounce
    then (block_read dev (byte_to_sector d offset) >>= λ s. next (take chunk (drop sector_ofs s)))
    else some out

-- `inode_read_at`: the bytes that were read; their number is the result of the C function.
unfoldable pub read_at : (bounce : Bool) → Block → InodeDisk → (size offset : ℕ) → Option (List ℕ)
unfolding read_loop
read_at bounce dev d size offset = read_loop (size + 1) bounce dev d size offset List.[]

-- The sector that a round writes through the bounce buffer.
unfoldable pub bounced : Block → InodeDisk → (size offset : ℕ) → List ℕ → Option (List ℕ)
bounced dev d size offset buffer = do
  let chunk = chunk_size d size offset
  let sector_ofs = offset % sector_size
  s ←
      (if ltb 0 sector_ofs || ltb chunk (sector_size - sector_ofs)
        then block_read dev (byte_to_sector d offset)
        else some (replicate sector_size 0))
  some (splice s sector_ofs (take chunk buffer))

-- `buffer` is what is left of the caller's buffer.
unfoldable pub write_loop :
    (fuel : ℕ) (bounce : Bool)
    → Block
    → InodeDisk
    → List ℕ
    → (size offset written : ℕ) → Option (ℕ × Block)
write_loop zero bounce dev d buffer size offset written = none
write_loop (suc fuel) bounce dev d buffer size offset written =
    let chunk = chunk_size d size offset in
    let next = λ (dev' : Block).
      write_loop fuel bounce dev' d (drop chunk buffer) (size - chunk) (offset + chunk)
        (written + chunk) in
    if size == 0
    then some (written, dev)
    else if chunk == 0
    then some (written, dev)
    else if (offset % sector_size == 0) && (chunk == sector_size)
    then (block_write dev (byte_to_sector d offset) (take chunk buffer) >>= next)
    else if bounce
    then (bounced dev d size offset buffer >>= λ s.
        block_write dev (byte_to_sector d offset) s >>= next)
    else some (written, dev)

unfoldable pub write_at :
    (bounce : Bool) → Block → Inode → List ℕ → (size offset : ℕ) → Option (ℕ × Block)
unfolding write_loop
write_at bounce dev inode buffer size offset =
    if inode.deny_write_cnt == 0
    then write_loop (size + 1) bounce dev inode.disk buffer size offset 0
    else some (0, dev)
