-- ===== src/Device.antt =====
-- group0/src/devices/block.c: a block device as its size in sectors and what each sector holds.
-- The driver behind `ops` is the hardware's: it reads back what was last written. The counters
-- that `block_print_stats` prints are left out. `none` is a panic.
use cs162hwproj.Prelude.{
  ℕ, ◌<◌, ◌^◌, ◌≡◌, Bool, true, false, not, Option, some, List, ltb, ◌==◌, if◌then◌else◌, length,
  ◌>>=◌, ◌>>◌, assert, arith, lt→ltb,
}

-- `enum block_type`.
pub data BlockType : Type 0 where
  kernel filesys scratch swap raw foreign : BlockType

abbrev pub is_foreign : BlockType → Bool
is_foreign foreign = true
is_foreign _ = false

pub record Block : Type 0 where
  pub type : BlockType
  pub size : ℕ
  pub sector : ℕ → List ℕ

-- `BLOCK_SECTOR_SIZE`.
abbrev pub sector_size : ℕ
sector_size = 512

abbrev pub check_sector : Block → ℕ → Option (Unit {0})
check_sector b s = assert (ltb s b.size)

unfoldable pub block_read : Block → ℕ → Option (List ℕ)
block_read b s = do check_sector b s; some (b.sector s)

unfoldable pub block_write : Block → ℕ → List ℕ → Option Block
block_write b s bytes = do
  check_sector b s
  assert (not (is_foreign b.type))
  some (record b { sector = λ t. if t == s then bytes else b.sector t })

-- Sectors hold 512 bytes each, their numbers fit in 32 bits, and writing is allowed.
pub record IsDevice (b : Block) : Type 0 where
  pub whole : (s : ℕ) → length (b.sector s) ≡ 512
  pub small : b.size < 2 ^ 32
  pub writable : is_foreign b.type ≡ false

module _ {b : Block} (d : IsDevice b) (s : ℕ) (inside : s < b.size) where
  pub block_read-some : block_read b s ≡ some (b.sector s)
  unfolding block_read
  block_read-some = rw (lt→ltb _ _ inside)

  pub block_write-some :
      (bytes : List ℕ)
      → block_write b s bytes
        ≡ some (record b { sector = λ t. if t == s then bytes else b.sector t })
  unfolding block_write
  block_write-some bytes = rw (lt→ltb _ _ inside, d.writable)

  pub IsDevice-write :
      (bytes : List ℕ)
      → length bytes ≡ 512
      → IsDevice (record b { sector = λ t. if t == s then bytes else b.sector t })
  IsDevice-write bytes h = record {
    whole = λ t. ground (arith, d.whole t);
    small = d.small;
    writable = d.writable;
  }

-- On a device whose sectors hold 512 bytes each and that can be written, for two sectors below its
-- size: after `block_write` of one, `block_read` of the other returns the bytes written if the
-- sectors are the same, and what it returned before if not.
pub block_read-block_write :
    {b : Block} (s t : ℕ) (bytes : List ℕ)
    → IsDevice b
    → s < b.size
    → t < b.size
    → (block_write b s bytes >>= λ b'. block_read b' t)
      ≡ (if t == s then some bytes else block_read b t)
unfolding block_read
block_read-block_write s t bytes d p q =
    rw (block_write-some d s p bytes) (ground (arith, lt→ltb _ _ q))
