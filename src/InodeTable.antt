-- ===== src/InodeTable.antt =====
-- group0/src/filesys/inode.c: inodes on the device, and the list of the open ones. An open inode is known
-- by its sector, by which `inode_open` finds it in the list; `Option` results are null pointers.
pub mod Disk
use cs162hwproj.Prelude.{
  ℕ, zero, suc, ◌+◌, ◌-◌, ◌*◌, ◌%◌, ◌^◌, ◌≡◌, Bool, true, false, not, ◌&&◌, ◌||◌, Option, none,
  some, List, [], ◌∷◌, ◌++◌, ltb, leb, ◌==◌, if◌then◌else◌, get_or, replicate, ◌>>=◌, ◌>>◌, assert,
}
use cs162hwproj.Device.{Block, sector_size, block_read, block_write}
use cs162hwproj.Inode.{InodeDisk, Inode, bytes_to_sectors, inode_length}
use cs162hwproj.FreeMap.{FreeMap, elem_bytes, free_map_allocate, free_map_release}

abbrev pub inode_magic : ℕ
inode_magic = 1229867844

-- What inode.c works on. The inode behind the free map's file is kept in the map.
pub record FileSystem : Type 0 where
  pub dev : Block
  pub free : FreeMap
  pub open_inodes : List Inode

-- A 32-bit number in memory, the lowest byte first.
abbrev pub word : List ℕ → ℕ → ℕ
word bs i =
    get_or bs i 0
    + 256 * get_or bs (i + 1) 0
    + 65536 * get_or bs (i + 2) 0
    + 16777216 * get_or bs (i + 3) 0

-- The bytes of a `struct inode_disk`, and back.
unfoldable pub encode_disk : InodeDisk → List ℕ
encode_disk d = elem_bytes d.start ++ elem_bytes d.length ++ elem_bytes d.magic ++ replicate 500 0

unfoldable pub decode_disk : List ℕ → InodeDisk
decode_disk bs = record { start = word bs 0; length = word bs 4; magic = word bs 8 }

unfoldable pub zero_loop : (rounds i start : ℕ) → Block → Option Block
zero_loop zero i start dev = some dev
zero_loop (suc rounds) i start dev = do
  dev' ← block_write dev ((start + i) % 2 ^ 32) (replicate sector_size 0)
  zero_loop rounds (i + 1) start dev'

-- `memory` is whether `calloc` gives the block, and `bounce` is for the writing of the free map.
unfoldable pub inode_create :
    (memory bounce : Bool) → (sector length : ℕ) → FileSystem → Option (Bool × FileSystem)
unfolding zero_loop
inode_create memory bounce sector length fs = do
  assert (ltb length (2 ^ 31))
  if memory
      then (do
        let sectors = bytes_to_sectors length
        (given, free, dev1) ← free_map_allocate bounce fs.dev fs.free sectors
        elim given [
          | none ↦ some (false, record fs { dev = dev1; free = free })
          | some start ↦ do
            dev2 ←
                block_write dev1 sector
                  (encode_disk (record { start = start; length = length; magic = inode_magic }))
            dev3 ← zero_loop sectors 0 start dev2
            some (true, record fs { dev = dev3; free = free })
        ])
      else some (false, fs)

unfoldable pub find_inode : List Inode → ℕ → Option Inode
find_inode [] sector = none
find_inode (i ∷ is) sector = if i.sector == sector then some i else find_inode is sector

-- A change of the inode in place, and its removal from the list.
unfoldable pub change_inode : ℕ → (Inode → Inode) → List Inode → List Inode
change_inode sector f [] = []
change_inode sector f (i ∷ is) =
    if i.sector == sector then f i ∷ is else i ∷ change_inode sector f is

unfoldable pub drop_inode : ℕ → List Inode → List Inode
drop_inode sector [] = []
drop_inode sector (i ∷ is) = if i.sector == sector then is else i ∷ drop_inode sector is

unfoldable pub inode_reopen : Option ℕ → FileSystem → Option ℕ × FileSystem
unfolding change_inode
inode_reopen none fs = (none, fs)
inode_reopen (some sector) fs = (
  some sector,
  record fs {
    open_inodes = change_inode sector (λ i. record i { open_cnt = i.open_cnt + 1 }) fs.open_inodes;
  },
)

unfoldable pub inode_open :
    (memory : Bool) → (sector : ℕ) → FileSystem → Option (Option ℕ × FileSystem)
unfolding find_inode inode_reopen
inode_open memory sector fs = elim (find_inode fs.open_inodes sector) [
  | some i ↦ some (inode_reopen (some sector) fs)
  | none ↦
      if memory
      then (do
        data_ ← block_read fs.dev sector
        let new : Inode = record {
          sector = sector;
          open_cnt = 1;
          removed = false;
          deny_write_cnt = 0;
          disk = decode_disk data_;
        }
        some (some sector, record fs { open_inodes = new ∷ fs.open_inodes }))
      else some (none, fs)
]

unfoldable pub inode_remove : (sector : ℕ) → FileSystem → FileSystem
unfolding change_inode
inode_remove sector fs = record fs {
  open_inodes = change_inode sector (λ i. record i { removed = true }) fs.open_inodes;
}

-- The blocks of a removed inode, when its last opener closes it.
unfoldable pub release_blocks : (bounce : Bool) → Inode → FileSystem → Option FileSystem
release_blocks bounce i fs = do
  (free1, dev1) ← free_map_release bounce fs.dev fs.free i.sector 1
  (free2, dev2) ← free_map_release bounce dev1 free1 i.disk.start (bytes_to_sectors i.disk.length)
  some (record fs { dev = dev2; free = free2 })

-- Closing an inode that is not open does not happen: it is the use of freed memory.
unfoldable pub inode_close : (bounce : Bool) → Option ℕ → FileSystem → Option FileSystem
unfolding find_inode change_inode drop_inode release_blocks
inode_close bounce none fs = some fs
inode_close bounce (some sector) fs = elim (find_inode fs.open_inodes sector) [
  | none ↦ none
  | some i ↦
      if i.open_cnt - 1 == 0
      then (let fs' = record fs { open_inodes = drop_inode sector fs.open_inodes } in
          if i.removed then release_blocks bounce i fs' else some fs')
      else some (record fs {
        open_inodes =
            change_inode sector (λ j. record j { open_cnt = j.open_cnt - 1 }) fs.open_inodes;
      })
]

unfoldable pub inode_deny_write : Inode → Option Inode
inode_deny_write i = do
  assert (leb (i.deny_write_cnt + 1) i.open_cnt)
  some (record i { deny_write_cnt = i.deny_write_cnt + 1 })

unfoldable pub inode_allow_write : Inode → Option Inode
inode_allow_write i = do
  assert (ltb 0 i.deny_write_cnt)
  assert (leb i.deny_write_cnt i.open_cnt)
  some (record i { deny_write_cnt = i.deny_write_cnt - 1 })
