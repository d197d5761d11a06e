-- ===== src/FreeMap.antt =====
-- group0/src/filesys/free-map.c: which sectors of the file system's device are in use, as a bitmap that is
-- kept in a file of the device.
pub mod Sectors
use cs162hwproj.Prelude.{
  ℕ, ◌+◌, ◌*◌, ◌/◌, ◌%◌, ◌^◌, Bool, true, false, not, Option, none, some, List, [], ◌∷◌, ◌++◌, ◌==◌,
  if◌then◌else◌, take, ◌>>=◌, ◌>>◌, assert,
}
use cs162hwproj.Bitmap.{
  Bitmap, bitmap_error, byte_cnt, elem_cnt, create, mark, all_set, set_multiple, scan_and_flip,
}
use cs162hwproj.Device.{Block}
use cs162hwproj.Inode.{Inode, write_at}

-- `free_map`, and the inode behind `free_map_file`, which is null until the file is open.
pub record FreeMap : Type 0 where
  pub map : Bitmap
  pub file : Option Inode

abbrev pub free_map_sector : ℕ
free_map_sector = 0

abbrev pub root_dir_sector : ℕ
root_dir_sector = 1

-- The bytes of an element in memory, the lowest first.
abbrev pub elem_bytes : ℕ → List ℕ
elem_bytes w = w % 256 ∷ w / 256 % 256 ∷ w / 65536 % 256 ∷ w / 16777216 % 256 ∷ []

abbrev pub elems_bytes : List ℕ → List ℕ
elems_bytes [] = []
elems_bytes (w ∷ ws) = elem_bytes w ++ elems_bytes ws

-- `bitmap_write`: `file_write_at` writes to the inode of the file, from its start.
unfoldable pub bitmap_write : (bounce : Bool) → Block → Bitmap → Inode → Option (Bool × Block)
bitmap_write bounce dev b inode = do
  let size = byte_cnt b.bit_cnt
  (n, dev') ← write_at bounce dev inode (elems_bytes (take (elem_cnt b.bit_cnt) b.bits)) size 0
  some (n == size, dev')

-- `alloc` and `bits` are what the two allocations of `bitmap_create` give.
unfoldable pub free_map_init : (alloc : Bool) → Option (List ℕ) → Block → Option FreeMap
free_map_init alloc bits dev = create alloc bits dev.size >>= λ made. elim made [
  | none ↦ none
  | some b ↦ some (record { map = mark (mark b free_map_sector) root_dir_sector; file = none })
]

-- Whether the map is on the device: it need not be while there is no file.
unfoldable pub save : (bounce : Bool) → Block → Bitmap → Option Inode → Option (Bool × Block)
save bounce dev b none = some (true, dev)
save bounce dev b (some inode) = bitmap_write bounce dev b inode

-- The sector, if there is one, is what is stored through `sectorp`.
unfoldable pub free_map_allocate :
    (bounce : Bool) → Block → FreeMap → (cnt : ℕ) → Option (Option ℕ × FreeMap × Block)
unfolding save
free_map_allocate bounce dev f cnt = do
  (sector, map) ← scan_and_flip f.map 0 cnt false
  if sector == bitmap_error then some (none, record f { map = map }, dev) else (do
    (saved, dev') ← save bounce dev map f.file
    if saved then some (some sector, record f { map = map }, dev') else (do
      back ← set_multiple map sector cnt false
      some (none, record f { map = back }, dev')))

-- `bitmap_write` is called even where there is no file, and would fail on the null pointer; its result
-- is not looked at.
unfoldable pub free_map_release :
    (bounce : Bool) → Block → FreeMap → (sector cnt : ℕ) → Option (FreeMap × Block)
free_map_release bounce dev f sector cnt = do
  taken ← all_set f.map sector cnt
  assert taken
  map ← set_multiple f.map sector cnt false
  inode ← f.file
  (saved, dev') ← bitmap_write bounce dev map inode
  some (record f { map = map }, dev')
