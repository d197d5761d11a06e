-- ===== src/Directory.antt =====
-- group0/src/filesys/directory.c: directories, each an inode of InodeTable that holds entries of 20 bytes.
-- A name is its characters, without the zero byte behind it.
pub mod Slots
pub mod Lookup
pub mod Add
use cs162hwproj.Prelude.{
  ℕ, zero, suc, ◌+◌, ◌*◌, ◌^◌, Bool, true, false, not, ◌&&◌, ◌||◌, Option, none, some, List, [],
  ◌∷◌, ◌++◌, ltb, ◌==◌, if◌then◌else◌, get_or, splice, drop, length, ◌>>=◌,
}
use cs162hwproj.Device.{Block}
use cs162hwproj.FreeMap.{elem_bytes, root_dir_sector}
use cs162hwproj.Inode.{InodeDisk, Inode, inode_length, read_at, write_at}
use cs162hwproj.InodeTable.{
  FileSystem, find_inode, word, inode_create, inode_open, inode_reopen, inode_close, inode_remove,
}

abbrev pub name_max : ℕ
name_max = 14

-- `sizeof (struct dir_entry)`: the sector, 15 characters and `in_use`.
abbrev pub entry_size : ℕ
entry_size = 20

-- A `struct dir_entry` in memory.
abbrev pub DirEntry : Type 0
DirEntry = List ℕ

abbrev pub inode_sector : DirEntry → ℕ
inode_sector e = word e 0

abbrev pub in_use : DirEntry → Bool
in_use e = not (get_or e 19 0 == 0)

-- `strcmp` of a name with the bytes from `i` on is zero.
abbrev pub same_name : List ℕ → DirEntry → (i : ℕ) → Bool
same_name [] e i = get_or e i 0 == 0
same_name (c ∷ cs) e i = (get_or e i 0 == c) && same_name cs e (i + 1)

abbrev pub matches : List ℕ → DirEntry → Bool
matches name e = in_use e && same_name name e 4

-- The stores of `dir_add` and `dir_remove` into an entry.
unfoldable pub fill_entry : List ℕ → (sector : ℕ) → DirEntry → DirEntry
fill_entry name sector e =
    splice (splice (splice e 19 (1 ∷ [])) 4 (name ++ (0 ∷ []))) 0 (elem_bytes sector)

unfoldable pub clear_entry : DirEntry → DirEntry
clear_entry e = splice e 19 (0 ∷ [])

-- `struct dir`; the inode is known by its sector.
pub record Dir : Type 0 where
  pub inode : ℕ
  pub pos : ℕ

unfoldable pub dir_create :
    (memory bounce : Bool) → (sector entry_cnt : ℕ) → FileSystem → Option (Bool × FileSystem)
dir_create memory bounce sector entry_cnt fs =
    inode_create memory bounce sector (entry_cnt * entry_size) fs

-- `memory` is whether `calloc` gives the directory.
unfoldable pub dir_open :
    (memory bounce : Bool) → Option ℕ → FileSystem → Option (Option Dir × FileSystem)
dir_open memory bounce none fs = some (none, fs)
dir_open memory bounce (some sector) fs =
    if memory
    then some (some (record { inode = sector; pos = 0 }), fs)
    else (inode_close bounce (some sector) fs >>= λ fs'. some (none, fs'))

-- `opening` is whether `inode_open` gets its memory.
unfoldable pub dir_open_root :
    (opening memory bounce : Bool) → FileSystem → Option (Option Dir × FileSystem)
unfolding dir_open
dir_open_root opening memory bounce fs = do
  (inode, fs') ← inode_open opening root_dir_sector fs
  dir_open memory bounce inode fs'

unfoldable pub dir_reopen :
    (memory bounce : Bool) → Dir → FileSystem → Option (Option Dir × FileSystem)
unfolding dir_open
dir_reopen memory bounce dir fs =
    let (inode, fs') = inode_reopen (some dir.inode) fs in dir_open memory bounce inode fs'

unfoldable pub dir_close : (bounce : Bool) → Option Dir → FileSystem → Option FileSystem
dir_close bounce none fs = some fs
dir_close bounce (some dir) fs = inode_close bounce (some dir.inode) fs

module _ (bounce : Bool) (dev : Block) (d : InodeDisk) where
  -- The loop of `lookup`. One more round than the file has bytes is enough.
  unfoldable pub lookup_loop : (fuel : ℕ) → List ℕ → (ofs : ℕ) → Option (Option (DirEntry × ℕ))
  lookup_loop zero name ofs = none
  lookup_loop (suc fuel) name ofs =
      let rest = lookup_loop fuel name (ofs + entry_size) in
      (read_at bounce dev d entry_size ofs >>= λ e.
      if length e == entry_size
      then (if matches name e then some (some (e, ofs)) else rest)
      else some none)

  -- The loop of `dir_add`: where it stops, and what is then in the buffer, which starts as `old`.
  unfoldable pub free_loop : (fuel : ℕ) → (old : DirEntry) → (ofs : ℕ) → Option (DirEntry × ℕ)
  free_loop zero old ofs = none
  free_loop (suc fuel) old ofs =
      (read_at bounce dev d entry_size ofs >>= λ e.
      if length e == entry_size
      then (if in_use e then free_loop fuel e (ofs + entry_size) else some (e, ofs))
      else some (e ++ drop (length e) old, ofs))

  unfoldable pub readdir_loop : (fuel : ℕ) → (pos : ℕ) → Option (Option DirEntry × ℕ)
  readdir_loop zero pos = none
  readdir_loop (suc fuel) pos =
      let rest = readdir_loop fuel (pos + entry_size) in
      (read_at bounce dev d entry_size pos >>= λ e.
      if length e == entry_size
      then (if in_use e then some (some e, pos + entry_size) else rest)
      else some (none, pos))

-- `lookup`: the entry and its offset.
unfoldable pub lookup : (bounce : Bool) → Dir → List ℕ → FileSystem → Option (Option (DirEntry × ℕ))
unfolding lookup_loop
lookup bounce dir name fs = do
  i ← find_inode fs.open_inodes dir.inode
  lookup_loop bounce fs.dev i.disk (inode_length i.disk + 1) name 0

-- The inode that is opened; the result of the C function is whether there is one.
unfoldable pub dir_lookup :
    (opening bounce : Bool) → Dir → List ℕ → FileSystem → Option (Option ℕ × FileSystem)
unfolding lookup
dir_lookup opening bounce dir name fs = do
  found ← lookup bounce dir name fs
  elim found [ none ↦ some (none, fs) | some (e, ofs) ↦ inode_open opening (inode_sector e) fs ]

-- Writing an entry through the open inode.
unfoldable pub write_entry :
    (bounce : Bool) → Dir → DirEntry → (ofs : ℕ) → FileSystem → Option (Bool × FileSystem)
write_entry bounce dir e ofs fs = do
  i ← find_inode fs.open_inodes dir.inode
  (n, dev') ← write_at bounce fs.dev i e entry_size ofs
  some (n == entry_size, record fs { dev = dev' })

-- `garbage` is what the entry on the stack holds at first.
unfoldable pub dir_add :
    (bounce : Bool)
    → (garbage : DirEntry) → Dir
    → List ℕ
    → (sector : ℕ) → FileSystem
    → Option (Bool × FileSystem)
unfolding lookup free_loop write_entry fill_entry
dir_add bounce garbage dir name sector fs =
    if (length name == 0) || ltb name_max (length name) then some (false, fs) else (do
      found ← lookup bounce dir name fs
      elim found [
        | some hit ↦ some (false, fs)
        | none ↦ do
          i ← find_inode fs.open_inodes dir.inode
          (e, ofs) ← free_loop bounce fs.dev i.disk (inode_length i.disk + 1) garbage 0
          write_entry bounce dir (fill_entry name sector e) ofs fs
      ])

unfoldable pub dir_remove :
    (opening bounce : Bool) → Dir → List ℕ → FileSystem → Option (Bool × FileSystem)
unfolding lookup write_entry clear_entry
dir_remove opening bounce dir name fs = do
  found ← lookup bounce dir name fs
  elim found [
    | none ↦ some (false, fs)
    | some (e, ofs) ↦ do
      (opened, fs1) ← inode_open opening (inode_sector e) fs
      elim opened [
        | none ↦ some (false, fs1)
        | some inode ↦ do
          (written, fs2) ← write_entry bounce dir (clear_entry e) ofs fs1
          fs3 ← inode_close bounce (some inode) (if written then inode_remove inode fs2 else fs2)
          some (written, fs3)
      ]
  ]

-- The name's bytes as `strlcpy` reads them, and the directory with its position moved on.
abbrev pub text_of : (fuel : ℕ) → DirEntry → (i : ℕ) → List ℕ
text_of zero e i = []
text_of (suc fuel) e i = if get_or e i 0 == 0 then [] else get_or e i 0 ∷ text_of fuel e (i + 1)

unfoldable pub dir_readdir : (bounce : Bool) → Dir → FileSystem → Option (Option (List ℕ) × Dir)
unfolding readdir_loop
dir_readdir bounce dir fs = do
  i ← find_inode fs.open_inodes dir.inode
  (found, pos) ← readdir_loop bounce fs.dev i.disk (inode_length i.disk + 1) dir.pos
  some (elim found [ none ↦ none | some e ↦ some (text_of name_max e 4) ], record dir { pos = pos })
