-- ===== src/FileSys.antt =====
-- group0/src/filesys/filesys.c: creating, opening and removing of files by name, in the root directory.
use cs162hwproj.Prelude.{
  ℕ, Bool, false, not, ◌&&◌, Option, none, some, List, ◌==◌, if◌then◌else◌, ◌>>=◌,
}
use cs162hwproj.FreeMap.{free_map_allocate, free_map_release}
use cs162hwproj.InodeTable.{FileSystem, inode_create}
use cs162hwproj.File.{File, file_open}
use cs162hwproj.Directory.{DirEntry, Dir, dir_open_root, dir_close, dir_add, dir_remove, dir_lookup}

-- Whether each allocation of a call succeeds: the inode of the root directory, the directory, the inode of the file,
-- the file or the block of `inode_create`, and the bounce buffers.
pub record Memory : Type 0 where
  pub root : Bool
  pub dir : Bool
  pub inode : Bool
  pub file : Bool
  pub bounce : Bool

-- The chain of conditions of `filesys_create`, with the sector that was taken, or 0.
unfoldable pub create_chain :
    Memory
    → (garbage : DirEntry) → Option Dir
    → List ℕ
    → (initial_size : ℕ) → FileSystem
    → Option (Bool × ℕ × FileSystem)
create_chain m garbage none name initial_size fs = some (false, 0, fs)
create_chain m garbage (some dir) name initial_size fs = do
  (given, free, dev) ← free_map_allocate m.bounce fs.dev fs.free 1
  let fs1 = record fs { dev = dev; free = free }
  elim given [
    | none ↦ some (false, 0, fs1)
    | some sector ↦ do
      (made, fs2) ← inode_create m.file m.bounce sector initial_size fs1
      if made
          then (do
            (added, fs3) ← dir_add m.bounce garbage dir name sector fs2
            some (added, sector, fs3))
          else some (false, sector, fs2)
  ]

unfoldable pub filesys_create :
    Memory
    → (garbage : DirEntry) → List ℕ
    → (initial_size : ℕ) → FileSystem
    → Option (Bool × FileSystem)
unfolding create_chain
filesys_create m garbage name initial_size fs = do
  (dir, fs1) ← dir_open_root m.root m.dir m.bounce fs
  (success, sector, fs2) ← create_chain m garbage dir name initial_size fs1
  fs3 ←
      (if not success && not (sector == 0)
        then (do
          (free, dev) ← free_map_release m.bounce fs2.dev fs2.free sector 1
          some (record fs2 { dev = dev; free = free }))
        else some fs2)
  fs4 ← dir_close m.bounce dir fs3
  some (success, fs4)

unfoldable pub filesys_open : Memory → List ℕ → FileSystem → Option (Option File × FileSystem)
filesys_open m name fs = do
  (dir, fs1) ← dir_open_root m.root m.dir m.bounce fs
  (inode, fs2) ← elim dir [
    | none ↦ some (none, fs1)
    | some d ↦ dir_lookup m.inode m.bounce d name fs1
  ]
  fs3 ← dir_close m.bounce dir fs2
  file_open m.file m.bounce inode fs3

unfoldable pub filesys_remove : Memory → List ℕ → FileSystem → Option (Bool × FileSystem)
filesys_remove m name fs = do
  (dir, fs1) ← dir_open_root m.root m.dir m.bounce fs
  (success, fs2) ← elim dir [
    | none ↦ some (false, fs1)
    | some d ↦ dir_remove m.inode m.bounce d name fs1
  ]
  fs3 ← dir_close m.bounce dir fs2
  some (success, fs3)
