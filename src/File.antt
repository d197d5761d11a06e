-- ===== src/File.antt =====
-- group0/src/filesys/file.c: open files, each a position in an inode of InodeTable. A call that takes a
-- file gives it back as it leaves it; `none` is also the use of an inode that is not open.
pub mod Position
use cs162hwproj.Prelude.{
  ℕ, ◌+◌, ◌^◌, Bool, true, false, not, Option, none, some, List, ltb, if◌then◌else◌, length, ◌>>=◌,
  ◌>>◌, assert,
}
use cs162hwproj.Inode.{Inode, inode_length, read_at, write_at}
use cs162hwproj.InodeTable.{
  FileSystem, find_inode, change_inode, inode_reopen, inode_close, inode_deny_write,
  inode_allow_write,
}

-- `struct file`; the inode is known by its sector.
pub record File : Type 0 where
  pub inode : ℕ
  pub pos : ℕ
  pub deny_write : Bool

-- `memory` is whether `calloc` gives the file.
unfoldable pub file_open :
    (memory bounce : Bool) → Option ℕ → FileSystem → Option (Option File × FileSystem)
file_open memory bounce none fs = some (none, fs)
file_open memory bounce (some sector) fs =
    if memory
    then some (some (record { inode = sector; pos = 0; deny_write = false }), fs)
    else (inode_close bounce (some sector) fs >>= λ fs'. some (none, fs'))

unfoldable pub file_reopen :
    (memory bounce : Bool) → File → FileSystem → Option (Option File × FileSystem)
unfolding file_open
file_reopen memory bounce file fs =
    let (sector, fs') = inode_reopen (some file.inode) fs in file_open memory bounce sector fs'

-- An operation that changes the inode of a file.
abbrev pub on_inode : (Inode → Option Inode) → File → FileSystem → Option FileSystem
on_inode f file fs = do
  inode ← find_inode fs.open_inodes file.inode
  inode' ← f inode
  some (record fs { open_inodes = change_inode file.inode (λ i. inode') fs.open_inodes })

unfoldable pub file_deny_write : File → FileSystem → Option (File × FileSystem)
file_deny_write file fs =
    if file.deny_write
    then some (file, fs)
    else (on_inode inode_deny_write file fs >>= λ fs'.
        some (record file { deny_write = true }, fs'))

unfoldable pub file_allow_write : File → FileSystem → Option (File × FileSystem)
file_allow_write file fs =
    if file.deny_write
    then (on_inode inode_allow_write file fs >>= λ fs'.
        some (record file { deny_write = false }, fs'))
    else some (file, fs)

unfoldable pub file_close : (bounce : Bool) → Option File → FileSystem → Option FileSystem
unfolding file_allow_write
file_close bounce none fs = some fs
file_close bounce (some file) fs = do
  (file', fs') ← file_allow_write file fs
  inode_close bounce (some file'.inode) fs'

unfoldable pub file_read_at :
    (bounce : Bool) → File → FileSystem → (size file_ofs : ℕ) → Option (List ℕ)
file_read_at bounce file fs size file_ofs = do
  inode ← find_inode fs.open_inodes file.inode
  read_at bounce fs.dev inode.disk size file_ofs

unfoldable pub file_read : (bounce : Bool) → File → FileSystem → (size : ℕ) → Option (List ℕ × File)
file_read bounce file fs size = do
  inode ← find_inode fs.open_inodes file.inode
  bytes_read ← read_at bounce fs.dev inode.disk size file.pos
  some (bytes_read, record file { pos = file.pos + length bytes_read })

unfoldable pub file_write_at :
    (bounce : Bool) → File → FileSystem → List ℕ → (size file_ofs : ℕ) → Option (ℕ × FileSystem)
file_write_at bounce file fs buffer size file_ofs = do
  inode ← find_inode fs.open_inodes file.inode
  (bytes_written, dev') ← write_at bounce fs.dev inode buffer size file_ofs
  some (bytes_written, record fs { dev = dev' })

unfoldable pub file_write :
    (bounce : Bool) → File → FileSystem → List ℕ → (size : ℕ) → Option (ℕ × File × FileSystem)
file_write bounce file fs buffer size = do
  inode ← find_inode fs.open_inodes file.inode
  (bytes_written, dev') ← write_at bounce fs.dev inode buffer size file.pos
  some (bytes_written, record file { pos = file.pos + bytes_written }, record fs { dev = dev' })

unfoldable pub file_length : File → FileSystem → Option ℕ
file_length file fs = do
  inode ← find_inode fs.open_inodes file.inode
  some (inode_length inode.disk)

-- A position that is negative as an `off_t` fails the assertion.
unfoldable pub file_seek : File → ℕ → Option File
file_seek file new_pos = do assert (ltb new_pos (2 ^ 31)); some (record file { pos = new_pos })

abbrev pub file_tell : File → ℕ
file_tell file = file.pos
