-- ===== src/File/Position.antt =====
-- Reading a file of file.c in pieces.
use cs162hwproj.Prelude.{ℕ, ◌+◌, ◌-◌, ◌≡◌, refl, true, some, ◌++◌, arith, min, ◌>>=◌}
use cs162hwproj.Inode.{Inode, inode_length}
use cs162hwproj.Inode.Bytes.{bytes, length-bytes, bytes-append, IsMapped}
use cs162hwproj.Inode.Read.{read_at-bytes}
use cs162hwproj.InodeTable.{FileSystem, find_inode}
use cs162hwproj.File.{File, file_read}

module _ (file : File) (fs : FileSystem) {inode : Inode}
    (opened : find_inode fs.open_inodes file.inode ≡ some inode)
    (m : IsMapped fs.dev inode.disk) where
  file_read-bytes :
      (size : ℕ)
      → file_read true file fs size
        ≡ some (
          bytes fs.dev inode.disk file.pos (min size (inode_length inode.disk - file.pos)),
          record file { pos = file.pos + min size (inode_length inode.disk - file.pos) },
        )
  unfolding file_read
  file_read-bytes size =
      rw (opened, read_at-bytes m size file.pos, length-bytes fs.dev inode.disk file.pos) refl

-- Two calls of `file_read`, on a file whose inode is open and has its sectors on the device and with
-- memory for the bounce buffer, return together what one call for the sum of their sizes returns, and
-- leave the file at the same position.
pub file_read-append :
    (file : File) (fs : FileSystem) {inode : Inode} (a b : ℕ)
    → find_inode fs.open_inodes file.inode ≡ some inode
    → IsMapped fs.dev inode.disk
    → (file_read true file fs a >>= λ (first, file').
        file_read true file' fs b >>= λ (second, file₂). some (first ++ second, file₂))
      ≡ file_read true file fs (a + b)
file_read-append file fs {inode} a b opened m =
    let n = inode_length inode.disk in
    let c = min a (n - file.pos) in
    let sum : c + min b (n - (file.pos + c)) ≡ min (a + b) (n - file.pos) = omega arith in
    let at : file.pos + c + min b (n - (file.pos + c)) ≡ file.pos + min (a + b) (n - file.pos) =
      omega arith in
    rw
      (
        file_read-bytes file fs opened m a,
        file_read-bytes (record file { pos = file.pos + c }) fs opened m b,
        file_read-bytes file fs opened m (a + b),
        bytes-append fs.dev inode.disk file.pos,
        sum,
        at,
      )
      refl
