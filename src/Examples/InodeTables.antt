-- ===== src/Examples/InodeTables.antt =====
-- inode.c on a device of zeros with no open inode.
use cs162hwproj.Prelude.{◌≡◌, true, false, none, some, [], ◌∷◌, arith, ◌>>=◌}
use cs162hwproj.Inode.{InodeDisk}
use cs162hwproj.InodeTable.{FileSystem, find_inode, inode_open, inode_close, inode_magic}
use cs162hwproj.InodeTable.Disk.{inode_close-inode_open}
use cs162hwproj.Examples.Devices.{zero_device, zero_device-IsDevice}

abbrev none_open : FileSystem
none_open = record {
  dev = zero_device;
  free = record { map = record { bit_cnt = 8; bits = 7 ∷ [] }; file = none };
  open_inodes = [];
}

abbrev small_file : InodeDisk
small_file = record { start = 3; length = 70000; magic = inode_magic }

inode_close-inode_open_example :
    (inode_open true 4 none_open >>= λ (handle, fs). inode_close false handle fs) ≡ some none_open
unfolding find_inode
inode_close-inode_open_example =
    inode_close-inode_open false 4 none_open zero_device-IsDevice (omega arith) (λ i e. cc)
