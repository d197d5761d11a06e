-- ===== src/Examples/Directories.antt =====
-- A directory with two free entries, on a device of zeros.
use cs162hwproj.Prelude.{refl, true, false, none, [], ◌∷◌, arith, replicate, if◌then◌else◌}
use cs162hwproj.Prelude.Returns.{Returns}
use cs162hwproj.Inode.{Inode}
use cs162hwproj.Inode.Bytes.{IsMapped}
use cs162hwproj.InodeTable.{FileSystem, find_inode, inode_magic}
use cs162hwproj.Directory.{Dir, dir_add}
use cs162hwproj.Directory.Add.{Entered, dir_add-Entered, IsFound, is_looked_up, lookup-dir_add}
use cs162hwproj.Examples.Devices.{zero_device, zero_device-IsDevice}

abbrev root_inode : Inode
root_inode = record {
  sector = 1;
  open_cnt = 1;
  removed = false;
  deny_write_cnt = 0;
  disk = record { start = 5; length = 40; magic = inode_magic };
}

abbrev root_open : FileSystem
root_open = record {
  dev = zero_device;
  free = record { map = record { bit_cnt = 8; bits = 63 ∷ [] }; file = none };
  open_inodes = root_inode ∷ [];
}

abbrev root : Dir
root = record { inode = 1; pos = 0 }

root_inode-IsMapped : IsMapped zero_device root_inode.disk
root_inode-IsMapped = record { device = zero_device-IsDevice; fits = omega arith }

dir_add-Entered_example :
    Returns
      (Entered root_open root_inode.disk 2 (97 ∷ []) 9)
      (dir_add true (replicate 20 7) root (97 ∷ []) 9 root_open)
unfolding find_inode
dir_add-Entered_example =
    dir_add-Entered root (97 ∷ []) 9 root_open 2 (replicate 20 7) refl root_inode-IsMapped refl refl
      (omega arith) refl

lookup-dir_add_example :
    Returns
      (λ (added, found). if added then IsFound 9 found else Unit)
      (is_looked_up true (replicate 20 7) root (97 ∷ []) 9 root_open)
unfolding find_inode
lookup-dir_add_example =
    lookup-dir_add root (97 ∷ []) 9 root_open 2 (replicate 20 7) refl root_inode-IsMapped refl refl
      (omega arith) refl
