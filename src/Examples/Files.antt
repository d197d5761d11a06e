-- ===== src/Examples/Files.antt =====
-- file.c on a device of zeros with one open inode.
use cs162hwproj.Prelude.{false, none, [], ◌∷◌, arith}
use cs162hwproj.Inode.{Inode}
use cs162hwproj.Inode.Bytes.{IsMapped}
use cs162hwproj.InodeTable.{FileSystem, inode_magic}
use cs162hwproj.File.{File}
use cs162hwproj.Examples.Devices.{zero_device, zero_device-IsDevice}

abbrev opened_inode : Inode
opened_inode = record {
  sector = 4;
  open_cnt = 1;
  removed = false;
  deny_write_cnt = 0;
  disk = record { start = 5; length = 600; magic = inode_magic };
}

abbrev one_open : FileSystem
one_open = record {
  dev = zero_device;
  free = record { map = record { bit_cnt = 8; bits = 127 ∷ [] }; file = none };
  open_inodes = opened_inode ∷ [];
}

abbrev at_500 : File
at_500 = record { inode = 4; pos = 500; deny_write = false }

opened_inode-IsMapped : IsMapped zero_device opened_inode.disk
opened_inode-IsMapped = record { device = zero_device-IsDevice; fits = omega arith }
