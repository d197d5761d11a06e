-- ===== src/Examples/Inodes.antt =====
-- inode.c on a file of two sectors.
use cs162hwproj.Prelude.{◌-◌, ◌≡◌, refl, true, false, some, [], ◌∷◌, arith, min}
use cs162hwproj.Prelude.Returns.{Returns}
use cs162hwproj.Inode.{InodeDisk, Inode, inode_length, read_at, write_at}
use cs162hwproj.Inode.Bytes.{bytes, IsMapped}
use cs162hwproj.Inode.Read.{read_at-bytes}
use cs162hwproj.Inode.Write.{Wrote, write_at-Written}
use cs162hwproj.Examples.Devices.{zero_device, zero_device-IsDevice}

abbrev two_sectors : InodeDisk
two_sectors = record { start = 2; length = 1000; magic = 1229867844 }

abbrev open_file : Inode
open_file = record {
  sector = 1;
  open_cnt = 1;
  removed = false;
  deny_write_cnt = 0;
  disk = two_sectors;
}

two_sectors-IsMapped : IsMapped zero_device two_sectors
two_sectors-IsMapped = record { device = zero_device-IsDevice; fits = omega arith }

read_at-bytes_example :
    read_at true zero_device two_sectors 600 505
    ≡ some (bytes zero_device two_sectors 505 (min 600 (inode_length two_sectors - 505)))
read_at-bytes_example = read_at-bytes two_sectors-IsMapped 600 505

write_at-Written_example :
    Returns
      (Wrote zero_device two_sectors 510
        (min 4 (inode_length two_sectors - 510))
        0
        (1 ∷ 2 ∷ 3 ∷ 4 ∷ []))
      (write_at true zero_device open_file (1 ∷ 2 ∷ 3 ∷ 4 ∷ []) 4 510)
write_at-Written_example =
    write_at-Written open_file (1 ∷ 2 ∷ 3 ∷ 4 ∷ []) 4 510 two_sectors-IsMapped (omega arith) refl
