-- ===== src/Examples/FreeMaps.antt =====
-- free-map.c on a device of eight sectors whose map is a file in sector 2; sectors 0 to 2 are in use.
use cs162hwproj.Prelude.{◌≡◌, refl, true, false, some, [], ◌∷◌, arith}
use cs162hwproj.Prelude.Returns.{Returns}
use cs162hwproj.Bitmap.Bit.{IsValid}
use cs162hwproj.Bitmap.Scan.{Group}
use cs162hwproj.Inode.{Inode}
use cs162hwproj.Inode.Bytes.{IsMapped}
use cs162hwproj.FreeMap.{FreeMap, free_map_allocate}
use cs162hwproj.FreeMap.Sectors.{Allocated, free_map_allocate-Allocated}
use cs162hwproj.Examples.Devices.{zero_device, zero_device-IsDevice}

abbrev map_inode : Inode
map_inode = record {
  sector = 0;
  open_cnt = 1;
  removed = false;
  deny_write_cnt = 0;
  disk = record { start = 2; length = 4; magic = 1229867844 };
}

abbrev three_used : FreeMap
three_used = record { map = record { bit_cnt = 8; bits = 7 ∷ [] }; file = some map_inode }

three_used-IsValid : IsValid three_used.map
three_used-IsValid = record { room = omega arith; small = omega arith }

map_inode-IsMapped : IsMapped zero_device map_inode.disk
map_inode-IsMapped = record { device = zero_device-IsDevice; fits = omega arith }

free_map_allocate-Allocated_example :
    Returns (Allocated zero_device three_used 2) (free_map_allocate true zero_device three_used 2)
free_map_allocate-Allocated_example =
    free_map_allocate-Allocated zero_device three_used 2 three_used-IsValid map_inode-IsMapped

second_used : Group three_used.map 1 true 2
second_used = record {
  inside = omega arith;
  equal = λ j p q. let e : j ≡ 2 = omega arith in rw e refl;
}
