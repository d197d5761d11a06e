-- ===== src/Examples/Devices.antt =====
-- block.c on a device of eight sectors of zeros.
use cs162hwproj.Prelude.{ℕ, refl, arith, replicate, length-replicate}
use cs162hwproj.Device.{Block, filesys, sector_size, IsDevice}

abbrev pub zero_device : Block
zero_device = record { type = filesys; size = 8; sector = λ s. replicate sector_size 0 }

pub zero_device-IsDevice : IsDevice zero_device
zero_device-IsDevice = record {
  whole = λ s. length-replicate {A = ℕ} sector_size 0;
  small = omega arith;
  writable = refl;
}
