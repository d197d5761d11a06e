-- ===== src/Examples/Programs.antt =====
-- A segment of a program, of 5000 bytes in the file and 9000 in memory.
use cs162hwproj.Prelude.{◌+◌, ◌-◌, ◌*◌, ◌%◌, ◌≤◌, refl, length, arith}
use cs162hwproj.Prelude.Returns.{Returns}
use cs162hwproj.Loader.{Phdr, validate_segment, load_segment, plan_of}
use cs162hwproj.Loader.Segments.{AreLaid, load_segment-AreLaid}

abbrev data_segment : Phdr
data_segment = record {
  p_type = 1;
  p_offset = 100;
  p_vaddr = 134512740;
  p_filesz = 5000;
  p_memsz = 9000;
  p_flags = 6;
}

load_segment-AreLaid_example :
    Returns
      (λ ps.
        AreLaid (134512740 - 134512740 % 4096) (134512740 % 4096 + 5000) ps
        × (134512740 + 9000 ≤ 134512740 - 134512740 % 4096 + 4096 * length ps))
      (load_segment (plan_of data_segment))
unfolding validate_segment
load_segment-AreLaid_example = load_segment-AreLaid data_segment 6000 (omega arith) refl
