-- ===== src/Examples/Intqs.antt =====
-- intq.c on a queue that holds two bytes, round the end of the buffer.
use cs162hwproj.Prelude.{ℕ, ◌≡◌, refl, true, none, some, arith, replicate, length-replicate}
use cs162hwproj.Prelude.Returns.{Returns}
use cs162hwproj.Intq.{Intq, finished, intq_getc}
use cs162hwproj.Intq.Fifo.{IsValid, Got, intq_getc-Got}

abbrev two_bytes : Intq
two_bytes = record {
  not_full = none;
  not_empty = some 7;
  buf = replicate 64 5;
  head = 1;
  tail = 63;
}

two_bytes-IsValid : IsValid two_bytes
two_bytes-IsValid = record {
  room = length-replicate {A = ℕ} 64 5;
  head_small = omega arith;
  tail_small = omega arith;
}

takes_byte :
    intq_getc true 3 two_bytes
    ≡ some (
      record { not_full = none; not_empty = some 7; buf = replicate 64 5; head = 1; tail = 0 },
      finished 5 none,
    )
unfolding intq_getc
takes_byte = refl

intq_getc-Got_example : Returns (Got two_bytes 3) (intq_getc true 3 two_bytes)
intq_getc-Got_example = intq_getc-Got two_bytes-IsValid true 3 (λ h e. cc)
