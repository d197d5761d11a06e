-- ===== src/Examples/Divisions.antt =====
-- arithmetic.c on numbers of more than 32 bits.
use cs162hwproj.Prelude.{◌/◌, ◌%◌, ◌≡◌, ◌≢◌, refl, some, arith}
use cs162hwproj.Arithmetic.{divl, nlz, udiv64, umod64}
use cs162hwproj.Arithmetic.Unsigned.{udiv64-div, umod64_wrong}

divides : udiv64 1000000000000000000 7000000000 ≡ some 142857142
unfolding udiv64 nlz divl
divides = refl

udiv64-div_example : udiv64 1000000000000000000 7000000000 ≡ some (1000000000000000000 / 7000000000)
udiv64-div_example =
    udiv64-div 1000000000000000000 7000000000 (omega arith) (omega arith) (omega arith)

umod64_wrong_example : umod64 5000000000 7000000000 ≢ some (5000000000 % 7000000000)
umod64_wrong_example = umod64_wrong 5000000000 7000000000 (omega arith) (omega arith) (omega arith)
