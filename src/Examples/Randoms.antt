-- ===== src/Examples/Randoms.antt =====
-- random.c, before it is initialized, and the descriptors of malloc.c.
use cs162hwproj.Prelude.{false}
use cs162hwproj.Random.{State}

abbrev raw : State
raw = record { s = λ i. 0; s_i = 0; s_j = 0; inited = false }
