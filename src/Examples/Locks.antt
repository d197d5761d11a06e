-- ===== src/Examples/Locks.antt =====
-- A lock that thread 0 holds while thread 1 is blocked.
use cs162hwproj.Prelude.{◌≡◌, refl, true, some, ◌⊎◌}
use cs162hwproj.Synch.{Tid}
use cs162hwproj.Synch.Lock.{
  trying, holding, System, goes, lock_init, acquire_down, lock_acquire, sema_down, set_holder,
  Reach, here, next,
}
use cs162hwproj.Synch.LockSafety.{inside, lock-exclusive, lock-awake}

abbrev begin : Tid → System → System
begin t s = record s { phase = goes s.phase t trying }

abbrev hold : Tid → System → System
hold t s = record s { holder = some t; phase = goes s.phase t holding }

abbrev contended : System
contended = acquire_down 1 (begin 1 (hold 0 (acquire_down 0 (begin 0 lock_init))))

run : Reach lock_init contended
unfolding lock_init acquire_down
run =
    next
      (next
        (next (next (next here (lock_acquire 0 refl refl)) (sema_down 0 refl)) (set_holder 0 refl))
        (lock_acquire 1 refl refl))
      (sema_down 1 refl)

abbrev owner : Tid
owner = 0

lock-exclusive_example : owner ≡ owner
unfolding lock_init acquire_down
lock-exclusive_example = lock-exclusive run owner owner refl refl

lock-awake_example :
    (u : Tid) × ((contended.phase u ≡ trying) ⊎ (inside (contended.phase u) ≡ true))
unfolding lock_init acquire_down
lock-awake_example = lock-awake run 1 refl
