-- ===== src/Examples/RwLocks.antt =====
-- A readers-writers lock that thread 0 has as a reader while thread 1 waits as a writer; then thread 0
-- releases it and thread 1 comes back.
use cs162hwproj.Prelude.{◌≡◌, refl, true, false}
use cs162hwproj.Synch.{Tid}
use cs162hwproj.Synch.RwLock.{
  rw_lock_init, acquire_round, leave_wait, rw_lock_release, System, try_round, release, rw_start,
  begin_acquire, resume_acquire, rw_release, Reach, here, next,
}
use cs162hwproj.Synch.RwLock.Safety.{IsCounted, Reach-IsCounted, rw-exclusive}

abbrev reading : System
reading = try_round true 0 rw_start.rw rw_start.phase

abbrev queued : System
queued = try_round false 1 reading.rw reading.phase

abbrev released : System
released = release true 0 queued

abbrev writing : System
writing = try_round false 1 (leave_wait false released.rw) released.phase

run : Reach rw_start writing
unfolding rw_start rw_lock_init acquire_round try_round rw_lock_release release leave_wait
run =
    next
      (next (next (next here (begin_acquire true 0 refl)) (begin_acquire false 1 refl))
        (rw_release true 0 refl))
      (resume_acquire false 1 refl)

abbrev writer : Tid
writer = 1

Reach-IsCounted_example : IsCounted writing.rw writing.phase
Reach-IsCounted_example = Reach-IsCounted run

rw-exclusive_example : writer ≡ writer
unfolding rw_start rw_lock_init acquire_round try_round rw_lock_release release leave_wait
rw-exclusive_example = rw-exclusive run writer writer false refl refl
