-- ===== src/Shell/Groups.antt =====
-- The process groups and the descriptors of the children that hw-shell/shell.c starts.
use cs162hwproj.Prelude.{ℕ, ◌+◌, ◌<◌, ◌≡◌, refl, false, some, List, [], ◌∷◌, arith, ◌==◌}
use cs162hwproj.Shell.{CommandTask}
use cs162hwproj.Shell.Launch.{Host, launch_loop, launch, create_process_and_exec}

-- Every task has a pid, and the child with it enters the group.
abbrev pub InGroup : ℕ → List CommandTask → Type 0
InGroup group [] = Unit
InGroup group (t ∷ ts) =
    ((pid : ℕ) × (t.pid ≡ some pid) × ((create_process_and_exec pid t).group ≡ group))
    × InGroup group ts

module _ (h : Host) (pid : ℕ → ℕ) (forks : (i : ℕ) → h.fork i ≡ some (pid i))
    (positive : 0 < pid 0) where
  launch_loop-InGroup :
      (i : ℕ) (ts : List CommandTask) → InGroup (pid 0) (launch_loop h i (h.fork 0) ts)
  unfolding launch_loop create_process_and_exec
  launch_loop-InGroup i [] = tt
  launch_loop-InGroup i (t ∷ ts) =
      let p : (pid 0 == 0) ≡ false = ground arith in
      ((pid i, forks i, rw (forks 0) (rw p refl)), launch_loop-InGroup (i + 1) ts)

  -- If `fork` succeeds each time, all children of a line enter the group of the first one.
  pub launch-InGroup : (ts : List CommandTask) → InGroup (pid 0) (launch h ts)
  unfolding launch create_process_and_exec
  launch-InGroup [] = tt
  launch-InGroup (t ∷ ts) = ((pid 0, forks 0, refl), launch_loop-InGroup 1 ts)
