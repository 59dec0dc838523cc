-- ===== src/Kernel/Boot/Tests.antt =====
-- main of src/main.cpp on a heap of 1024 blocks.
use os1_project.Prelude.{◌≡◌, refl, some, none, arith, [], ◌∷◌}
use os1_project.Prelude.Int.{pos}
use os1_project.Kernel.{Kernel, Ptr}
use os1_project.Kernel.Tests.{two_threads}
use os1_project.Kernel.Interface.Tests.{large_heap}
use os1_project.Kernel.Boot.{Program, boot, start_main, shut_down}
use os1_project.Kernel.Boot.Main.{IsUnrun}
use os1_project.Kernel.Boot.Start.{Booted, boot-Booted, start_main-IsUnrun}

abbrev pub program : Program
program = record {
  main_thread_at = 70000;
  user_thread_at = 70008;
  sem_at = 70016;
  user_main_wrapper = 8;
}

-- The machine before main, with no thread.
abbrev pub switched_on : Kernel
switched_on = record two_threads { running = 0; ready_thread_queue = []; sems = λ h. none }

start_main-IsUnrun_example :
    (k' : Kernel) × (t : Ptr) × (start_main large_heap program switched_on ≡ shut_down k')
    × (k'.running ≡ 88)
    × (k'.ready_thread_queue ≡ t ∷ [])
    × IsUnrun k' t 8 70016
start_main-IsUnrun_example =
    start_main-IsUnrun large_heap program switched_on (omega arith) (omega arith) refl (omega arith)
      (omega arith) (omega arith) (omega arith)

boot-Booted_example :
    (k' : Kernel) × (boot large_heap program switched_on ≡ some (k', pos 0))
    × Booted large_heap switched_on k'
boot-Booted_example =
    boot-Booted large_heap program switched_on (omega arith) (omega arith) refl (omega arith)
