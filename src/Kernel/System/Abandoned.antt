-- ===== src/Kernel/System/Abandoned.antt =====
-- A thread that waits on a semaphore in src/Sem.cpp, and the one that closes it.
use os1_project.Prelude.{suc, ◌≡◌, ◌≢◌, sym, ap, ◌∙◌, some, List, [], ◌∷◌, All, length}
use mathlib.Core.Option.{some-injective}
use os1_project.Prelude.Int.{ℤ}
use os1_project.Allocator.Release
use os1_project.Kernel.{Ptr, null, Sem, Kernel}
use os1_project.Kernel.Semaphore.{close, returns}
use os1_project.Kernel.Semaphore.Closing.{close-parts, left_kernel}
use os1_project.Kernel.Frame.{Threads}
use os1_project.Kernel.Frame.Calls.{close_loop-Confined}

-- Any thread at all.
abbrev IsAny : Ptr → Type 0
IsAny t = Unit

IsAny-All : (ts : List Ptr) → All IsAny ts
IsAny-All [] = tt
IsAny-All (t ∷ ts) = (tt, IsAny-All ts)

IsAny-Threads : (k : Kernel) → Threads IsAny k
IsAny-Threads k = record {
  running = tt;
  ready = IsAny-All k.ready_thread_queue;
  blocked = λ h s e. IsAny-All s.blocked_threads;
}

-- Sem::close itself leaves the allocator alone.
pub close-memory :
    (k : Kernel) (h : Ptr) (s : Sem) (k' : Kernel) (code : ℤ)
    → h ≢ null
    → k.sems h ≡ some s
    → close k h ≡ some (returns k' code)
    → k'.allocator ≡ k.allocator
close-memory k h s k' code n there e =
    let (k1, left, f, g) = close-parts k h s n there in
    let ts = s.blocked_threads in
    ap (λ x. (left_kernel k x).allocator) (some-injective _ _ (sym e ∙ g))
    ∙ (close_loop-Confined IsAny (suc (length ts)) k ts k1 left (IsAny-Threads k) (IsAny-All ts)
        f).0.allocator
