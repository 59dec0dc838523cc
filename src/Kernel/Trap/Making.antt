-- ===== src/Kernel/Trap/Making.antt =====
-- The cases of the handler that make an object, when operator new gets one, and when they are given
-- no place for its handle.
use os1_project.Prelude.{ℕ, ◌≡◌, ◌≢◌, refl, true, false, some, ◌==◌, ==_iff, ne→==, []}
use os1_project.Prelude.Int.{ℤ, pos, negsuc}
use os1_project.Allocator
use os1_project.Allocator.{HeapBounds, MemoryAllocator, bytes_in_blocks}
use os1_project.Kernel.{
  Ptr, null, Sem, Kernel, update, create_thread, create_thread_without_starting, new_tcb,
}
use os1_project.Allocator.Release
use os1_project.Kernel.Semaphore.{to_int, open_sem, close, returns}
use os1_project.Kernel.Trap.{Regs, finish_call, leave, save_a0}
use os1_project.Kernel.Trap.Handler.{
  operator_new, operator_delete, size_of_sem, size_of_tcb, sem_open_case, sem_close_case,
  thread_create_case, thread_create_without_start_case,
}

-- A semaphore as the constructor of Sem makes it.
abbrev pub new_sem : ℤ → Sem
new_sem init = record {
  value = init;
  deleted = false;
  mutex = pos 1;
  blocked_threads = [];
  mutex_blocked_threads = [];
}

module _ (heap : HeapBounds) (k : Kernel) where
  pub operator_new-got :
      (n : ℕ) (a : MemoryAllocator) (p : Ptr)
      → Allocator.mem_alloc heap k.allocator (bytes_in_blocks n) ≡ some (a, p)
      → operator_new heap k n ≡ some (record k { allocator = a }, p)
  unfolding operator_new
  operator_new-got n a p e = rw (e, operator_new) refl

  pub sem_open_case-made :
      (r : Regs) (k1 made : Kernel) (p : Ptr) (pc st : ℕ)
      → r.a1 ≢ null
      → operator_new heap k size_of_sem ≡ some (k1, p)
      → open_sem k1 p r.a1 (to_int r.a2) ≡ (made, pos 0)
      → made.words r.a1 ≢ null
      → sem_open_case heap k r pc st ≡ leave (save_a0 made (pos 0)) pc st
  unfolding sem_open_case
  sem_open_case-made r k1 made p pc st n got o w =
      rw (ne→== r.a1 null n, got, sem_open_case, o, ne→== (made.words r.a1) null w) refl

  pub thread_create_case-made :
      (r : Regs) (k1 made : Kernel) (p : Ptr) (pc st : ℕ)
      → r.a1 ≢ null
      → p ≢ null
      → operator_new heap k size_of_tcb ≡ some (k1, p)
      → new_tcb k1 p r.a2 r.a4 r.a3 false ≡ made
      → thread_create_case heap k r pc st
        ≡ leave (save_a0 (record made { words = update made.words r.a1 p }) (pos 0)) pc st
  unfolding thread_create_case create_thread
  thread_create_case-made r k1 made p pc st n z got put =
      rw (ne→== r.a1 null n, got, thread_create_case, put, ne→== p null z) refl

  pub thread_create_without_start_case-made :
      (r : Regs) (k1 made : Kernel) (p : Ptr) (pc st : ℕ)
      → r.a1 ≢ null
      → p ≢ null
      → operator_new heap k size_of_tcb ≡ some (k1, p)
      → new_tcb k1 p r.a2 r.a4 r.a3 true ≡ made
      → thread_create_without_start_case heap k r pc st
        ≡ leave (save_a0 (record made { words = update made.words r.a1 p }) (pos 0)) pc st
  unfolding thread_create_without_start_case create_thread_without_starting
  thread_create_without_start_case-made r k1 made p pc st n z got put =
      rw (ne→== r.a1 null n, got, thread_create_without_start_case, put, ne→== p null z) refl

  pub thread_create_case-refused :
      (r : Regs) (pc st : ℕ)
      → (r.a1 == null) ≡ true
      → thread_create_case heap k r pc st ≡ leave (save_a0 k (negsuc 1)) pc st
  unfolding thread_create_case
  thread_create_case-refused r pc st e = rw (e, thread_create_case) refl

  pub thread_create_without_start_case-refused :
      (r : Regs) (pc st : ℕ)
      → (r.a1 == null) ≡ true
      → thread_create_without_start_case heap k r pc st ≡ leave (save_a0 k (negsuc 1)) pc st
  unfolding thread_create_without_start_case
  thread_create_without_start_case-refused r pc st e = rw (e, thread_create_without_start_case) refl

  pub sem_open_case-refused :
      (r : Regs) (pc st : ℕ)
      → (r.a1 == null) ≡ true
      → sem_open_case heap k r pc st ≡ leave (save_a0 k (negsuc 1)) pc st
  unfolding sem_open_case
  sem_open_case-refused r pc st e = rw (e, sem_open_case) refl

  -- The cases that delete an object.
  pub sem_close_case-refused :
      (h : Ptr) (fuel pc st : ℕ)
      → (h == null) ≡ true
      → sem_close_case heap k h fuel pc st ≡ leave (save_a0 k (negsuc 0)) pc st
  unfolding sem_close_case close finish_call
  sem_close_case-refused h fuel pc st e = rw ((==_iff h null).0 e) refl

  pub sem_close_case-closed :
      (k' : Kernel) (a : MemoryAllocator) (h : Ptr) (code : ℤ) (fuel pc st : ℕ)
      → (h == null) ≡ false
      → close k h ≡ some (returns k' (pos 0))
      → Release.mem_free heap k'.allocator h ≡ some (a, code)
      → sem_close_case heap k h fuel pc st
        ≡ leave (save_a0 (record k' { allocator = a }) (pos 0)) pc st
  unfolding sem_close_case finish_call operator_delete
  sem_close_case-closed k' a h code fuel pc st n e f =
      rw (e, sem_close_case, n, f, operator_delete) refl

pub open_sem-got :
    (k : Kernel) (p h : Ptr) (init : ℤ)
    → p ≢ null
    → h ≢ null
    → open_sem k p h init ≡ (
      record k { sems = update k.sems p (some (new_sem init)); words = update k.words h p },
      pos 0,
    )
unfolding open_sem
open_sem-got k p h init z n = rw (ne→== p null z, ne→== h null n) refl
