-- ===== src/Kernel/Machine/Semaphores.antt =====
-- SEM_OPEN and SEM_CLOSE, on the kernel with its memory.
use os1_project.Prelude.{
  ℕ, suc, ◌≡◌, ◌≢◌, refl, sym, ap, ◌∙◌, subst, inl, inr, true, Option, none, some, [], All, length,
  ◌==◌, ne→==, Bool-cases, Option-cases,
}
use mathlib.Core.Option.{some-injective}
use os1_project.Prelude.Int.{ℤ, pos, neg_part}
use os1_project.Allocator.{HeapBounds, MemoryAllocator}
use os1_project.Allocator.Release
use os1_project.Allocator.History.{set_live, IsOwned, IsHeap}
use os1_project.Allocator.History.Steps.{released-IsOwned}
use os1_project.Kernel.{Ptr, null, Sem, Kernel, update}
use os1_project.Kernel.Semaphore.{returns, to_int, close}
use os1_project.Kernel.Semaphore.Closing.{close-parts, left_kernel}
use os1_project.Kernel.Trap.{Run, leave, save_a0}
use os1_project.Kernel.Trap.Handler.{sem_open_case, sem_close_case, size_of_sem}
use os1_project.Kernel.Trap.Making.{
  new_sem, open_sem-got, operator_new-got, sem_open_case-made, sem_open_case-refused,
  sem_close_case-closed, sem_close_case-refused,
}
use os1_project.Kernel.Interface.{sem_open, sem_close, regs}
use os1_project.Kernel.Invariant.{IsKernel, SameThreads-IsKernel}
use os1_project.Kernel.Invariant.Blocking.{update_self, update_ne, updated_sem}
use os1_project.Kernel.Invariant.Waking.{close-IsKernel}
use os1_project.Kernel.Invariant.Objects.{open_sem-IsKernel}
use os1_project.Kernel.Frame.{is_some, Confined, Confined-refl}
use os1_project.Kernel.Frame.Calls.{differs, close_loop-Confined}
use os1_project.Kernel.Machine.{
  Holder, nobody, thread, unstarted, semaphore, is_held, is_semaphore, Machine, HasRoom, IsOpen,
  IsMachine, memory, Continues,
}
use os1_project.Kernel.Machine.Holders.{updated-IsOwned, update-is, update_back, Threads_map}
use os1_project.Kernel.Machine.Memory.{kept-IsMachine}
use os1_project.Kernel.Machine.Objects.{object_room}
use os1_project.Kernel.Machine.Creation.{refused-IsMachine, answered-IsMachine}

-- A semaphore comes or goes on both sides.
updated_sems :
    (sems : Ptr → Option Sem) (holder : Ptr → Holder) (p : Ptr) (x : Option Sem) (y : Holder)
    → is_some x ≡ is_semaphore y
    → ((h : Ptr) → is_some (sems h) ≡ is_semaphore (holder h))
    → (h : Ptr) → is_some (update sems p x h) ≡ is_semaphore (update holder p y h)
unfolding update
updated_sems sems holder p x y e f h = elim (Bool-cases (h == p)) [
  | inl s ↦ rw s e
  | inr s ↦ rw s (f h)
]

module _ (heap : HeapBounds) (m : Machine) (v : IsMachine heap m) where
  abbrev IsThread : Ptr → Type 0
  IsThread t = m.holder t ≡ thread

  -- A semaphore that blocks nobody, or none, takes its place at `p`.
  replaced-IsMachine :
      (on : Ptr → Ptr) (k0 : Kernel) (a : MemoryAllocator) (p : Ptr) (x : Option Sem) (y : Holder)
      → Confined IsThread m.kernel k0
      → IsKernel on (record k0 { allocator = a; sems = update k0.sems p x })
      → IsOwned heap
          (record { allocator = a; live = set_live (λ q. is_held (m.holder q)) p (is_held y) })
      → is_some x ≡ is_semaphore y
      → ((s : Sem) → x ≡ some s → s.blocked_threads ≡ [])
      → p ≢ null
      → m.holder p ≢ thread
      → y ≢ unstarted
      → IsMachine heap (record {
        kernel = record k0 { allocator = a; sems = update k0.sems p x };
        holder = update m.holder p y;
      })
  replaced-IsMachine on k0 a p x y c w o both empty n other fresh =
      let Q : Ptr → Type 0 = λ t. update m.holder p y t ≡ thread in
      let threads =
        Threads_map IsThread Q k0 (λ t e. update-is m.holder p y thread t e other) c.threads in
      record {
        on = on;
        kernel = w;
        owned = updated-IsOwned heap a m.holder p y o;
        threads = record {
          running = threads.running;
          ready = threads.ready;
          blocked = λ h s e.
              updated_sem (λ q s. All Q s.blocked_threads) k0.sems p h x s (λ f. rw (empty s f) tt)
                (λ d f. threads.blocked h s f) e;
        };
        startable = λ t e.
            let before = update_back m.holder p y unstarted t e fresh in
            let s = v.startable t before in
            let same = c.others t (λ u f g. cc) in
            record { runnable = rw same s.runnable; place = rw same s.place };
        semaphores = updated_sems k0.sems m.holder p x y both (λ h. c.same_sems h ∙ v.semaphores h);
        null_free = update_ne m.holder p y null (λ z. n (sym z)) ∙ v.null_free;
      }

  opened-IsMachine :
      (b : MemoryAllocator) (p h : Ptr) (init : ℤ)
      → p ≢ null
      → h ≢ null
      → m.holder p ≡ nobody
      → neg_part init ≡ 0
      → IsOwned heap (record { allocator = b; live = set_live (λ q. is_held (m.holder q)) p true })
      → IsMachine heap (record {
        kernel = record m.kernel {
          allocator = b;
          sems = update m.kernel.sems p (some (new_sem init));
        };
        holder = update m.holder p semaphore;
      })
  opened-IsMachine b p h init n z unheld down o =
      let k1 = record m.kernel { allocator = b } in
      let w1 = SameThreads-IsKernel v.on m.kernel k1 (refl, refl, refl, refl) v.kernel in
      let w =
        subst (λ x. IsKernel v.on x.0) (open_sem-got k1 p h init n z)
          (open_sem-IsKernel v.on k1 p h init w1 down) in
      replaced-IsMachine v.on m.kernel b p (some (new_sem init)) semaphore
        (Confined-refl IsThread m.kernel v.threads)
        (SameThreads-IsKernel v.on _ _ (refl, refl, refl, refl) w) o refl
        (λ s e. ap (λ s. s.blocked_threads) (sym (some-injective _ _ e))) n (λ f. cc) (λ f. cc)

  pub sem_open_case-Continues :
      (h init pc st : ℕ)
      → neg_part (to_int init) ≡ 0
      → HasRoom heap m.kernel size_of_sem
      → Continues heap m
          (sem_open h init)
          (sem_open_case heap m.kernel (regs 0x21 h init 0 0) pc st)
  unfolding leave save_a0
  sem_open_case-Continues h init pc st down room =
      let r = regs 0x21 h init 0 0 in
      let Goal : Run → Type 0 = λ x. Continues heap m (sem_open h init) x in
      elim (Bool-cases (h == null)) [
        | inl e ↦
            subst Goal (sym (sem_open_case-refused heap m.kernel r pc st e))
              (rw e (refused-IsMachine heap m v pc st))
        | inr e ↦
            let (b, p, f, n, unheld, o) = object_room heap m v size_of_sem room in
            let z = differs h null e in
            let k1 = record m.kernel { allocator = b } in
            let w = opened-IsMachine b p h (to_int init) n z unheld down o in
            let at = update_self m.kernel.words h p in
            subst Goal
              (sym (
                sem_open_case-made heap m.kernel r k1 _ p pc st z
                  (operator_new-got heap m.kernel size_of_sem b p f)
                  (open_sem-got k1 p h (to_int init) n z) (λ g. n (sym at ∙ g))))
              (rw e (answered-IsMachine heap m v _ h p semaphore (pos 0) pc st w))
      ]

  -- An open semaphore is there.
  pub semaphore-there : (h : Ptr) → m.holder h ≡ semaphore → (s : Sem) × (m.kernel.sems h ≡ some s)
  semaphore-there h held = elim (Option-cases (m.kernel.sems h)) [
    | inl gone ↦ absurd (cc (sym (ap is_some gone) ∙ v.semaphores h ∙ ap is_semaphore held))
    | inr there ↦ there
  ]

  closed-IsKernel :
      (h : Ptr) (s : Sem) (k' : Kernel)
      → h ≢ null
      → m.kernel.sems h ≡ some s
      → close m.kernel h ≡ some (returns k' (pos 0))
      → IsKernel v.on k'
  closed-IsKernel h s k' n there e =
      let (k2, f, w) = close-IsKernel v.on h m.kernel s v.kernel n there in
      subst (IsKernel v.on) (ap (left_kernel k2) (some-injective _ _ (sym f ∙ e))) w

  pub sem_close_case-Continues :
      (h fuel pc st : ℕ)
      → IsHeap heap
      → IsOpen m h
      → Continues heap m (sem_close h) (sem_close_case heap m.kernel h fuel pc st)
  unfolding leave save_a0
  sem_close_case-Continues h fuel pc st good (inl z) =
      let e = ap (λ x. x == null) z in
      subst (λ x. Continues heap m (sem_close h) x)
        (sym (sem_close_case-refused heap m.kernel h fuel pc st e))
        (rw e (kept-IsMachine heap m v _ (refl, refl, refl, refl) refl))
  sem_close_case-Continues h fuel pc st good (inr (n, held)) =
      let e = ne→== h null n in
      let (s, there) = semaphore-there h held in
      let (k1, left, loop, f) = close-parts m.kernel h s n there in
      let (c, sems) =
        close_loop-Confined IsThread (suc (length s.blocked_threads)) m.kernel s.blocked_threads k1
          left v.threads (v.threads.blocked h s there) loop in
      let k' = record k1 { sems = update k1.sems h none } in
      let (b, g, o) = released-IsOwned heap (memory m) v.owned h (ap is_held held) good in
      let w =
        replaced-IsMachine v.on k1 b h none nobody c
          (SameThreads-IsKernel v.on k' _ (refl, refl, refl, refl)
            (closed-IsKernel h s k' n there f))
          o refl (λ s f. cc) n (λ f. cc (sym held ∙ f)) (λ f. cc) in
      subst (λ x. Continues heap m (sem_close h) x)
        (sym (
          sem_close_case-closed heap m.kernel k' b h (pos 0) fuel pc st e f
            (ap (λ a. Release.mem_free heap a h) c.allocator ∙ g)))
        (rw e (kept-IsMachine heap _ w _ (refl, refl, refl, refl) refl))
