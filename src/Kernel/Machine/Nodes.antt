-- ===== src/Kernel/Machine/Nodes.antt =====
-- The memory of the nodes of h/list.hpp, on the kernel with its memory.
use os1_project.Prelude.{ℕ, ◌≡◌, ◌≢◌, refl, sym, ap, ◌∙◌, subst, inl, inr, true, false, some}
use mathlib.Core.Option.{some-injective}
use os1_project.Allocator
use os1_project.Allocator.{HeapBounds, MemoryAllocator, bytes_in_blocks}
use os1_project.Allocator.History.{set_live, IsOwned, IsHeap}
use os1_project.Allocator.History.Steps.{released-IsOwned}
use os1_project.Allocator.History.Grants.{mem_alloc-Served}
use os1_project.Kernel.{Ptr, null, update}
use os1_project.Kernel.Invariant.Blocking.{update_ne}
use os1_project.Kernel.Machine.{
  nobody, thread, unstarted, node, is_held, is_semaphore, Machine, IsMachine, memory, size_of_elem,
  NodeStep, new_elem, delete_elem,
}
use os1_project.Kernel.Machine.Holders.{
  updated-IsOwned, update_agrees, not_held, update-is, update_back, renewed-IsMachine,
}

-- What mem_alloc gave was held by nobody, and now is held.
granted-IsOwned :
    (heap : HeapBounds) (m : Machine) (n : ℕ) (a : MemoryAllocator) (p : Ptr)
    → IsMachine heap m
    → Allocator.mem_alloc heap m.kernel.allocator n ≡ some (a, p)
    → p ≢ null
    → (m.holder p ≡ nobody)
      × IsOwned heap (record { allocator = a; live = set_live (λ q. is_held (m.holder q)) p true })
granted-IsOwned heap m n a p v e z = elim (mem_alloc-Served heap (memory m) n v.owned) [
  | inl f ↦ absurd (z (ap (λ x. x.1) (some-injective _ _ (sym e ∙ f))))
  | inr (b, q, f, w, unheld, o) ↦
      let same = some-injective _ _ (sym f ∙ e) in
      subst
        (λ x.
          (m.holder x.1 ≡ nobody)
          × IsOwned heap
              (record { allocator = x.0; live = set_live (λ q. is_held (m.holder q)) x.1 true }))
        same (not_held (m.holder q) unheld, o)
]

-- A node that a list takes is memory that nobody held.
pub new_elem_fresh :
    (heap : HeapBounds) (m : Machine) (n : ℕ) (a : MemoryAllocator) (p : Ptr)
    → IsMachine heap m
    → Allocator.mem_alloc heap m.kernel.allocator n ≡ some (a, p)
    → p ≢ null
    → m.holder p ≡ nobody
new_elem_fresh heap m n a p v e z = (granted-IsOwned heap m n a p v e z).0

-- A list's node that comes or goes keeps the kernel and its memory in order.
pub NodeStep-IsMachine :
    (heap : HeapBounds) (m m' : Machine)
    → IsHeap heap
    → IsMachine heap m
    → NodeStep heap m m'
    → IsMachine heap m'
NodeStep-IsMachine heap m m' good v (new_elem {a = a} p e z) =
    let (unheld, o) = granted-IsOwned heap m (bytes_in_blocks size_of_elem) a p v e z in
    renewed-IsMachine heap m v (record m.kernel { allocator = a }) (update m.holder p node)
      (refl, refl, refl, refl) (updated-IsOwned heap a m.holder p node o)
      (λ t f. update-is m.holder p node thread t f (λ g. cc))
      (λ t f. update_back m.holder p node unstarted t f (λ g. cc))
      (update_agrees is_semaphore m.holder p node (ap is_semaphore (sym unheld)))
      (update_ne m.holder p node null (λ f. z (sym f)) ∙ v.null_free)
NodeStep-IsMachine heap m m' good v (delete_elem {a = a} {code = code} p held e) =
    let (b, f, o) = released-IsOwned heap (memory m) v.owned p (ap is_held held) good in
    let same = ap (λ x. x.0) (some-injective _ _ (sym f ∙ e)) in
    let o' =
      subst
        (λ x.
          IsOwned heap
            (record { allocator = x; live = set_live (λ q. is_held (m.holder q)) p false }))
        same o in
    renewed-IsMachine heap m v (record m.kernel { allocator = a }) (update m.holder p nobody)
      (refl, refl, refl, refl) (updated-IsOwned heap a m.holder p nobody o')
      (λ t g. update-is m.holder p nobody thread t g (λ h. cc))
      (λ t g. update_back m.holder p nobody unstarted t g (λ h. cc))
      (update_agrees is_semaphore m.holder p nobody (ap is_semaphore (sym held)))
      (update_ne m.holder p nobody null (λ g. cc (sym v.null_free ∙ ap m.holder g ∙ held))
        ∙ v.null_free)

pub NodeStep-running :
    (heap : HeapBounds) (m m' : Machine) → NodeStep heap m m' → m'.kernel.running ≡ m.kernel.running
NodeStep-running heap m m' (new_elem p e z) = refl
NodeStep-running heap m m' (delete_elem p held e) = refl
