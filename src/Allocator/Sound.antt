-- ===== src/Allocator/Sound.antt =====
-- The invariant of src/MemoryAllocator.cpp between calls.
use mathlib.Core.Path.{subst}
use os1_project.Prelude.{
  ◌⊎◌, inl, inr, Bool-cases, ◌||◌, ◌==◌, leb, arith, ℕ, ◌+◌, ◌^◌, ◌<◌, ◌≡◌, ◌++◌, List, ◌∷◌, Option,
  none, some,
}
use os1_project.Prelude.Int.{pos}
use os1_project.Allocator.{MemoryAllocator, HeapBounds, Ptr, null, mem_alloc, size_of_mem_elem}
use os1_project.Allocator.Blocks.{Block}
use os1_project.Allocator.Spec.{Store, IsValid, Fit, first_fit, allocated}
use os1_project.Allocator.Carve.{fits-le}
use os1_project.Allocator.Take.{IsFirstFit, FitResult, first_fit-FitResult}
use os1_project.Allocator.Represents.{Represents}
use os1_project.Allocator.FirstFit.{
  store, Allocation, IsStarted, heap_blocks, mem_alloc-Allocation, mem_alloc_unchanged,
}
use os1_project.Allocator.Release.{mem_free}
use os1_project.Allocator.Release.Coalesce.{coalesce, IsSeparated}
use os1_project.Allocator.Release.Refines.{beside, Apart-free, lower, upper, mem_free-coalesce}
use os1_project.Allocator.Release.Separated.{IsSeparated-remainder, coalesce-IsSeparated}

-- The headers stand for a valid store, no two of whose free blocks touch.
pub record IsSound (heap : HeapBounds) (a : MemoryAllocator) (s : Store) : Type 0 where
  pub valid : IsValid heap.heap_start_addr heap.heap_end_addr s
  pub represents : Represents a s
  pub separated : IsSeparated s.free

-- What mem_alloc comes to on a sound allocator: a refusal that changes nothing, or the address of
-- the first block that fits, with a sound allocator for the store of first fit.
abbrev pub Granted :
    HeapBounds → ℕ → MemoryAllocator → Store → Option (MemoryAllocator × Ptr) → Type 0
Granted heap n a s r =
    (r ≡ some (a, null))
    ⊎ ((f : Fit) × (b : MemoryAllocator) × (r ≡ some (b, f.found.addr + size_of_mem_elem))
        × IsFirstFit (n + 1) s.free f
        × IsSound heap b (allocated (n + 1) s f))

Allocation-Granted :
    (heap : HeapBounds) (n : ℕ) (a : MemoryAllocator) (s : Store)
    (r : Option (MemoryAllocator × Ptr)) (fit : Option Fit)
    → IsSound heap a s
    → FitResult (n + 1) s.free fit
    → Allocation heap.heap_start_addr heap.heap_end_addr (n + 1) s a r fit
    → Granted heap n a s r
Allocation-Granted heap n a s r none v h e = inl e
Allocation-Granted heap n a s r (some f) v h (b, e, rep, valid) = inr (
  f,
  b,
  e,
  h,
  record {
    valid = valid;
    represents = rep;
    separated =
        IsSeparated-remainder f.before (n + 1) f.found f.after (fits-le (n + 1) f.found h.enough)
          (subst IsSeparated h.whole v.separated);
  },
)

-- mem_alloc on a sound allocator with some block ends, whatever the request.
pub mem_alloc-Granted :
    (heap : HeapBounds) (a : MemoryAllocator) (s : Store) (n : ℕ)
    → IsSound heap a s
    → IsStarted s
    → Granted heap n a s (mem_alloc heap a n)
mem_alloc-Granted heap a s n v st = elim (Bool-cases (n == 0 || leb (heap_blocks heap) n)) [
  | inl out ↦ inl (mem_alloc_unchanged heap a s n v.valid v.represents st out)
  | inr within ↦
      Allocation-Granted heap n a s (mem_alloc heap a n) (first_fit (n + 1) s.free) v
        (first_fit-FitResult (n + 1) s.free)
        (mem_alloc-Allocation heap a s n v.valid v.represents st (ground arith) (ground arith))
]

-- mem_alloc of any request, on an allocator that manages some block, ends and keeps the invariant,
-- whether it finds a block or returns null.
pub mem_alloc-IsSound :
    (heap : HeapBounds) (a : MemoryAllocator) (s : Store) (n : ℕ)
    → IsSound heap a s
    → IsStarted s
    → (b : MemoryAllocator) × (p : Ptr) × (t : Store) × (mem_alloc heap a n ≡ some (b, p))
      × IsSound heap b t
mem_alloc-IsSound heap a s n v st = elim (mem_alloc-Granted heap a s n v st) [
  | inl e ↦ (a, null, s, e, v)
  | inr (f, b, e, _, v') ↦ (b, f.found.addr + size_of_mem_elem, allocated (n + 1) s f, e, v')
]

-- mem_free of an allocated block, in a heap below 2 ^ 64, returns 0 and keeps the invariant: the free
-- blocks are joined so far that no two touch.
pub mem_free-IsSound :
    (heap : HeapBounds) (a : MemoryAllocator) (us : List Block) (c : Block) (vs free : List Block)
    → heap.heap_end_addr < 2 ^ 64
    → IsSound heap a (store free (us ++ c ∷ vs))
    → (b : MemoryAllocator) × (mem_free heap a (c.addr + size_of_mem_elem) ≡ some (b, pos 0))
      × IsSound heap b (store (coalesce c free) (us ++ vs))
mem_free-IsSound heap a us c vs free wide v =
    let lo = heap.heap_start_addr in
    let hi = heap.heap_end_addr in
    let (b, e, rep, valid) = mem_free-coalesce heap a us c vs free wide v.valid v.represents in
    (
      b,
      e,
      record {
        valid = valid;
        represents = rep;
        separated =
            coalesce-IsSeparated c free lo hi v.valid.free_ordered
              (Apart-free lo hi us c vs free v.valid) (lower lo hi us c vs free v.valid)
              (beside lo hi us c vs free v.valid).roomy (upper lo hi us c vs free v.valid)
              v.separated;
      },
    )
