-- ===== src/Allocator/History.antt =====
-- Every history of calls of mem_alloc and mem_free in src/MemoryAllocator.cpp, by callers that free
-- only what they hold.
pub mod Steps
pub mod Grants
use os1_project.Prelude.{
  ℕ, ◌-◌, All, All-right, ◌+◌, ◌^◌, ◌≤◌, ◌<◌, ◌≡◌, ◌≢◌, refl, ap, sym, ◌∙◌, subst, ◌⊎◌, inl, inr,
  Bool, true, false, List, [], ◌∷◌, ◌++◌, Option, none, some, arith, length, length-append, ◌==◌,
  ==_self, ==_iff, ne→==, if◌then◌else◌, Bool-cases, leb, ◌&&◌, ◌||◌,
}
use os1_project.Prelude.Int.{ℤ, pos}
use mathlib.Core.Option.{some-injective}
use os1_project.Allocator.{
  MemoryAllocator, HeapBounds, Ptr, null, mem_alloc, init_free_mem, write, size_of_mem_elem,
}
use os1_project.Allocator.Blocks.{Block, block, Ordered, Avoids}
use os1_project.Allocator.Spec.{
  Store, IsValid, Fit, first_fit, allocated, used, insert, below, from, below-append-from,
}
use os1_project.Allocator.Represents.{Represents}
use os1_project.Allocator.FirstFit.{store, Allocation, IsStarted}
use os1_project.Allocator.Valid.{Around-parts, distinct}
use os1_project.Allocator.Take.{IsFirstFit}
use os1_project.Allocator.Sound.{IsSound, mem_free-IsSound, Granted, mem_alloc-Granted}
use os1_project.Allocator.Live.{
  payload, holds, holds-middle, holds-Avoids, Found, holds-Found, Around-Avoids,
}
use os1_project.Allocator.Release.{mem_free}
use os1_project.Allocator.Release.Coalesce.{coalesce}
use os1_project.Allocator.Release.Bytes.{total, total-coalesce}

-- The allocator, and the addresses that its callers hold.
pub record Client : Type 0 where
  pub allocator : MemoryAllocator
  pub live : Ptr → Bool

unfoldable pub set_live : (Ptr → Bool) → Ptr → Bool → Ptr → Bool
set_live live p b q = if q == p then b else live q

-- One call: a request that is granted, one that is refused, or a release of a held address.
pub data Step (heap : HeapBounds) (c : Client) : Client → Type 0 where
  allocate :
      (n : ℕ) (p : Ptr) {b : MemoryAllocator}
      → mem_alloc heap c.allocator n ≡ some (b, p)
      → p ≢ null
      → Step heap c (record { allocator = b; live = set_live c.live p true })
  refuse :
      (n : ℕ) {b : MemoryAllocator}
      → mem_alloc heap c.allocator n ≡ some (b, null)
      → Step heap c (record { allocator = b; live = c.live })
  release :
      (p : Ptr) (code : ℤ) {b : MemoryAllocator}
      → c.live p ≡ true
      → mem_free heap c.allocator p ≡ some (b, code)
      → Step heap c (record { allocator = b; live = set_live c.live p false })

abbrev pub initial : HeapBounds → MemoryAllocator → Client
initial heap a = record { allocator = init_free_mem heap a; live = λ p. false }

-- What the calls come to, from initFreeMem with an empty full list on.
pub data Reach (heap : HeapBounds) : Client → Type 0 where
  start : (a : MemoryAllocator) → a.full_head ≡ null → Reach heap (initial heap a)
  later : {c d : Client} → Reach heap c → Step heap c d → Reach heap d

-- The allocator is sound, and what is held is exactly the full blocks' addresses.
pub record IsOwned (heap : HeapBounds) (c : Client) : Type 0 where
  pub blocks : Store
  pub sound : IsSound heap c.allocator blocks
  pub started : IsStarted blocks
  pub held : (p : Ptr) → c.live p ≡ holds p blocks.full

-- The heap that the hardware gives: above null, with room for a header, and below 2 ^ 64.
pub record IsHeap (heap : HeapBounds) : Type 0 where
  pub positive : 0 < heap.heap_start_addr
  pub roomy : heap.heap_start_addr + size_of_mem_elem ≤ heap.heap_end_addr
  pub wide : heap.heap_end_addr < 2 ^ 64
