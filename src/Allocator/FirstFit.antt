-- ===== src/Allocator/FirstFit.antt =====
-- mem_alloc behaves like first fit on the two lists of blocks that the headers stand for.
use os1_project.Prelude.{
  ◌||◌, ℕ, ◌+◌, ◌-◌, ◌/◌, ◌<◌, ◌≡◌, ◌≢◌, refl, subst, true, false, Option, none, some, List, [],
  ◌∷◌, ◌++◌, arith, All, All-right, length, leb, ◌==◌, ne→==, ◌&&◌,
}
use os1_project.Allocator.{
  Ptr, null, MemoryAllocator, HeapBounds, mem_block_size, size_of_mem_elem, alloc_blocks, list_fuel,
  mem_alloc, find_fit,
}
use os1_project.Allocator.Blocks.{Block, first}
use os1_project.Allocator.Spec.{Store, IsValid, Fit, fits, first_fit, allocated}
use os1_project.Allocator.Take.{FitResult, first_fit-FitResult, fit_addr, find_fit-first_fit}
use os1_project.Allocator.Carve.{carved-IsValid}
use os1_project.Allocator.Represents.{
  Represents, free-nonnull, full-nonnull, length_free, length_full,
}
use os1_project.Allocator.Alloc.{finished, finished-Represents, insert_full-finished}

abbrev pub store : List Block → List Block → Store
store free full = record { free = free; full = full }

-- What a run of the allocator must return, by the result of the search on the free blocks.
abbrev pub Allocation :
    ℕ → ℕ → ℕ → Store → MemoryAllocator → Option (MemoryAllocator × Ptr) → Option Fit → Type 0
Allocation lo hi needed s a r none = r ≡ some (a, null)
Allocation lo hi needed s a r (some f) =
    (b : MemoryAllocator) × (r ≡ some (b, f.found.addr + size_of_mem_elem))
    × Represents b (allocated needed s f)
    × IsValid lo hi (allocated needed s f)

module _ (lo hi needed fuel : ℕ) (pos : 0 < needed) (full : List Block) (a : MemoryAllocator)
    (short_full : length full < fuel) where
  search_found :
      (free : List Block)
      → IsValid lo hi (store free full)
      → Represents a (store free full)
      → length free < fuel
      → find_fit fuel a.cells needed a.free_head ≡ some (fit_addr (first_fit needed free))
  search_found free v rep short =
      rw rep.free_first
        (find_fit-first_fit free fuel a.cells null needed rep.free_linked (free-nonnull v) short)

  alloc_found :
      (us : List Block) (b : Block) (vs : List Block)
      → fits needed b ≡ true
      → IsValid lo hi (store (us ++ b ∷ vs) full)
      → Represents a (store (us ++ b ∷ vs) full)
      → length (us ++ b ∷ vs) < fuel
      → first_fit needed (us ++ b ∷ vs) ≡ some (record { before = us; found = b; after = vs })
      → Allocation lo hi needed
          (store (us ++ b ∷ vs) full)
          a
          (alloc_blocks fuel a needed)
          (some (record { before = us; found = b; after = vs }))
  unfolding alloc_blocks
  alloc_found us b vs room v rep short hit = (
    finished us b vs full lo hi needed pos room v a rep,
    rw (
      search_found (us ++ b ∷ vs) v rep short,
      hit,
      ne→== b.addr null nonnull,
      insert_full-finished us b vs full lo hi needed pos room v a rep fuel short_full,
    ),
    finished-Represents us b vs full lo hi needed pos room v a rep,
    carved-IsValid us b vs full lo hi needed pos room v,
  )
    where
      nonnull : b.addr ≢ null
      nonnull = (All-right (λ c. c.addr ≢ null) us (b ∷ vs) (free-nonnull v)).0

  Allocation-search :
      (free : List Block) (r : Option Fit)
      → IsValid lo hi (store free full)
      → Represents a (store free full)
      → length free < fuel
      → first_fit needed free ≡ r
      → FitResult needed free r
      → Allocation lo hi needed (store free full) a (alloc_blocks fuel a needed) r
  Allocation-search free none v rep short e h =
      unfold alloc_blocks in rw (search_found free v rep short, e)
  Allocation-search free (some f) v rep short e h =
      let w : IsValid lo hi (store (f.before ++ f.found ∷ f.after) full) =
        subst (λ l. IsValid lo hi (store l full)) h.whole v in
      let rep' : Represents a (store (f.before ++ f.found ∷ f.after) full) =
        subst (λ l. Represents a (store l full)) h.whole rep in
      let hit : first_fit needed (f.before ++ f.found ∷ f.after) ≡ some f =
        subst (λ l. first_fit needed l ≡ some f) h.whole e in
      let short' : length (f.before ++ f.found ∷ f.after) < fuel =
        subst (λ l. length l < fuel) h.whole short in
      alloc_found f.before f.found f.after h.enough w rep' short' hit

-- The two loops always end within the fuel, and do what first fit says.
pub alloc_blocks-Allocation :
    (lo hi needed fuel : ℕ) (a : MemoryAllocator) (s : Store)
    → 0 < needed
    → IsValid lo hi s
    → Represents a s
    → length s.free < fuel
    → length s.full < fuel
    → Allocation lo hi needed s a (alloc_blocks fuel a needed) (first_fit needed s.free)
alloc_blocks-Allocation lo hi needed fuel a s pos v rep hf hg =
    Allocation-search lo hi needed fuel pos s.full a hg s.free (first_fit needed s.free) v rep hf
      refl (first_fit-FitResult needed s.free)

-- The allocator has been initialised: it manages some block.
abbrev pub IsStarted : Store → Type 0
IsStarted s = 0 < length s.free + length s.full

started_heads :
    (lo hi : ℕ) (a : MemoryAllocator) (s : Store)
    → IsValid lo hi s
    → Represents a s
    → IsStarted s
    → (a.free_head == null && a.full_head == null) ≡ false
started_heads lo hi a s v rep st =
    heads s.free s.full rep.free_first rep.full_first (free-nonnull v) (full-nonnull v) st
  where
    heads :
        (bs cs : List Block)
        → a.free_head ≡ first bs null
        → a.full_head ≡ first cs null
        → All (λ b. b.addr ≢ null) bs
        → All (λ b. b.addr ≢ null) cs
        → 0 < length bs + length cs
        → (a.free_head == null && a.full_head == null) ≡ false
    heads [] [] e f z w h = absurd (omega arith)
    heads [] (c ∷ cs) e f z w h = rw (e, f) (ne→== c.addr null w.0)
    heads (b ∷ bs) cs e f z w h = rw (e, ne→== b.addr null z.0)

abbrev pub heap_blocks : HeapBounds → ℕ
heap_blocks heap = (heap.heap_end_addr - heap.heap_start_addr) / mem_block_size

-- A request out of range is refused and changes nothing.
pub mem_alloc_unchanged :
    (heap : HeapBounds) (a : MemoryAllocator) (s : Store) (n : ℕ)
    → IsValid heap.heap_start_addr heap.heap_end_addr s
    → Represents a s
    → IsStarted s
    → (n == 0 || leb (heap_blocks heap) n) ≡ true
    → mem_alloc heap a n ≡ some (a, null)
unfolding mem_alloc
mem_alloc_unchanged heap a s n v rep st out =
    rw (started_heads heap.heap_start_addr heap.heap_end_addr a s v rep st, out) refl

-- A request of more than no and fewer blocks than the heap has, to an allocator whose linked
-- headers stand for a valid store with some block: both loops end. If no free block has room for
-- the request and one block for the header, mem_alloc returns null and an unchanged allocator;
-- otherwise it returns the address behind the header of the first that has, and the headers stand
-- for the store of first fit, which is valid again.
pub mem_alloc-Allocation :
    (heap : HeapBounds) (a : MemoryAllocator) (s : Store) (n : ℕ)
    → IsValid heap.heap_start_addr heap.heap_end_addr s
    → Represents a s
    → IsStarted s
    → 0 < n
    → n < heap_blocks heap
    → Allocation heap.heap_start_addr heap.heap_end_addr
        (n + 1)
        s
        a
        (mem_alloc heap a n)
        (first_fit (n + 1) s.free)
unfolding mem_alloc
mem_alloc-Allocation heap a s n v rep st pos small =
    rw
      (
        started_heads heap.heap_start_addr heap.heap_end_addr a s v rep st,
        ne→== n 0 (omega arith),
        small_test,
      )
      (alloc_blocks-Allocation heap.heap_start_addr heap.heap_end_addr (n + 1) (list_fuel heap) a s
        (omega arith) v rep (omega (arith, length_free v)) (omega (arith, length_full v)))
  where
    small_test : leb (heap_blocks heap) n ≡ false
    small_test = ground arith
