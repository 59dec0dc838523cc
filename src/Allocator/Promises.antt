-- ===== src/Allocator/Promises.antt =====
-- What the allocator promises to its callers.
use os1_project.Prelude.{
  ℕ, ◌+◌, ◌-◌, ◌*◌, ◌^◌, ◌≤◌, ◌<◌, ◌≡◌, ap, sym, ◌∙◌, subst, ◌⊎◌, true, some, List, [], ◌∷◌, ◌++◌,
  arith, All, ◌==◌, ◌&&◌, if◌then◌else◌,
}
use mathlib.Core.Path.{ap₂}
use os1_project.Prelude.Int.{pos}
use os1_project.Allocator.{
  null, MemoryAllocator, HeapBounds, mem_block_size, size_of_mem_elem, mem_alloc, init_free_mem,
  bytes_in_blocks,
}
use os1_project.Allocator.Blocks.{
  Block, end_of, Apart, Ordered, Ordered-le, Ordered-mono, Ordered-append,
}
use os1_project.Allocator.Spec.{
  Store, IsValid, Fit, fits, first_fit, allocated, used, below, from, below-append-from, remainder,
}
use os1_project.Allocator.Splice.{Around}
use os1_project.Allocator.Valid.{Around-parts}
use os1_project.Allocator.Take.{IsFirstFit, FitResult, first_fit-FitResult}
use os1_project.Allocator.Carve.{fits-le, remainder-Ordered, used-Apart}
use os1_project.Allocator.Represents.{Represents}
use os1_project.Allocator.FirstFit.{store, Allocation, IsStarted, heap_blocks, mem_alloc-Allocation}
use os1_project.Allocator.Release.{mem_free}
use os1_project.Allocator.Release.Coalesce.{coalesce, glue, glue_last, IsSeparated}
use os1_project.Allocator.Release.Refines.{mem_free-coalesce}
use os1_project.Allocator.Release.RoundTrip.{
  below-append, from-append, glue-remainder, glue_last-separated,
}
use os1_project.Allocator.Release.Bytes.{total, total-allocated}

found_lem :
    (needed : ℕ) (s : Store) (f : Fit)
    → first_fit needed s.free ≡ some f
    → IsFirstFit needed s.free f
found_lem needed s f e = subst (FitResult needed s.free) e (first_fit-FitResult needed s.free)

-- The block is cut off without loss: exactly, or with room for the header of the rest.
abbrev pub IsWhole : ℕ → Block → Type 0
IsWhole needed b =
    (b.size ≡ needed * mem_block_size) ⊎ (size_of_mem_elem ≤ b.size - needed * mem_block_size)

module _ (us : List Block) (b : Block) (vs full : List Block) (lo hi needed : ℕ)
    (pos_needed : 0 < needed) (room : fits needed b ≡ true)
    (v : IsValid lo hi (store (us ++ b ∷ vs) full)) where
  enough : needed * mem_block_size ≤ b.size
  enough = fits-le needed b room

  beside : Around us b vs lo hi
  beside = Around-parts us b vs lo hi v.positive v.free_ordered

  rest_Ordered : Ordered b.addr (remainder needed b ++ vs) hi
  rest_Ordered =
      let mid = b.addr + needed * mem_block_size in
      Ordered-mono (remainder needed b ++ vs) mid hi b.addr hi
        (Ordered-append (remainder needed b) vs mid (end_of b) hi
          (remainder-Ordered needed b enough) beside.above)
        (omega arith) (omega arith)

  coalesce-used :
      IsWhole needed b
      → IsSeparated (us ++ b ∷ vs)
      → coalesce (used needed b) (us ++ (remainder needed b ++ vs)) ≡ us ++ b ∷ vs
  coalesce-used whole sep =
      let rest = remainder needed b ++ vs in
      ap₂ (λ l r. glue_last l (glue (used needed b) r))
        (below-append us rest b.addr lo hi beside.below rest_Ordered)
        (from-append us rest b.addr lo hi beside.below rest_Ordered)
      ∙ ap (glue_last us) (glue-remainder needed b vs enough whole (separated_tail us sep))
      ∙ glue_last-separated us b vs sep
    where
      separated_tail : (l : List Block) → IsSeparated (l ++ b ∷ vs) → IsSeparated (b ∷ vs)
      separated_tail [] s = s
      separated_tail (x ∷ []) s = s.1
      separated_tail (x ∷ y ∷ l) s = separated_tail (y ∷ l) s.1

-- A request that is in range and finds a free block, in a valid store whose free blocks do not
-- touch, where the block is used exactly or leaves room for a header: mem_alloc returns the address
-- behind the header, mem_free of that address returns 0, and the headers stand for the first store.
pub mem_free-mem_alloc :
    (heap : HeapBounds) (a : MemoryAllocator) (s : Store) (n : ℕ) (f : Fit)
    → heap.heap_end_addr < 2 ^ 64
    → IsValid heap.heap_start_addr heap.heap_end_addr s
    → Represents a s
    → IsStarted s
    → 0 < n
    → n < heap_blocks heap
    → IsSeparated s.free
    → first_fit (n + 1) s.free ≡ some f
    → IsWhole (n + 1) f.found
    → (b d : MemoryAllocator) × (mem_alloc heap a n ≡ some (b, f.found.addr + size_of_mem_elem))
      × (mem_free heap b (f.found.addr + size_of_mem_elem) ≡ some (d, pos 0))
      × Represents d s
mem_free-mem_alloc heap a s n f wide v rep st z small sep hit whole =
    let lo = heap.heap_start_addr in
    let hi = heap.heap_end_addr in
    let fit = found_lem (n + 1) s f hit in
    let (b, e, rep', v') =
      subst (Allocation lo hi (n + 1) s a (mem_alloc heap a n)) hit
        (mem_alloc-Allocation heap a s n v rep st z small) in
    let c = used (n + 1) f.found in
    let (d, e', rep'', _) =
      mem_free-coalesce heap b (below c.addr s.full) c (from c.addr s.full)
        (f.before ++ (remainder (n + 1) f.found ++ f.after)) wide v' rep' in
    let w = subst (λ l. IsValid lo hi (store l s.full)) fit.whole v in
    let back =
      coalesce-used f.before f.found f.after s.full lo hi (n + 1) (omega arith) fit.enough w whole
        (subst IsSeparated fit.whole sep) in
    (
      b,
      d,
      e,
      e',
      subst (λ l. Represents d (store l s.full)) (back ∙ sym fit.whole)
          (subst
            (λ l.
              Represents d
                (store (coalesce c (f.before ++ (remainder (n + 1) f.found ++ f.after))) l))
            (below-append-from c.addr s.full) rep''),
    )

-- A request that is in range and finds a free block in a valid store: the returned address has room
-- for the request behind it in its block, which lies inside the heap and overlaps no block that was
-- allocated before, and the headers stand for the store of first fit.
pub mem_alloc_fresh :
    (heap : HeapBounds) (a : MemoryAllocator) (s : Store) (n : ℕ) (f : Fit)
    → IsValid heap.heap_start_addr heap.heap_end_addr s
    → Represents a s
    → IsStarted s
    → 0 < n
    → n < heap_blocks heap
    → first_fit (n + 1) s.free ≡ some f
    → let c = used (n + 1) f.found in
      (b : MemoryAllocator) × (mem_alloc heap a n ≡ some (b, c.addr + size_of_mem_elem))
      × Represents b (allocated (n + 1) s f)
      × (c.addr + size_of_mem_elem + n * mem_block_size ≤ end_of c)
      × (heap.heap_start_addr ≤ c.addr)
      × (end_of c ≤ heap.heap_end_addr)
      × All (Apart c) s.full
mem_alloc_fresh heap a s n f v rep st z small hit =
    let lo = heap.heap_start_addr in
    let hi = heap.heap_end_addr in
    let fit = found_lem (n + 1) s f hit in
    let w = subst (λ l. IsValid lo hi (store l s.full)) fit.whole v in
    let (b, e, rep', _) =
      subst (Allocation lo hi (n + 1) s a (mem_alloc heap a n)) hit
        (mem_alloc-Allocation heap a s n v rep st z small) in
    let around = beside f.before f.found f.after s.full lo hi (n + 1) (omega arith) fit.enough w in
    let room = fits-le (n + 1) f.found fit.enough in
    let after = Ordered-le f.after (end_of f.found) hi around.above in
    (
      b,
      e,
      rep',
      omega arith,
      Ordered-le f.before lo f.found.addr around.below,
      omega arith,
      used-Apart f.before f.found f.after s.full lo hi (n + 1) (omega arith) fit.enough w,
    )

-- A request that is in range and finds a free block in a valid store: the bytes that the two new
-- lists manage are at most those of the old ones, and fewer than a header's size are lost.
pub mem_alloc_bytes :
    (heap : HeapBounds) (a : MemoryAllocator) (s : Store) (n : ℕ) (f : Fit)
    → IsValid heap.heap_start_addr heap.heap_end_addr s
    → Represents a s
    → IsStarted s
    → 0 < n
    → n < heap_blocks heap
    → first_fit (n + 1) s.free ≡ some f
    → (b : MemoryAllocator) × (t : Store) × (mem_alloc heap a n
        ≡ some (b, f.found.addr + size_of_mem_elem))
      × Represents b t
      × (total t.free + total t.full ≤ total s.free + total s.full)
      × (total s.free + total s.full < total t.free + total t.full + size_of_mem_elem)
mem_alloc_bytes heap a s n f v rep st z small hit =
    let lo = heap.heap_start_addr in
    let hi = heap.heap_end_addr in
    let fit = found_lem (n + 1) s f hit in
    let (b, e, rep', _) =
      subst (Allocation lo hi (n + 1) s a (mem_alloc heap a n)) hit
        (mem_alloc-Allocation heap a s n v rep st z small) in
    let same = ap total fit.whole in
    let bounds = total-allocated (n + 1) f s.full fit.enough in
    (b, allocated (n + 1) s f, e, rep', omega arith, omega arith)

-- A request for no block, or for as many blocks as the heap has, or more, gets null, in any state.
pub mem_alloc_refused :
    (heap : HeapBounds) (a : MemoryAllocator) (n : ℕ)
    → (n ≡ 0) ⊎ (heap_blocks heap ≤ n)
    → (b : MemoryAllocator) × (mem_alloc heap a n ≡ some (b, null))
unfolding mem_alloc
mem_alloc_refused heap a n h =
    (if a.free_head == null && a.full_head == null then init_free_mem heap a else a, ground arith)

-- The block count of a request below 2 ^ 64 bytes covers its bytes and wastes less than a block,
-- but for the sizes in the last 63 below 2 ^ 64, whose count wraps around to 0.
pub bytes_in_blocks_lem :
    (n : ℕ)
    → n < 2 ^ 64
    → ((n ≤ bytes_in_blocks n * mem_block_size) × (bytes_in_blocks n * mem_block_size < n + 64))
      ⊎ ((2 ^ 64 < n + mem_block_size) × (bytes_in_blocks n ≡ 0))
unfolding bytes_in_blocks
bytes_in_blocks_lem n h = ground arith
