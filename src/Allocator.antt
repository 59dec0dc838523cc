-- ===== src/Allocator.antt =====
-- h/MemoryAllocator.hpp and src/MemoryAllocator.cpp: the two address-ordered, doubly linked lists
-- of block headers. A header is a cell at its address; `cells` is the memory that holds headers.
-- Sums of addresses stay inside the heap, so they are written without a wrap-around.
pub mod Blocks
pub mod Seg
pub mod Splice
pub mod Spec
pub mod Insert
pub mod Take
pub mod Valid
pub mod Carve
pub mod Relink
pub mod Represents
pub mod Alloc
pub mod FirstFit
pub mod Promises
pub mod Sound
pub mod Untouched
pub mod Live
pub mod History
pub mod Release
pub mod Tests
use os1_project.Prelude.{
  ℕ, zero, suc, ◌+◌, ◌-◌, ◌*◌, ◌/◌, ◌%◌, ◌^◌, ◌||◌, ◌&&◌, Option, none, some, ltb, leb, ◌==◌,
  if◌then◌else◌, ◌>>=◌,
}

abbrev pub Ptr : Type 0
Ptr = ℕ

abbrev pub null : Ptr
null = 0

pub record MemElem : Type 0 where
  pub next : Ptr
  pub prev : Ptr
  pub size : ℕ

abbrev pub Cells : Type 0
Cells = Ptr → MemElem

pub record MemoryAllocator : Type 0 where
  pub cells : Cells
  pub free_head : Ptr
  pub full_head : Ptr

-- HEAP_START_ADDR and HEAP_END_ADDR of lib/hw.h, which the linked hw.lib defines.
pub record HeapBounds : Type 0 where
  pub heap_start_addr : ℕ
  pub heap_end_addr : ℕ

abbrev pub mem_block_size : ℕ
mem_block_size = 64

-- sizeof(MemElem): two pointers and a size_t
abbrev pub size_of_mem_elem : ℕ
size_of_mem_elem = 24

abbrev pub num_of_blocks_for_mem_elem : ℕ
num_of_blocks_for_mem_elem = (size_of_mem_elem + mem_block_size - 1) / mem_block_size

-- `*p = e`
unfoldable pub write : Cells → Ptr → MemElem → Cells
write m p e q = if q == p then e else m q

-- `if(p) p->next = v;` and `if(p) p->prev = v;`
unfoldable pub link_next : Cells → Ptr → Ptr → Cells
unfolding write
link_next m p v = if p == null then m else write m p (record (m p) { next = v })

unfoldable pub link_prev : Cells → Ptr → Ptr → Cells
unfolding write
link_prev m p v = if p == null then m else write m p (record (m p) { prev = v })

-- the `else head = v;` of a guarded write through `p`
abbrev pub head_else : Ptr → Ptr → Ptr → Ptr
head_else p head v = if p == null then v else head

module _ (heap : HeapBounds) where
  open heap use {heap_start_addr, heap_end_addr}

  pub init_free_mem : MemoryAllocator → MemoryAllocator
  unfolding write
  init_free_mem a = record a {
    cells =
        write a.cells heap_start_addr
          (record { next = null; prev = null; size = heap_end_addr - heap_start_addr });
    free_head = heap_start_addr;
  }

-- The search of mem_alloc: the first free block with room, or null. `none`: the fuel ran out.
pub find_fit : ℕ → Cells → ℕ → Ptr → Option Ptr
find_fit zero m needed iter = none
find_fit (suc fuel) m needed iter =
    let rest = find_fit fuel m needed (m iter).next in
    if iter == null
    then some null
    else if leb needed ((m iter).size / mem_block_size)
    then some iter
    else rest

-- There is room for a header behind the block: a new free block takes the place of `iter`.
pub split_free : MemoryAllocator → Ptr → ℕ → MemoryAllocator
split_free a iter needed =
    let fragment = iter + needed * mem_block_size in
    let m1 = write a.cells fragment (record {
      next = (a.cells iter).next;
      prev = (a.cells iter).prev;
      size = (a.cells iter).size - needed * mem_block_size;
    }) in
    let m2 = link_next m1 (m1 iter).prev fragment in
    let head = head_else (m1 iter).prev a.free_head fragment in
    let m3 = link_prev m2 (m2 iter).next fragment in record a { cells = m3; free_head = head }

-- The whole block is used: `iter` leaves the free list.
pub drop_free : MemoryAllocator → Ptr → MemoryAllocator
drop_free a iter =
    let m1 = link_prev a.cells (a.cells iter).next (a.cells iter).prev in
    let m2 = link_next m1 (m1 iter).prev (m1 iter).next in
    record a { cells = m2; free_head = head_else (m1 iter).prev a.free_head (m1 iter).next }

pub take_free : MemoryAllocator → Ptr → ℕ → MemoryAllocator
take_free a iter needed =
    if leb size_of_mem_elem ((a.cells iter).size - needed * mem_block_size)
    then split_free a iter needed
    else drop_free a iter

-- `for(;iter->next && iter->next < block; iter=iter->next);`
pub find_place : ℕ → Cells → Ptr → Ptr → Option Ptr
find_place zero m block iter = none
find_place (suc fuel) m block iter =
    let rest = find_place fuel m block (m iter).next in
    if (m iter).next == null then some iter else if ltb (m iter).next block then rest else some iter

abbrev pub set_size : Cells → Ptr → ℕ → Cells
set_size m p v = write m p (record (m p) { size = v })

-- The block becomes the only one of a list, or the first, or the one behind `iter`.
unfoldable pub put_only : Cells → Ptr → Cells
unfolding write
put_only m block = write m block (record (m block) { next = null; prev = null })

unfoldable pub put_first : Cells → Ptr → Ptr → Cells
unfolding write link_prev
put_first m head block =
    let m1 = write m block (record (m block) { next = head; prev = null }) in
    write m1 head (record (m1 head) { prev = block })

unfoldable pub put_after : Cells → Ptr → Ptr → Cells
unfolding write link_prev
put_after m iter block =
    let m1 = write m block (record (m block) { next = (m iter).next; prev = iter }) in
    let m2 = link_prev m1 (m1 iter).next block in write m2 iter (record (m2 iter) { next = block })

-- The end of mem_alloc: the block enters the full list, which stays in the order of addresses.
pub insert_full : ℕ → MemoryAllocator → Ptr → Option MemoryAllocator
insert_full fuel a block =
    if a.full_head == null
    then some (record a { cells = put_only a.cells block; full_head = block })
    else if ltb block a.full_head
    then some (record a { cells = put_first a.cells a.full_head block; full_head = block })
    else find_place fuel a.cells block a.full_head >>= λ iter.
        some (record a { cells = put_after a.cells iter block })

-- Both loops of mem_alloc behind its guards, with the fuel that each gets.
pub alloc_blocks : ℕ → MemoryAllocator → ℕ → Option (MemoryAllocator × Ptr)
alloc_blocks fuel a needed = find_fit fuel a.cells needed a.free_head >>= λ block.
    if block == null
    then some (a, null)
    else let b = take_free a block needed in
      insert_full fuel (record b { cells = set_size b.cells block (needed * mem_block_size) }) block
      >>= λ c. some (c, block + size_of_mem_elem)

module _ (heap : HeapBounds) where
  open heap use {heap_start_addr, heap_end_addr}

  -- Every block has an address of its own below the end of the heap.
  abbrev pub list_fuel : ℕ
  list_fuel = heap_end_addr

  pub mem_alloc : MemoryAllocator → ℕ → Option (MemoryAllocator × Ptr)
  mem_alloc a size_in_blocks =
      let b = if a.free_head == null && a.full_head == null then init_free_mem heap a else a in
      if size_in_blocks == 0
        || leb ((heap_end_addr - heap_start_addr) / mem_block_size) size_in_blocks
      then some (b, null)
      else alloc_blocks list_fuel b (size_in_blocks + num_of_blocks_for_mem_elem)

-- bytesInBlocks, on the 64-bit size_t
unfoldable pub bytes_in_blocks : ℕ → ℕ
bytes_in_blocks n = (n + mem_block_size - 1) % 2 ^ 64 / mem_block_size
