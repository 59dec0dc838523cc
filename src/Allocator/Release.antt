-- ===== src/Allocator/Release.antt =====
-- mem_free and joinBlocks of src/MemoryAllocator.cpp.
pub mod Coalesce
pub mod Unlink
pub mod Join
pub mod Free
pub mod Place
pub mod Refines
pub mod RoundTrip
pub mod Bytes
pub mod Separated
use os1_project.Prelude.{ℕ, ◌+◌, ◌-◌, ◌%◌, ◌^◌, ◌||◌, Option, some, ltb, ◌==◌, if◌then◌else◌, ◌>>=◌}
use os1_project.Prelude.Int.{ℤ, pos, negsuc}
use os1_project.Allocator.{
  Ptr, null, Cells, MemElem, MemoryAllocator, HeapBounds, size_of_mem_elem, write, link_next,
  link_prev, head_else, set_size, put_only, put_first, find_place, list_fuel,
}

-- free_head = next, where the block's neighbours are joined across it
pub unlink_free : MemoryAllocator → Ptr → MemoryAllocator
unlink_free a block =
    let m1 = link_next a.cells (a.cells block).prev (a.cells block).next in
    let head = head_else (a.cells block).prev a.free_head (a.cells block).next in
    let m2 = link_prev m1 (m1 block).next (m1 block).prev in
    record a { cells = m2; free_head = head }

pub unlink_full : MemoryAllocator → Ptr → MemoryAllocator
unlink_full a block =
    let m1 = link_next a.cells (a.cells block).prev (a.cells block).next in
    let head = head_else (a.cells block).prev a.full_head (a.cells block).next in
    let m2 = link_prev m1 (m1 block).next (m1 block).prev in
    record a { cells = m2; full_head = head }

-- The joined block, or null, beside the new state.
pub join_blocks : MemoryAllocator → Ptr → Ptr → MemoryAllocator × Ptr
join_blocks a block1 block2 =
    if block1 == null || block2 == null
    then (a, null)
    else if block1 + (a.cells block1).size == block2
    then (
      unlink_free
          (record a {
            cells = set_size a.cells block1 ((a.cells block1).size + (a.cells block2).size);
          })
          block2,
      block1,
    )
    else if block2 + (a.cells block2).size == block1
    then (
      unlink_free
          (record a {
            cells = set_size a.cells block2 ((a.cells block2).size + (a.cells block1).size);
          })
          block1,
      block2,
    )
    else (a, null)

-- The search for a place in the free list, and the links of the two branches behind it.
pub place_free : Cells → Ptr → Ptr → Cells
place_free m iter block =
    if (m iter).next == null
    then (let m1 = write m block (record (m block) { next = null; prev = iter }) in
        write m1 iter (record (m1 iter) { next = block }))
    else let m1 = write m block (record (m block) { next = (m iter).next; prev = iter }) in
      let m2 = write m1 (m1 iter).next (record (m1 (m1 iter).next) { prev = block }) in
      write m2 iter (record (m2 iter) { next = block })

-- mem_free behind the unlinking: the block enters the free list, and is joined there.
pub place_block : ℕ → MemoryAllocator → Ptr → Option MemoryAllocator
place_block fuel a block =
    if a.free_head == null
    then some (record a { cells = put_only a.cells block; free_head = block })
    else if ltb block a.free_head
    then (let b = record a { cells = put_first a.cells a.free_head block; free_head = block } in
        some (join_blocks b block (b.cells block).next).0)
    else find_place fuel a.cells block a.free_head >>= λ iter.
        let b = record a { cells = place_free a.cells iter block } in
        let c = (join_blocks b block (b.cells block).next).0 in
        some (join_blocks c (c.cells block).prev block).0

-- mem_free behind its null test, for the header at `block`.
pub release_block : ℕ → MemoryAllocator → Ptr → Option MemoryAllocator
release_block fuel a block = place_block fuel (unlink_full a block) block

-- `(MemElem*)addr - 1`, on 64-bit addresses
abbrev pub header_of : Ptr → Ptr
header_of addr = (addr + 2 ^ 64 - size_of_mem_elem) % 2 ^ 64

module _ (heap : HeapBounds) where
  pub mem_free : MemoryAllocator → Ptr → Option (MemoryAllocator × ℤ)
  mem_free a addr =
      if addr == null
      then some (a, negsuc 0)
      else release_block (list_fuel heap) a (header_of addr) >>= λ b. some (b, pos 0)
