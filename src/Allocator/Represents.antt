-- ===== src/Allocator/Represents.antt =====
-- The linked headers of an allocator stand for two lists of blocks.
use os1_project.Prelude.{ℕ, ◌≡◌, ◌≤◌, ◌+◌, arith, length}
use os1_project.Allocator.{null, MemoryAllocator}
use os1_project.Allocator.Blocks.{first, Avoids, Avoids_below, length-le}
use os1_project.Allocator.Seg.{Seg}
use os1_project.Allocator.Spec.{Store, IsValid}

pub record Represents (a : MemoryAllocator) (s : Store) : Type 0 where
  pub free_first : a.free_head ≡ first s.free null
  pub full_first : a.full_head ≡ first s.full null
  pub free_linked : Seg a.cells null s.free null
  pub full_linked : Seg a.cells null s.full null

module _ {lo hi : ℕ} {s : Store} (v : IsValid lo hi s) where
  pub free-nonnull : Avoids null s.free
  free-nonnull = Avoids_below s.free lo hi null v.free_ordered v.positive

  pub full-nonnull : Avoids null s.full
  full-nonnull = Avoids_below s.full lo hi null v.full_ordered v.positive

  -- A block takes up room, so the end of the heap bounds the length of both lists.
  pub length_free : length s.free + 1 ≤ hi
  length_free = omega (arith, length-le s.free lo hi v.free_ordered, v.positive)

  pub length_full : length s.full + 1 ≤ hi
  length_full = omega (arith, length-le s.full lo hi v.full_ordered, v.positive)
