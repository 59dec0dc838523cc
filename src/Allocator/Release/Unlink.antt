-- ===== src/Allocator/Release/Unlink.antt =====
-- Unlinking a header makes the links of `bridge`, in either list.
use os1_project.Prelude.{ℕ, ◌≡◌, ◌≢◌, refl, ◌∙◌, List, ◌∷◌, ◌++◌, arith, All, All-left, All-right}
use os1_project.Allocator.{Ptr, null, MemoryAllocator}
use os1_project.Allocator.Blocks.{Block, end_of, Ordered-mono, Avoids, first, last, first-append}
use os1_project.Allocator.Seg.{elem, Seg-split, link_next_ne, link_prev_ne}
use os1_project.Allocator.Spec.{IsValid}
use os1_project.Allocator.Splice.{Around, bridge, link_comm, addr-ne-first, addr-ne-last}
use os1_project.Allocator.Take.{Seg-at, head_else-first}
use os1_project.Allocator.Valid.{Around-parts, distinct, AllApart-comm}
use os1_project.Allocator.Represents.{Represents, free-nonnull, full-nonnull}
use os1_project.Allocator.Relink.{relink_bridge}
use os1_project.Allocator.Release.{unlink_free, unlink_full}

module _ (us : List Block) (p : Ptr) (size : ℕ) (vs : List Block) (a : MemoryAllocator)
    (at : a.cells p ≡ elem (first vs null) (last null us) size) (nonnull : Avoids null us)
    (ne_last : p ≢ last null us) where
  pub unlink_free-bridge :
      a.free_head ≡ first us p
      → unlink_free a p
        ≡ record a { cells = bridge a.cells us vs; free_head = first (us ++ vs) null }
  unfolding unlink_free
  unlink_free-bridge head = rw (
    at,
    link_next_ne a.cells (last null us) (first vs null) p ne_last,
    at,
    head,
    head_else-first us p (first vs null) nonnull,
    first-append us vs null,
    link_comm a.cells (last null us) (first vs null) (first vs null) (last null us),
  )

  pub unlink_full-bridge :
      a.full_head ≡ first us p
      → unlink_full a p
        ≡ record a { cells = bridge a.cells us vs; full_head = first (us ++ vs) null }
  unfolding unlink_full
  unlink_full-bridge head = rw (
    at,
    link_next_ne a.cells (last null us) (first vs null) p ne_last,
    at,
    head,
    head_else-first us p (first vs null) nonnull,
    first-append us vs null,
    link_comm a.cells (last null us) (first vs null) (first vs null) (last null us),
  )

-- Taking a block off the full list leaves the free list, and the size in the block's header.
module _ (us : List Block) (c : Block) (vs free : List Block) (lo hi : ℕ)
    (v : IsValid lo hi (record { free = free; full = us ++ c ∷ vs })) (a : MemoryAllocator)
    (rep : Represents a (record { free = free; full = us ++ c ∷ vs })) where
  beside : Around us c vs lo hi
  beside = Around-parts us c vs lo hi v.positive v.full_ordered

  full_not_free : All (λ d. Avoids d.addr free) (us ++ c ∷ vs)
  full_not_free =
      distinct _ free lo hi lo hi v.full_ordered v.free_ordered
        (AllApart-comm free (us ++ c ∷ vs) v.apart)

  pub unlinked_eq :
      unlink_full a c.addr
      ≡ record a { cells = bridge a.cells us vs; full_head = first (us ++ vs) null }
  unlinked_eq =
      unlink_full-bridge us c.addr c.size vs a (Seg-at us c vs a.cells rep.full_linked)
        (All-left (λ d. d.addr ≢ null) us (c ∷ vs) (full-nonnull v))
        (addr-ne-last us c vs lo hi beside) (rep.full_first ∙ first-append us (c ∷ vs) null)

  pub unlinked_size : ((unlink_full a c.addr).cells c.addr).size ≡ c.size
  unlinked_size = rw (
    unlinked_eq,
    link_next_ne _ (last null us) (first vs null) c.addr (addr-ne-last us c vs lo hi beside),
    link_prev_ne a.cells (first vs null) (last null us) c.addr (addr-ne-first us c vs lo hi beside),
    Seg-at us c vs a.cells rep.full_linked,
  )

  pub unlinked-Represents :
      Represents (unlink_full a c.addr) (record { free = free; full = us ++ vs })
  unlinked-Represents =
      let cut = Seg-split us (c ∷ vs) a.cells null null rep.full_linked in
      let (full_seg, free_seg) =
        relink_bridge us vs free a.cells c.addr c.addr cut.0 cut.1.1 rep.free_linked
          (free-nonnull v) (All-left (λ d. Avoids d.addr free) us (c ∷ vs) full_not_free)
          (All-right (λ d. Avoids d.addr free) us (c ∷ vs) full_not_free).1 lo c.addr hi v.positive
          beside.below
          (Ordered-mono vs (end_of c) hi c.addr hi beside.above (omega arith) (omega arith)) in
      rw unlinked_eq (record {
        free_first = rep.free_first;
        full_first = refl;
        free_linked = free_seg;
        full_linked = full_seg;
      })
