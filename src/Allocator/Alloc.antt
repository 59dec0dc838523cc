-- ===== src/Allocator/Alloc.antt =====
-- alloc_blocks implements first fit on the lists of blocks.
use os1_project.Prelude.{
  ℕ, ◌+◌, ◌-◌, ◌*◌, ◌≤◌, ◌<◌, ◌≡◌, ◌≢◌, refl, ap, ◌∙◌, inl, inr, true, some, List, ◌∷◌, ◌++◌, arith,
  All, All-left, All-right, leb→le, length, leb, Bool-cases,
}
use os1_project.Allocator.{
  null, MemElem, MemoryAllocator, mem_block_size, size_of_mem_elem, set_size, take_free, split_free,
  drop_free, insert_full,
}
use os1_project.Allocator.Blocks.{
  Block, block, Ordered-mono, end_of, Apart, Avoids, Avoids_below, first, last, first-append,
}
use os1_project.Allocator.Seg.{Seg, Seg-split, Seg-write, write_self}
use os1_project.Allocator.Spec.{
  IsValid, fits, used, remainder, insert, below, from, below-append-from, All-below, All-from,
}
use os1_project.Allocator.Splice.{Around, splice, addr-ne-first, addr-ne-last}
use os1_project.Allocator.Insert.{insert_full-splice}
use os1_project.Allocator.Take.{Seg-at, drop_free-bridge, split_free-splice}
use os1_project.Allocator.Valid.{
  distinct, Avoids_of_Apart, Apart-within, AllApart-comm, Around-parts,
}
use os1_project.Allocator.Carve.{
  left_free, left_free-Ordered, left_free-Apart, used-not_free, used-not_full, used-Around, fits-le,
}
use os1_project.Allocator.Relink.{relink_splice, relink_bridge}
use os1_project.Allocator.Represents.{Represents, free-nonnull, full-nonnull}

module _ (us : List Block) (b : Block) (vs full : List Block) (lo hi needed : ℕ) (pos : 0 < needed)
    (room : fits needed b ≡ true) (v : IsValid lo hi (record { free = us ++ b ∷ vs; full = full }))
    (a : MemoryAllocator) (rep : Represents a (record { free = us ++ b ∷ vs; full = full })) where
  beside : Around us b vs lo hi
  beside = Around-parts us b vs lo hi v.positive v.free_ordered

  -- The headers of the free list are none of the full list's.
  free_not_full : All (λ c. Avoids c.addr full) (us ++ b ∷ vs)
  free_not_full = distinct _ full lo hi lo hi v.free_ordered v.full_ordered v.apart

  us_not_full : All (λ c. Avoids c.addr full) us
  us_not_full = All-left (λ c. Avoids c.addr full) us (b ∷ vs) free_not_full

  vs_not_full : All (λ c. Avoids c.addr full) vs
  vs_not_full = (All-right (λ c. Avoids c.addr full) us (b ∷ vs) free_not_full).1

  us_nonnull : Avoids null us
  us_nonnull = All-left (λ c. c.addr ≢ null) us (b ∷ vs) (free-nonnull v)

  cut : Seg a.cells null us b.addr × Seg a.cells (last null us) (b ∷ vs) null
  cut = Seg-split us (b ∷ vs) a.cells null null rep.free_linked

  head_us : a.free_head ≡ first us b.addr
  head_us = rep.free_first ∙ first-append us (b ∷ vs) null

  split_Represents :
      size_of_mem_elem ≤ b.size - needed * mem_block_size
      → Represents (split_free a b.addr needed) (record {
        free =
            us ++ block (b.addr + needed * mem_block_size) (b.size - needed * mem_block_size) ∷ vs;
        full = full;
      })
  split_Represents h =
      let c = block (b.addr + needed * mem_block_size) (b.size - needed * mem_block_size) in
      let enough = fits-le needed b room in
      let w : Around us c vs lo hi = record {
        positive = v.positive;
        below = Ordered-mono us lo b.addr lo c.addr beside.below (omega arith) (omega arith);
        roomy = h;
        above =
            Ordered-mono vs (end_of b) hi (end_of c) hi beside.above (omega arith) (omega arith);
      } in
      let fresh : Avoids c.addr full = Avoids_of_Apart full c lo hi v.full_ordered (omega arith) (
        Apart-within b c full (omega arith) (omega arith)
          (All-right (λ d. All (Apart d) full) us (b ∷ vs) v.apart).0) in
      let (free_seg, full_seg) =
        relink_splice us vs full a.cells b.addr b.addr cut.0 cut.1.1 rep.full_linked
          (full-nonnull v) us_not_full vs_not_full c lo hi w fresh in
      rw
        (split_free-splice us b vs a (Seg-at us b vs a.cells rep.free_linked) head_us us_nonnull
          (addr-ne-first us b vs lo hi beside) (addr-ne-last us b vs lo hi beside) needed pos)
        (record {
          free_first = refl;
          full_first = rep.full_first;
          free_linked = free_seg;
          full_linked = full_seg;
        })

  drop_Represents : Represents (drop_free a b.addr) (record { free = us ++ vs; full = full })
  drop_Represents =
      let (free_seg, full_seg) =
        relink_bridge us vs full a.cells b.addr b.addr cut.0 cut.1.1 rep.full_linked
          (full-nonnull v) us_not_full vs_not_full lo b.addr hi v.positive beside.below
          (Ordered-mono vs (end_of b) hi b.addr hi beside.above (omega arith) (omega arith)) in
      rw
        (drop_free-bridge us b vs a (Seg-at us b vs a.cells rep.free_linked) head_us us_nonnull
          (addr-ne-first us b vs lo hi beside) (addr-ne-last us b vs lo hi beside))
        (record {
          free_first = refl;
          full_first = rep.full_first;
          free_linked = free_seg;
          full_linked = full_seg;
        })

  pub take_free-Represents :
      Represents
        (take_free a b.addr needed)
        (record { free = left_free us b vs full lo hi needed pos room v; full = full })
  unfolding take_free
  take_free-Represents =
      rw (Seg-at us b vs a.cells rep.free_linked)
        (elim (Bool-cases (leb size_of_mem_elem (b.size - needed * mem_block_size))) [
          | inl e ↦
              rw e (split_Represents (leb→le size_of_mem_elem (b.size - needed * mem_block_size) e))
          | inr e ↦ rw e drop_Represents
        ])

  abbrev pub kept : List Block
  kept = us ++ (remainder needed b ++ vs)

  taken : Represents (take_free a b.addr needed) (record { free = kept; full = full })
  taken = take_free-Represents

  -- The allocator with the size of the used part in its header.
  abbrev pub sized : MemoryAllocator
  sized =
      let t = take_free a b.addr needed in
      record t { cells = set_size t.cells b.addr (needed * mem_block_size) }

  used_size : (sized.cells b.addr).size ≡ needed * mem_block_size
  used_size = ap (λ (e : MemElem). e.size) (write_self (take_free a b.addr needed).cells b.addr _)

  abbrev pub finished : MemoryAllocator
  finished = record sized {
    cells = splice sized.cells (below b.addr full) (used needed b) (from b.addr full);
    full_head = first (insert (used needed b) full) null;
  }

  sized_free : Seg sized.cells null kept null
  sized_free =
      Seg-write kept _ null null b.addr _ (used-not_free us b vs full lo hi needed pos room v)
        taken.free_linked

  sized_full : Seg sized.cells null full null
  sized_full =
      Seg-write full _ null null b.addr _ (used-not_full us b vs full lo hi needed pos room v)
        taken.full_linked

  full_not_kept : All (λ c. Avoids c.addr kept) full
  full_not_kept =
      distinct full kept lo hi lo hi v.full_ordered
        (left_free-Ordered us b vs full lo hi needed pos room v)
        (AllApart-comm kept full (left_free-Apart us b vs full lo hi needed pos room v))

  kept_nonnull : Avoids null kept
  kept_nonnull =
      Avoids_below kept lo hi null (left_free-Ordered us b vs full lo hi needed pos room v)
        v.positive

  pub finished-Represents :
      Represents finished (record { free = kept; full = insert (used needed b) full })
  finished-Represents =
      let whole : Seg sized.cells null (below b.addr full ++ from b.addr full) null =
        rw (below-append-from b.addr full) sized_full in
      let parts = Seg-split (below b.addr full) (from b.addr full) sized.cells null null whole in
      let (full_seg, free_seg) =
        relink_splice (below b.addr full) (from b.addr full) kept sized.cells _ _ parts.0 parts.1
          sized_free kept_nonnull (All-below (λ c. Avoids c.addr kept) b.addr full full_not_kept)
          (All-from (λ c. Avoids c.addr kept) b.addr full full_not_kept) (used needed b) lo hi
          (used-Around us b vs full lo hi needed pos room v)
          (used-not_free us b vs full lo hi needed pos room v) in
      record {
        free_first = taken.free_first;
        full_first = refl;
        free_linked = free_seg;
        full_linked = full_seg;
      }

  pub insert_full-finished :
      (fuel : ℕ) → length full < fuel → insert_full fuel sized b.addr ≡ some finished
  insert_full-finished fuel h =
      insert_full-splice (used needed b) sized used_size full fuel taken.full_first sized_full
        (full-nonnull v) (used-not_full us b vs full lo hi needed pos room v) h
