-- ===== src/Allocator/Release/Free.antt =====
-- release_block implements `coalesce`.
use os1_project.Prelude.{
  ℕ, ◌+◌, ◌≤◌, ◌≡◌, refl, sym, ap, ◌∙◌, subst, inl, inr, List, [], ◌∷◌, ◌++◌, append_assoc, arith,
  All, ◌==◌, Bool-cases,
}
use os1_project.Allocator.{Ptr, null, MemElem, MemoryAllocator, size_of_mem_elem}
use os1_project.Allocator.Blocks.{Block, block, end_of, Apart, Avoids, first, last}
use os1_project.Allocator.Seg.{Seg, Seg-split}
use os1_project.Allocator.Spec.{
  Store, IsValid, below, from, insert, below-append-from, All-below, All-from,
}
use os1_project.Allocator.Splice.{Around, splice}
use os1_project.Allocator.Take.{Seg-at}
use os1_project.Allocator.Valid.{
  Around-insert, insert-IsValid, distinct, Avoids_of_Apart, All-Apart_comm,
}
use os1_project.Allocator.Represents.{Represents, full-nonnull}
use os1_project.Allocator.Relink.{relink_splice}
use os1_project.Allocator.Release.{join_blocks}
use os1_project.Allocator.Release.Coalesce.{
  glue, glue_last, glue_last-snoc, last_cases, glue-head, coalesce,
}
use os1_project.Allocator.Release.Join.{join_blocks-glue, glue-IsValid}

abbrev pub store : List Block → List Block → Store
store free full = record { free = free; full = full }

glue_cons :
    (c : Block) (vs : List Block)
    → (e : Block) × (es : List Block) × (glue c vs ≡ e ∷ es) × (e.addr ≡ c.addr)
unfolding glue
glue_cons c [] = (c, [], refl, refl)
glue_cons c (d ∷ ds) = elim (Bool-cases (end_of c == d.addr)) [
  | inl e ↦ (block c.addr (c.size + d.size), ds, rw e, refl)
  | inr e ↦ (c, d ∷ ds, rw e, refl)
]

-- The header behind which the joined block stands, and the second call of joinBlocks.
module _ (c : Block) (vs full : List Block) (lo hi : ℕ) (a : MemoryAllocator) where
  prev_header :
      (us : List Block)
      → Represents a (store (us ++ glue c vs) full)
      → (a.cells c.addr).prev ≡ last null us
  prev_header us rep =
      let (e, es, g, same) = glue_cons c vs in
      let linked : Seg a.cells null (us ++ e ∷ es) null =
        subst (λ l. Seg a.cells null (us ++ l) null) g rep.free_linked in
      subst (λ p. (a.cells p).prev ≡ last null us) same
        (ap (λ (x : MemElem). x.prev) (Seg-at us e es a.cells linked))

  abbrev JoinsPrev : List Block → Type 0
  JoinsPrev us =
      IsValid lo hi (store (us ++ glue c vs) full)
      → Represents a (store (us ++ glue c vs) full)
      → Represents (join_blocks a (a.cells c.addr).prev c.addr).0
          (store (glue_last us (glue c vs)) full)

  join_prev_nil : JoinsPrev []
  unfolding join_blocks glue_last
  join_prev_nil v rep = rw (prev_header [] rep) rep

  last-snoc : (bs : List Block) (b : Block) (p : Ptr) → last p (bs ++ b ∷ []) ≡ b.addr
  last-snoc [] b p = refl
  last-snoc (d ∷ bs) b p = last-snoc bs b d.addr

  join_prev_snoc : (front : List Block) (b : Block) → JoinsPrev (front ++ b ∷ [])
  join_prev_snoc front b v rep =
      let e = append_assoc front (b ∷ []) (glue c vs) in
      rw
        (
          prev_header (front ++ b ∷ []) rep ∙ last-snoc front b null,
          glue_last-snoc front b (glue c vs),
        )
        (subst
          (λ p. Represents (join_blocks a b.addr p).0 (store (front ++ glue b (glue c vs)) full))
          (glue-head c vs null)
          (join_blocks-glue front b (glue c vs) full lo hi a
            (subst (λ l. IsValid lo hi (store l full)) e v)
            (subst (λ l. Represents a (store l full)) e rep)))

  join_prev : (us : List Block) → JoinsPrev us
  join_prev us = elim (last_cases us) [
    | inl e ↦ subst JoinsPrev (sym e) join_prev_nil
    | inr (front, b, e) ↦ subst JoinsPrev (sym e) (join_prev_snoc front b)
  ]

-- Behind the unlinking: the block `c` is on neither list, and overlaps no block of either.
module _ (c : Block) (full : List Block) (lo hi : ℕ) (a : MemoryAllocator)
    (sized : (a.cells c.addr).size ≡ c.size) (roomy : size_of_mem_elem ≤ c.size)
    (lower : lo ≤ c.addr) (upper : end_of c ≤ hi) (full_apart : All (λ d. Apart d c) full) where
  module _ (free : List Block) (v : IsValid lo hi (store free full))
      (rep : Represents a (store free full)) (free_apart : All (Apart c) free) where
    around : Around (below c.addr free) c (from c.addr free) lo hi
    around = Around-insert c free lo hi v.positive v.free_ordered free_apart roomy lower upper

    inserted-IsValid : IsValid lo hi (store (insert c free) full)
    inserted-IsValid = insert-IsValid c free full lo hi v roomy lower upper free_apart full_apart

    -- The free list with the block in its place, before anything is joined.
    abbrev pub inserted : MemoryAllocator
    inserted = record a {
      cells = splice a.cells (below c.addr free) c (from c.addr free);
      free_head = first (insert c free) null;
    }

    free_not_full : All (λ d. Avoids d.addr full) free
    free_not_full = distinct free full lo hi lo hi v.free_ordered v.full_ordered v.apart

    pub inserted-Represents : Represents inserted (store (insert c free) full)
    inserted-Represents =
        let whole : Seg a.cells null (below c.addr free ++ from c.addr free) null =
          rw (below-append-from c.addr free) rep.free_linked in
        let parts = Seg-split (below c.addr free) (from c.addr free) a.cells null null whole in
        let (free_seg, full_seg) =
          relink_splice (below c.addr free) (from c.addr free) full a.cells _ _ parts.0 parts.1
            rep.full_linked (full-nonnull v)
            (All-below (λ d. Avoids d.addr full) c.addr free free_not_full)
            (All-from (λ d. Avoids d.addr full) c.addr free free_not_full) c lo hi around
            (Avoids_of_Apart full c lo hi v.full_ordered (omega (arith, roomy))
              (All-Apart_comm c full full_apart)) in
        record {
          free_first = refl;
          full_first = rep.full_first;
          free_linked = free_seg;
          full_linked = full_seg;
        }

    -- Both calls of joinBlocks, from the list with the block in its place.
    abbrev pub joined_next : MemoryAllocator
    joined_next = (join_blocks inserted c.addr (inserted.cells c.addr).next).0

    pub joined_next-Represents :
        Represents joined_next (store (below c.addr free ++ glue c (from c.addr free)) full)
    joined_next-Represents =
        subst
          (λ p.
            Represents (join_blocks inserted c.addr p).0
              (store (below c.addr free ++ glue c (from c.addr free)) full))
          (sym (
            ap (λ (x : MemElem). x.next)
              (Seg-at (below c.addr free) c (from c.addr free) inserted.cells
                inserted-Represents.free_linked)))
          (join_blocks-glue (below c.addr free) c (from c.addr free) full lo hi inserted
            inserted-IsValid inserted-Represents)

    pub joined_next-IsValid :
        IsValid lo hi (store (below c.addr free ++ glue c (from c.addr free)) full)
    joined_next-IsValid =
        glue-IsValid (below c.addr free) c (from c.addr free) full lo hi inserted-IsValid

    pub both-Represents :
        Represents
          (join_blocks joined_next (joined_next.cells c.addr).prev c.addr).0
          (store (coalesce c free) full)
    both-Represents =
        join_prev c (from c.addr free) full lo hi joined_next (below c.addr free)
          joined_next-IsValid joined_next-Represents
