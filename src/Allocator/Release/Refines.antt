-- ===== src/Allocator/Release/Refines.antt =====
-- mem_free behaves like `coalesce` on the two lists of blocks that the headers stand for.
use os1_project.Prelude.{
  ℕ, ◌+◌, ◌^◌, ◌≤◌, ◌<◌, ◌≡◌, refl, sym, ◌∙◌, subst, inl, inr, Option, some, List, [], ◌∷◌, ◌++◌,
  arith, All, All-append, All-left, All-right, length, ltb, ne→==, ltb→lt, Bool-cases,
}
use os1_project.Prelude.Int.{pos}
use os1_project.Allocator.{null, MemoryAllocator, HeapBounds, size_of_mem_elem, list_fuel}
use os1_project.Allocator.Blocks.{
  Block, end_of, Ordered-append, Ordered-mono, Ordered-le, Apart, AllApart, Avoids,
}
use mathlib.Core.Path.{ap₂}
use os1_project.Allocator.Insert.{below_head, from_head, below_tail, from_tail}
use os1_project.Allocator.Spec.{IsValid, below, from}
use os1_project.Allocator.Splice.{Around}
use os1_project.Allocator.Valid.{
  Around-parts, AllApart-comm, Apart-below, Apart-above, Avoids_of_Apart, insert-IsValid,
}
use os1_project.Allocator.Represents.{Represents, free-nonnull, length_free}
use os1_project.Allocator.Release.{unlink_full, place_block, release_block, header_of, mem_free}
use os1_project.Allocator.Release.Coalesce.{glue, glue_last, coalesce}
use os1_project.Allocator.Release.Unlink.{unlinked-Represents, unlinked_size}
use os1_project.Allocator.Release.Join.{glue-IsValid, glue_last-IsValid}
use os1_project.Allocator.Release.Free.{
  store, inserted-Represents, joined_next-Represents, both-Represents,
}
use os1_project.Allocator.Release.Place.{
  placed, next_joined, both_joined, place_empty, place_first, place_later,
}

module _ (c : Block) (full : List Block) (lo hi : ℕ) (a : MemoryAllocator)
    (sized : (a.cells c.addr).size ≡ c.size) (roomy : size_of_mem_elem ≤ c.size)
    (lower : lo ≤ c.addr) (upper : end_of c ≤ hi) (full_apart : All (λ d. Apart d c) full) where
  abbrev Released : List Block → Option MemoryAllocator → Type 0
  Released free r =
      (b : MemoryAllocator) × (r ≡ some b) × Represents b (store (coalesce c free) full)

  fresh : (l : List Block) → IsValid lo hi (store l full) → All (Apart c) l → Avoids c.addr l
  fresh l w h = Avoids_of_Apart l c lo hi w.free_ordered (omega (arith, roomy)) h

  -- In front of the whole list there is nothing to join with.
  only_next :
      (free : List Block)
      → IsValid lo hi (store free full)
      → Represents a (store free full)
      → All (Apart c) free
      → below c.addr free ≡ []
      → Represents
          (next_joined c a (below c.addr free) (from c.addr free))
          (store (coalesce c free) full)
  unfolding next_joined
  only_next free v rep h e =
      let first_joined = next_joined c a (below c.addr free) (from c.addr free) in
      let g = glue c (from c.addr free) in
      let same : below c.addr free ++ g ≡ glue_last (below c.addr free) g =
        subst (λ us. us ++ g ≡ glue_last us g) (sym e) (unfold glue_last in refl) in
      subst (λ l. Represents first_joined (store l full)) same
        (joined_next-Represents c full lo hi a sized roomy lower upper full_apart free v rep h)

  place_block-Released :
      (free : List Block) (fuel : ℕ)
      → IsValid lo hi (store free full)
      → Represents a (store free full)
      → All (Apart c) free
      → length free < fuel
      → Released free (place_block fuel a c.addr)
  place_block-Released [] fuel v rep h short =
      unfold below from glue glue_last in
      (
        placed c a [] [],
        place_empty c a sized fuel rep.free_first,
        inserted-Represents c full lo hi a sized roomy lower upper full_apart [] v rep tt,
      )
  place_block-Released (b ∷ bs) fuel v rep h short = elim (Bool-cases (ltb c.addr b.addr)) [
    | inl lt ↦
        let below_nil = below_head c.addr b bs (omega (arith, ltb→lt c.addr b.addr lt)) in
        let from_all = from_head c.addr b bs (omega (arith, ltb→lt c.addr b.addr lt)) in
        (
          next_joined c a (below c.addr (b ∷ bs)) (from c.addr (b ∷ bs)),
          place_first c a sized fuel b bs rep.free_first (free-nonnull v).0
                (ltb→lt c.addr b.addr lt)
              ∙ ap₂ (λ us vs. some (next_joined c a us vs)) (sym below_nil) (sym from_all),
          only_next (b ∷ bs) v rep h below_nil,
        )
    | inr ge ↦
        let lt : b.addr < c.addr = ground (arith, (fresh (b ∷ bs) v h).0) in
        (
          both_joined c a (below c.addr (b ∷ bs)) (from c.addr (b ∷ bs)),
          place_later c a sized fuel b bs rep.free_first rep.free_linked (free-nonnull v)
                (fresh (b ∷ bs) v h) lt (omega arith)
              ∙ ap₂ (λ us vs. some (both_joined c a us vs)) (sym (below_tail c.addr b bs lt))
                  (sym (from_tail c.addr b bs lt)),
          unfold both_joined in
              both-Represents c full lo hi a sized roomy lower upper full_apart (b ∷ bs) v rep h,
        )
  ]

module _ (lo hi : ℕ) (us : List Block) (c : Block) (vs free : List Block) where
  -- What a run of mem_free on the block `c` must return.
  abbrev pub Release : Option MemoryAllocator → Type 0
  Release r =
      (b : MemoryAllocator) × (r ≡ some b) × Represents b (store (coalesce c free) (us ++ vs))

  module _ (v : IsValid lo hi (store free (us ++ c ∷ vs))) where
    pub beside : Around us c vs lo hi
    beside = Around-parts us c vs lo hi v.positive v.full_ordered

    pub Apart-free : All (Apart c) free
    Apart-free =
        (All-right (λ d. All (Apart d) free) us (c ∷ vs)
          (AllApart-comm free (us ++ c ∷ vs) v.apart)).0

    pub lower : lo ≤ c.addr
    lower = Ordered-le us lo c.addr beside.below

    pub upper : end_of c ≤ hi
    upper = Ordered-le vs (end_of c) hi beside.above

    rest-Apart : All (λ d. Apart d c) (us ++ vs)
    rest-Apart =
        All-append (λ d. Apart d c) us vs (Apart-below us c lo c.addr beside.below (omega arith))
          (Apart-above vs c (end_of c) hi beside.above (omega arith))

    without-IsValid : IsValid lo hi (store free (us ++ vs))
    without-IsValid = record {
      positive = v.positive;
      free_ordered = v.free_ordered;
      full_ordered =
          Ordered-append us vs lo c.addr hi beside.below
            (Ordered-mono vs (end_of c) hi c.addr hi beside.above (omega arith) (omega arith));
      apart = AllApart-comm (us ++ vs) free (
          All-append (λ d. All (Apart d) free) us vs
            (All-left (λ d. All (Apart d) free) us (c ∷ vs) full_apart)
            (All-right (λ d. All (Apart d) free) us (c ∷ vs) full_apart).1);
    }
      where
        full_apart : AllApart (us ++ c ∷ vs) free
        full_apart = AllApart-comm free (us ++ c ∷ vs) v.apart

    release_block-Release :
        (a : MemoryAllocator) (fuel : ℕ)
        → Represents a (store free (us ++ c ∷ vs))
        → length free < fuel
        → Release (release_block fuel a c.addr)
    unfolding release_block
    release_block-Release a fuel rep short =
        place_block-Released c (us ++ vs) lo hi (unlink_full a c.addr)
          (unlinked_size us c vs free lo hi v a rep) beside.roomy lower upper rest-Apart free fuel
          without-IsValid (unlinked-Represents us c vs free lo hi v a rep) Apart-free short

    coalesced-IsValid : IsValid lo hi (store (coalesce c free) (us ++ vs))
    coalesced-IsValid =
        glue_last-IsValid (below c.addr free) (glue c (from c.addr free)) (us ++ vs) lo hi (
          glue-IsValid (below c.addr free) c (from c.addr free) (us ++ vs) lo hi (
            insert-IsValid c free (us ++ vs) lo hi without-IsValid beside.roomy lower upper
              Apart-free rest-Apart))

short_of_fuel :
    (heap : HeapBounds) (free full : List Block)
    → IsValid heap.heap_start_addr heap.heap_end_addr (store free full)
    → length free < list_fuel heap
short_of_fuel heap free full v = omega (arith, length_free v)

header_of_lem : (p hi : ℕ) → p < hi → hi < 2 ^ 64 → header_of (p + size_of_mem_elem) ≡ p
header_of_lem p hi h k = omega arith

-- mem_free on the address behind the header of an allocated block, with headers that stand for a
-- valid store in a heap below 2 ^ 64: it ends and returns 0, the block leaves the full list, the free
-- list is the old one with the block in its place and joined with the neighbours that it touches,
-- and the store is valid again.
pub mem_free-coalesce :
    (heap : HeapBounds) (a : MemoryAllocator) (us : List Block) (c : Block) (vs free : List Block)
    → heap.heap_end_addr < 2 ^ 64
    → IsValid heap.heap_start_addr heap.heap_end_addr (store free (us ++ c ∷ vs))
    → Represents a (store free (us ++ c ∷ vs))
    → (b : MemoryAllocator) × (mem_free heap a (c.addr + size_of_mem_elem) ≡ some (b, pos 0))
      × Represents b (store (coalesce c free) (us ++ vs))
      × IsValid heap.heap_start_addr heap.heap_end_addr (store (coalesce c free) (us ++ vs))
unfolding mem_free
mem_free-coalesce heap a us c vs free wide v rep =
    let lo = heap.heap_start_addr in
    let hi = heap.heap_end_addr in
    let inside = upper lo hi us c vs free v in
    let roomy = (beside lo hi us c vs free v).roomy in
    let header = header_of_lem c.addr hi (omega arith) wide in
    let (b, e, r) =
      release_block-Release lo hi us c vs free v a (list_fuel heap) rep
        (short_of_fuel heap free (us ++ c ∷ vs) v) in
    (
      b,
      rw (ne→== (c.addr + size_of_mem_elem) null (omega arith), header, e),
      r,
      coalesced-IsValid lo hi us c vs free v,
    )
