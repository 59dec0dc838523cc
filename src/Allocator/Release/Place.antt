-- ===== src/Allocator/Release/Place.antt =====
-- The three branches of mem_free behind the unlinking.
use os1_project.Prelude.{
  ℕ, ◌<◌, ◌≡◌, ◌≢◌, refl, some, List, [], ◌∷◌, ◌++◌, arith, length, ne→==, lt→ltb, le→ltb,
}
use mathlib.Core.Path.{fun_ext}
use os1_project.Allocator.{Ptr, null, Cells, MemoryAllocator, write, link_next, link_prev}
use os1_project.Allocator.Blocks.{Block, Avoids, first, last}
use os1_project.Allocator.Seg.{Seg}
use os1_project.Allocator.Spec.{below, from}
use os1_project.Allocator.Splice.{splice}
use os1_project.Allocator.Insert.{
  find_place-last, put_only-splice, put_first-splice, last_below-next, last_below_ne,
}
use os1_project.Allocator.Release.{join_blocks, place_free, place_block}

-- Both branches behind the search make the same links.
place_free-splice :
    (m : Cells) (c : Block) (us vs : List Block) (p : Ptr)
    → (m c.addr).size ≡ c.size
    → last null us ≡ p
    → (m p).next ≡ first vs null
    → p ≢ null
    → p ≢ c.addr
    → place_free m p c.addr ≡ splice m us c vs
unfolding place_free link_next link_prev write
place_free-splice m c us vs p e l n z d = fun_ext λ q. ground arith

module _ (c : Block) (a : MemoryAllocator) where
  -- With the block between the two parts of the free list, before anything is joined.
  abbrev pub placed : List Block → List Block → MemoryAllocator
  placed us vs = record a { cells = splice a.cells us c vs; free_head = first (us ++ c ∷ vs) null }

  unfoldable pub next_joined : List Block → List Block → MemoryAllocator
  next_joined us vs = (join_blocks (placed us vs) c.addr ((placed us vs).cells c.addr).next).0

  unfoldable pub both_joined : List Block → List Block → MemoryAllocator
  unfolding next_joined
  both_joined us vs =
      (join_blocks (next_joined us vs) ((next_joined us vs).cells c.addr).prev c.addr).0

module _ (c : Block) (a : MemoryAllocator) (sized : (a.cells c.addr).size ≡ c.size) (fuel : ℕ) where
  pub place_empty : a.free_head ≡ null → place_block fuel a c.addr ≡ some (placed c a [] [])
  unfolding place_block
  place_empty head = rw (head, put_only-splice a.cells c sized)

  pub place_first :
      (b : Block) (bs : List Block)
      → a.free_head ≡ b.addr
      → b.addr ≢ null
      → c.addr < b.addr
      → place_block fuel a c.addr ≡ some (next_joined c a [] (b ∷ bs))
  unfolding place_block next_joined
  place_first b bs head z lt =
      rw (
        head,
        ne→== b.addr null z,
        lt→ltb c.addr b.addr lt,
        put_first-splice a.cells c b bs sized z,
      )

  pub place_later :
      (b : Block) (bs : List Block)
      → a.free_head ≡ b.addr
      → Seg a.cells null (b ∷ bs) null
      → Avoids null (b ∷ bs)
      → Avoids c.addr (b ∷ bs)
      → b.addr < c.addr
      → length bs < fuel
      → place_block fuel a c.addr ≡ some (both_joined c a (b ∷ below c.addr bs) (from c.addr bs))
  unfolding place_block both_joined
  place_later b bs head s z d lt short = rw (
    head,
    ne→== b.addr null z.0,
    le→ltb c.addr b.addr (omega arith),
    find_place-last bs b fuel a.cells null c.addr s z.1 short,
    place_free-splice a.cells c (b ∷ below c.addr bs) (from c.addr bs)
        (last b.addr (below c.addr bs)) sized refl (last_below-next c.addr b bs a.cells s)
        (last_below_ne null c.addr b bs z) (last_below_ne c.addr c.addr b bs d),
  )
