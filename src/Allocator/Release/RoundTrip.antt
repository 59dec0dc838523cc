-- ===== src/Allocator/Release/RoundTrip.antt =====
-- mem_free undoes mem_alloc.
use os1_project.Prelude.{ℕ, ◌-◌, ◌*◌, ◌≤◌, ◌≡◌, refl, ap, ◌⊎◌, List, [], ◌∷◌, ◌++◌, arith}
use os1_project.Allocator.{mem_block_size, size_of_mem_elem}
use os1_project.Allocator.Blocks.{Block, end_of, Ordered, Ordered-le}
use os1_project.Allocator.Spec.{below, from, remainder, used}
use os1_project.Allocator.Release.Coalesce.{glue, glue_last, IsSeparated}

pub below-append :
    (us vs : List Block) (p lo hi : ℕ) → Ordered lo us p → Ordered p vs hi → below p (us ++ vs) ≡ us
unfolding below
below-append [] [] p lo hi h k = refl
below-append [] (v ∷ vs) p lo hi h k = ground arith
below-append (u ∷ us) vs p lo hi h k =
    ground (arith, Ordered-le us (end_of u) p h.2, below-append us vs p (end_of u) hi h.2 k)

pub from-append :
    (us vs : List Block) (p lo hi : ℕ) → Ordered lo us p → Ordered p vs hi → from p (us ++ vs) ≡ vs
unfolding from
from-append [] [] p lo hi h k = refl
from-append [] (v ∷ vs) p lo hi h k = ground arith
from-append (u ∷ us) vs p lo hi h k =
    ground (arith, Ordered-le us (end_of u) p h.2, from-append us vs p (end_of u) hi h.2 k)

-- The used part and the remainder make the block again.
pub glue-remainder :
    (needed : ℕ) (b : Block) (vs : List Block)
    → needed * mem_block_size ≤ b.size
    → (b.size ≡ needed * mem_block_size) ⊎ (size_of_mem_elem ≤ b.size - needed * mem_block_size)
    → IsSeparated (b ∷ vs)
    → glue (used needed b) (remainder needed b ++ vs) ≡ b ∷ vs
unfolding glue
glue-remainder needed b [] h k s = ground arith
glue-remainder needed b (v ∷ vs) h k s = ground arith

pub glue_last-separated :
    (us : List Block) (b : Block) (vs : List Block)
    → IsSeparated (us ++ b ∷ vs)
    → glue_last us (b ∷ vs) ≡ us ++ b ∷ vs
unfolding glue_last glue
glue_last-separated [] b vs s = refl
glue_last-separated (u ∷ []) b vs s = ground arith
glue_last-separated (u ∷ w ∷ us) b vs s = ap (◌∷◌ u) (glue_last-separated (w ∷ us) b vs s.1)
