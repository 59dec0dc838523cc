-- ===== src/Allocator/Release/Coalesce.antt =====
-- What mem_free promises on lists of blocks: the block enters the free list at its address and is
-- joined with the neighbours that it touches.
use os1_project.Prelude.{
  ℕ, ◌+◌, ◌≤◌, ◌<◌, ◌≡◌, refl, ap, ◌⊎◌, inl, inr, List, [], ◌∷◌, ◌++◌, arith, All, ◌==◌,
  if◌then◌else◌, Bool-cases, ==_iff,
}
use os1_project.Allocator.{Ptr, size_of_mem_elem}
use os1_project.Allocator.Blocks.{Block, block, end_of, Ordered, Apart, AllApart, first}
use os1_project.Allocator.Spec.{below, from}

-- A block in front of a list, joined with the first of the list if the two touch.
unfoldable pub glue : Block → List Block → List Block
glue b [] = b ∷ []
glue b (c ∷ cs) = if end_of b == c.addr then block b.addr (b.size + c.size) ∷ cs else b ∷ c ∷ cs

-- The same behind a list: its last block is joined with what follows.
unfoldable pub glue_last : List Block → List Block → List Block
glue_last [] cs = cs
glue_last (b ∷ []) cs = glue b cs
glue_last (b ∷ c ∷ bs) cs = b ∷ glue_last (c ∷ bs) cs

abbrev pub coalesce : Block → List Block → List Block
coalesce c bs = glue_last (below c.addr bs) (glue c (from c.addr bs))

pub glue_last-snoc :
    (bs : List Block) (b : Block) (cs : List Block) → glue_last (bs ++ b ∷ []) cs ≡ bs ++ glue b cs
unfolding glue_last
glue_last-snoc [] b cs = refl
glue_last-snoc (a ∷ []) b cs = refl
glue_last-snoc (a ∷ d ∷ bs) b cs = ap (◌∷◌ a) (glue_last-snoc (d ∷ bs) b cs)

-- A list is empty, or has a last element.
pub last_cases :
    (bs : List Block) → (bs ≡ []) ⊎ ((front : List Block) × (b : Block) × (bs ≡ front ++ b ∷ []))
last_cases [] = inl refl
last_cases (b ∷ bs) = inr (grow b (last_cases bs))
  where
    grow :
        (a : Block)
        → (bs ≡ []) ⊎ ((front : List Block) × (b : Block) × (bs ≡ front ++ b ∷ []))
        → (front : List Block) × (b : Block) × (a ∷ bs ≡ front ++ b ∷ [])
    grow a (inl e) = ([], a, ap (◌∷◌ a) e)
    grow a (inr (front, b, e)) = (a ∷ front, b, ap (◌∷◌ a) e)

pub glue-Ordered :
    (b : Block) (bs : List Block) (lo hi : ℕ) → Ordered lo (b ∷ bs) hi → Ordered lo (glue b bs) hi
unfolding glue
glue-Ordered b [] lo hi h = h
glue-Ordered b (c ∷ cs) lo hi h = ground arith

pub glue-Apart :
    (b : Block) (bs cs : List Block)
    → AllApart (b ∷ bs) cs
    → All (λ c. size_of_mem_elem ≤ c.size) cs
    → AllApart (glue b bs) cs
unfolding glue
glue-Apart b [] cs h w = h
glue-Apart b (c ∷ bs) cs h w = elim (Bool-cases (end_of b == c.addr)) [
  | inl e ↦ rw e (joined cs ((==_iff _ _).0 e) h.0 h.1.0 w, h.1.1)
  | inr e ↦ rw e h
]
  where
    joined :
        (ds : List Block)
        → end_of b ≡ c.addr
        → All (Apart b) ds
        → All (Apart c) ds
        → All (λ d. size_of_mem_elem ≤ d.size) ds
        → All (Apart (block b.addr (b.size + c.size))) ds
    joined [] e h k z = tt
    joined (d ∷ ds) e h k z = (omega arith, joined ds e h.1 k.1 z.1)

pub glue-head : (b : Block) (bs : List Block) (p : Ptr) → first (glue b bs) p ≡ b.addr
unfolding glue
glue-head b [] p = refl
glue-head b (c ∷ cs) p = ground arith

-- No two neighbours of the list touch.
abbrev pub IsSeparated : List Block → Type 0
IsSeparated [] = Unit
IsSeparated (b ∷ []) = Unit
IsSeparated (b ∷ c ∷ bs) = (end_of b < c.addr) × IsSeparated (c ∷ bs)

pub sizes-ge :
    (bs : List Block) (lo hi : ℕ) → Ordered lo bs hi → All (λ b. size_of_mem_elem ≤ b.size) bs
sizes-ge [] lo hi h = tt
sizes-ge (b ∷ bs) lo hi h = (h.1, sizes-ge bs (end_of b) hi h.2)
