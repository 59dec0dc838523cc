-- ===== src/Allocator/Spec.antt =====
-- What the allocator promises, on lists of blocks: first fit, and coalescing of free neighbours.
use os1_project.Prelude.{
  ℕ, ◌+◌, ◌-◌, ◌*◌, ◌/◌, ◌≤◌, ◌<◌, ◌≡◌, refl, Bool, true, false, Option, none, some, List, [], ◌∷◌,
  ◌++◌, arith, All, ltb, leb, if◌then◌else◌, ◌>>=◌,
}
use os1_project.Allocator.{Ptr, mem_block_size, size_of_mem_elem}
use os1_project.Allocator.Blocks.{Block, block, end_of, Ordered, Apart, AllApart}

pub record Store : Type 0 where
  pub free : List Block
  pub full : List Block

pub record Fit : Type 0 where
  pub before : List Block
  pub found : Block
  pub after : List Block

abbrev pub fits : ℕ → Block → Bool
fits needed b = leb needed (b.size / mem_block_size)

-- The first free block with room for that many blocks of memory, and what stands around it.
unfoldable pub first_fit : ℕ → List Block → Option Fit
first_fit needed [] = none
first_fit needed (b ∷ bs) =
    let rest = first_fit needed bs >>= λ f. some (record f { before = b ∷ f.before }) in
    if fits needed b then some (record { before = []; found = b; after = bs }) else rest

abbrev pub used : ℕ → Block → Block
used needed b = block b.addr (needed * mem_block_size)

-- What stays free of a block; less than a header's size is lost.
abbrev pub remainder : ℕ → Block → List Block
remainder needed b =
    if leb size_of_mem_elem (b.size - needed * mem_block_size)
    then block (b.addr + needed * mem_block_size) (b.size - needed * mem_block_size) ∷ []
    else []

-- The blocks below an address.
unfoldable pub below : Ptr → List Block → List Block
below p [] = []
below p (b ∷ bs) = if ltb b.addr p then b ∷ below p bs else []

-- The others.
unfoldable pub from : Ptr → List Block → List Block
from p [] = []
from p (b ∷ bs) = if ltb b.addr p then from p bs else b ∷ bs

abbrev pub insert : Block → List Block → List Block
insert c bs = below c.addr bs ++ c ∷ from c.addr bs

abbrev pub allocated : ℕ → Store → Fit → Store
allocated needed s f = record {
  free = f.before ++ (remainder needed f.found ++ f.after);
  full = insert (used needed f.found) s.full;
}

-- Both lists lie in [lo, hi) in order, and no free block overlaps a full one.
pub record IsValid (lo hi : ℕ) (s : Store) : Type 0 where
  pub positive : 0 < lo
  pub free_ordered : Ordered lo s.free hi
  pub full_ordered : Ordered lo s.full hi
  pub apart : AllApart s.free s.full

pub below-append-from : (p : Ptr) (bs : List Block) → below p bs ++ from p bs ≡ bs
unfolding below from
below-append-from p [] = refl
below-append-from p (b ∷ bs) = ground (arith, below-append-from p bs)

pub All-below {ℓ} : (P : Block → Type ℓ) (p : Ptr) (bs : List Block) → All P bs → All P (below p bs)
unfolding below
All-below P p [] h = tt
All-below P p (b ∷ bs) h = elim (ltb b.addr p) as (λ t. All P (if t then b ∷ below p bs else [])) [
  | true ↦ (h.0, All-below P p bs h.1)
  | false ↦ tt
]

pub All-from {ℓ} : (P : Block → Type ℓ) (p : Ptr) (bs : List Block) → All P bs → All P (from p bs)
unfolding from
All-from P p [] h = tt
All-from P p (b ∷ bs) h = elim (ltb b.addr p) as (λ t. All P (if t then from p bs else b ∷ bs)) [
  | true ↦ All-from P p bs h.1
  | false ↦ h
]

-- A block that overlaps none of a list lies between its two parts.
pub below-Ordered :
    (bs : List Block) (c : Block) (lo hi : ℕ)
    → Ordered lo bs hi
    → All (Apart c) bs
    → lo ≤ c.addr
    → Ordered lo (below c.addr bs) c.addr
unfolding below
below-Ordered [] c lo hi h a l = l
below-Ordered (b ∷ bs) c lo hi h a l =
    let rest = below-Ordered bs c (end_of b) hi h.2 a.1 in ground (arith, rest)

pub from-Ordered :
    (bs : List Block) (c : Block) (lo hi : ℕ)
    → Ordered lo bs hi
    → All (Apart c) bs
    → 0 < c.size
    → end_of c ≤ hi
    → Ordered (end_of c) (from c.addr bs) hi
unfolding from
from-Ordered [] c lo hi h a z l = l
from-Ordered (b ∷ bs) c lo hi h a z l =
    let rest = from-Ordered bs c (end_of b) hi h.2 a.1 z l in ground (arith, rest)
