-- ===== src/Allocator/Blocks.antt =====
-- The blocks that a list of headers stands for, in the order of their addresses.
use os1_project.Prelude.{
  ℕ, ◌+◌, ◌≤◌, ◌<◌, ◌≡◌, refl, ◌≢◌, ◌⊎◌, inl, inr, List, [], ◌∷◌, ◌++◌, arith, All, length,
}
use os1_project.Allocator.{Ptr, null, size_of_mem_elem}

pub record Block : Type 0 where
  pub addr : Ptr
  pub size : ℕ

abbrev pub block : Ptr → ℕ → Block
block p s = record { addr = p; size = s }

abbrev pub end_of : Block → ℕ
end_of b = b.addr + b.size

-- The blocks lie in [lo, hi), in order and without overlap, and each has room for its header.
abbrev pub Ordered : ℕ → List Block → ℕ → Type 0
Ordered lo [] hi = lo ≤ hi
Ordered lo (b ∷ bs) hi = (lo ≤ b.addr) × (size_of_mem_elem ≤ b.size) × Ordered (end_of b) bs hi

-- No block of the list has its header at the address.
abbrev pub Avoids : Ptr → List Block → Type 0
Avoids p = All λ b. b.addr ≢ p

-- The two blocks do not overlap.
abbrev pub Apart : Block → Block → Type 0
Apart b c = (end_of b ≤ c.addr) ⊎ (end_of c ≤ b.addr)

abbrev pub AllApart : List Block → List Block → Type 0
AllApart bs cs = All (λ b. All (Apart b) cs) bs

-- The address of the first block, or `stop`; the address of the last, or `start`.
abbrev pub first : List Block → Ptr → Ptr
first [] stop = stop
first (b ∷ bs) stop = b.addr

abbrev pub last : Ptr → List Block → Ptr
last start [] = start
last start (b ∷ bs) = last b.addr bs

pub Ordered-le : (bs : List Block) (lo hi : ℕ) → Ordered lo bs hi → lo ≤ hi
Ordered-le [] lo hi h = h
Ordered-le (b ∷ bs) lo hi h = omega (arith, Ordered-le bs (end_of b) hi h.2)

pub Ordered-mono :
    (bs : List Block) (lo hi lo' hi' : ℕ)
    → Ordered lo bs hi
    → lo' ≤ lo
    → hi ≤ hi'
    → Ordered lo' bs hi'
Ordered-mono [] lo hi lo' hi' h p q = omega arith
Ordered-mono (b ∷ bs) lo hi lo' hi' h p q =
    (omega arith, h.1, Ordered-mono bs (end_of b) hi (end_of b) hi' h.2 (omega arith) q)

pub Ordered-append :
    (bs cs : List Block) (lo mid hi : ℕ)
    → Ordered lo bs mid
    → Ordered mid cs hi
    → Ordered lo (bs ++ cs) hi
Ordered-append [] cs lo mid hi h k = Ordered-mono cs mid hi lo hi k h (omega arith)
Ordered-append (b ∷ bs) cs lo mid hi h k = (h.0, h.1, Ordered-append bs cs (end_of b) mid hi h.2 k)

-- A list that is cut in two has a border between the parts.
pub Ordered-split :
    (bs cs : List Block) (lo hi : ℕ)
    → Ordered lo (bs ++ cs) hi
    → (mid : ℕ) × Ordered lo bs mid × Ordered mid cs hi
Ordered-split [] cs lo hi h = (lo, omega arith, h)
Ordered-split (b ∷ bs) cs lo hi h =
    let (mid, l, r) = Ordered-split bs cs (end_of b) hi h.2 in (mid, (h.0, h.1, l), r)

pub Avoids_below : (bs : List Block) (lo hi p : ℕ) → Ordered lo bs hi → p < lo → Avoids p bs
Avoids_below [] lo hi p h k = tt
Avoids_below (b ∷ bs) lo hi p h k = (omega arith, Avoids_below bs (end_of b) hi p h.2 (omega arith))

pub Avoids_above : (bs : List Block) (lo hi p : ℕ) → Ordered lo bs hi → hi ≤ p → Avoids p bs
Avoids_above [] lo hi p h k = tt
Avoids_above (b ∷ bs) lo hi p h k =
    (omega (arith, Ordered-le bs (end_of b) hi h.2), Avoids_above bs (end_of b) hi p h.2 k)

-- The last block starts behind the lower border and ends before the upper one.
pub last_bounds :
    (bs : List Block) (lo hi start : ℕ) (b : Block)
    → Ordered lo (b ∷ bs) hi
    → (lo ≤ last start (b ∷ bs)) × (last start (b ∷ bs) < hi)
last_bounds [] lo hi start b h = omega arith
last_bounds (c ∷ cs) lo hi start b h =
    let (p, q) = last_bounds cs (end_of b) hi b.addr c h.2 in (omega arith, q)

pub length-le : (bs : List Block) (lo hi : ℕ) → Ordered lo bs hi → lo + length bs ≤ hi
length-le [] lo hi h = omega arith
length-le (b ∷ bs) lo hi h = omega (arith, length-le bs (end_of b) hi h.2)

pub first-append : (bs cs : List Block) (p : Ptr) → first (bs ++ cs) p ≡ first bs (first cs p)
first-append [] cs p = refl
first-append (b ∷ bs) cs p = refl

pub first_bound :
    (bs : List Block) (lo hi : ℕ)
    → Ordered lo bs hi
    → (first bs null ≡ null) ⊎ ((lo ≤ first bs null) × (first bs null < hi))
first_bound [] lo hi h = inl refl
first_bound (b ∷ bs) lo hi h = inr (h.0, omega (arith, Ordered-le bs (end_of b) hi h.2))

pub last_bound :
    (bs : List Block) (lo hi : ℕ)
    → Ordered lo bs hi
    → (last null bs ≡ null) ⊎ ((lo ≤ last null bs) × (last null bs < hi))
last_bound [] lo hi h = inl refl
last_bound (b ∷ bs) lo hi h = inr (last_bounds bs lo hi null b h)

-- A list that lies above or below another has none of its headers.
pub Avoids-first :
    (bs cs : List Block) (lo mid hi : ℕ)
    → Ordered lo bs mid
    → Ordered mid cs hi
    → 0 < lo
    → Avoids (first cs null) bs
Avoids-first bs cs lo mid hi h k z = elim (first_bound cs mid hi k) [
  | inl e ↦ rw e (Avoids_below bs lo mid 0 h z)
  | inr e ↦ Avoids_above bs lo mid (first cs null) h e.0
]

pub Avoids-last :
    (bs cs : List Block) (lo mid hi : ℕ)
    → Ordered lo bs mid
    → Ordered mid cs hi
    → 0 < lo
    → Avoids (last null bs) cs
Avoids-last bs cs lo mid hi h k z = elim (last_bound bs lo mid h) [
  | inl e ↦ rw e (Avoids_below cs mid hi 0 k (omega (arith, Ordered-le bs lo mid h)))
  | inr e ↦ Avoids_below cs mid hi (last null bs) k e.1
]
