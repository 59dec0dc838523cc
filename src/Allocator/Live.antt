-- ===== src/Allocator/Live.antt =====
-- The addresses that mem_alloc of src/MemoryAllocator.cpp has handed out, among the full blocks.
use os1_project.Prelude.{
  ℕ, ◌+◌, ◌≡◌, refl, ap, inl, inr, Bool, true, false, List, [], ◌∷◌, ◌++◌, arith, ◌==◌, ==_iff,
  ne→==, if◌then◌else◌, Bool-cases,
}
use os1_project.Allocator.{Ptr, size_of_mem_elem}
use os1_project.Allocator.Blocks.{Block, end_of, Avoids, Avoids_below, Avoids_above}
use os1_project.Allocator.Splice.{Around}

-- The address that a caller has of a block.
abbrev pub payload : Block → Ptr
payload b = b.addr + size_of_mem_elem

-- Whether the address is a caller's of one of the blocks.
abbrev pub holds : Ptr → List Block → Bool
holds p [] = false
holds p (b ∷ bs) = if p == payload b then true else holds p bs

pub holds-middle :
    (p : Ptr) (us : List Block) (c : Block) (vs : List Block)
    → holds p (us ++ c ∷ vs) ≡ (if p == payload c then true else holds p (us ++ vs))
holds-middle p [] c vs = refl
holds-middle p (u ∷ us) c vs = ground (arith, holds-middle p us c vs)

pub holds-Avoids : (c : Block) (bs : List Block) → Avoids c.addr bs → holds (payload c) bs ≡ false
holds-Avoids c [] a = refl
holds-Avoids c (b ∷ bs) a =
    rw (ne→== (payload c) (payload b) (omega (arith, a.0))) (holds-Avoids c bs a.1)

-- The block that an address is the caller's of, and what stands around it.
pub record Found (p : Ptr) (bs : List Block) : Type 0 where
  pub before : List Block
  pub found : Block
  pub after : List Block
  pub whole : bs ≡ before ++ found ∷ after
  pub at : p ≡ payload found

pub holds-Found : (p : Ptr) (bs : List Block) → holds p bs ≡ true → Found p bs
holds-Found p [] h = absurd (cc)
holds-Found p (b ∷ bs) h = elim (Bool-cases (p == payload b)) [
  | inl e ↦ record { before = []; found = b; after = bs; whole = refl; at = (==_iff _ _).0 e }
  | inr e ↦
      let r = holds-Found p bs (ground arith) in
      record {
        before = b ∷ r.before;
        found = r.found;
        after = r.after;
        whole = ap (◌∷◌ b) r.whole;
        at = r.at;
      }
]

Avoids-append : (p : Ptr) (us vs : List Block) → Avoids p us → Avoids p vs → Avoids p (us ++ vs)
Avoids-append p [] vs a b = b
Avoids-append p (u ∷ us) vs a b = (a.0, Avoids-append p us vs a.1 b)

-- No other block of an ordered list has the address of a block.
pub Around-Avoids :
    (us : List Block) (c : Block) (vs : List Block) (lo hi : ℕ)
    → Around us c vs lo hi
    → Avoids c.addr (us ++ vs)
Around-Avoids us c vs lo hi w =
    Avoids-append c.addr us vs (Avoids_above us lo c.addr c.addr w.below (omega arith))
      (Avoids_below vs (end_of c) hi c.addr w.above (omega (arith, w.roomy)))
