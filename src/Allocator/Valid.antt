-- ===== src/Allocator/Valid.antt =====
-- Consequences of order and of not overlapping.
use os1_project.Prelude.{ℕ, ◌≤◌, ◌<◌, inl, inr, List, [], ◌∷◌, ◌++◌, arith, All, All-append}
use os1_project.Allocator.{Ptr, size_of_mem_elem}
use os1_project.Allocator.Blocks.{
  Block, end_of, Ordered, Ordered-mono, Ordered-split, Ordered-append, Ordered-le, Avoids, Apart,
  AllApart, first, last,
}
use os1_project.Allocator.Spec.{
  IsValid, below, from, insert, All-below, All-from, below-Ordered, from-Ordered,
}
use os1_project.Allocator.Splice.{Around}

All-map {ℓ κ} :
    {P : Block → Type ℓ} {Q : Block → Type κ} (bs : List Block)
    → ((b : Block) → P b → Q b)
    → All P bs
    → All Q bs
All-map [] f h = tt
All-map (b ∷ bs) f h = (f b h.0, All-map bs f h.1)

pub last-All {ℓ} :
    (P : Ptr → Type ℓ) (bs : List Block) (p : Ptr) → P p → All (λ b. P b.addr) bs → P (last p bs)
last-All P [] p h a = h
last-All P (b ∷ bs) p h a = last-All P bs b.addr a.0 a.1

pub first-All {ℓ} :
    (P : Ptr → Type ℓ) (bs : List Block) (p : Ptr) → P p → All (λ b. P b.addr) bs → P (first bs p)
first-All P [] p h a = h
first-All P (b ∷ bs) p h a = a.0

pub Apart-below :
    (bs : List Block) (b : Block) (lo hi : ℕ)
    → Ordered lo bs hi
    → hi ≤ b.addr
    → All (λ c. Apart c b) bs
Apart-below [] b lo hi h k = tt
Apart-below (c ∷ cs) b lo hi h k =
    (inl (omega (arith, Ordered-le cs (end_of c) hi h.2)), Apart-below cs b (end_of c) hi h.2 k)

pub Apart-above :
    (bs : List Block) (b : Block) (lo hi : ℕ)
    → Ordered lo bs hi
    → end_of b ≤ lo
    → All (λ c. Apart c b) bs
Apart-above [] b lo hi h k = tt
Apart-above (c ∷ cs) b lo hi h k =
    (inr (omega arith), Apart-above cs b (end_of c) hi h.2 (omega arith))

Apart-comm : (b c : Block) → Apart b c → Apart c b
Apart-comm b c (inl h) = inr h
Apart-comm b c (inr h) = inl h

pub All-Apart_comm : (b : Block) (cs : List Block) → All (λ c. Apart c b) cs → All (Apart b) cs
All-Apart_comm b cs = All-map cs (λ c. Apart-comm c b)

-- What a block overlaps not, a part of it overlaps not.
pub Apart-within :
    (b c : Block) (cs : List Block)
    → b.addr ≤ c.addr
    → end_of c ≤ end_of b
    → All (Apart b) cs
    → All (Apart c) cs
Apart-within b c cs h k = All-map cs λ d a. omega arith

-- Blocks that do not overlap have headers of their own.
pub Avoids_of_Apart :
    (bs : List Block) (b : Block) (lo hi : ℕ)
    → Ordered lo bs hi
    → 0 < b.size
    → All (Apart b) bs
    → Avoids b.addr bs
Avoids_of_Apart [] b lo hi h z a = tt
Avoids_of_Apart (c ∷ cs) b lo hi h z a = (omega arith, Avoids_of_Apart cs b (end_of c) hi h.2 z a.1)

pub distinct :
    (bs cs : List Block) (lo hi lo' hi' : ℕ)
    → Ordered lo bs hi
    → Ordered lo' cs hi'
    → AllApart bs cs
    → All (λ b. Avoids b.addr cs) bs
distinct [] cs lo hi lo' hi' h k a = tt
distinct (b ∷ bs) cs lo hi lo' hi' h k a = (
  Avoids_of_Apart cs b lo' hi' k (omega arith) a.0,
  distinct bs cs (end_of b) hi lo' hi' h.2 k a.1,
)

AllApart-nil : (cs : List Block) → AllApart cs []
AllApart-nil [] = tt
AllApart-nil (c ∷ cs) = (tt, AllApart-nil cs)

AllApart-cons :
    (b : Block) (bs cs : List Block)
    → All (λ c. Apart c b) cs
    → AllApart cs bs
    → AllApart cs (b ∷ bs)
AllApart-cons b bs [] h a = tt
AllApart-cons b bs (c ∷ cs) h a = ((h.0, a.0), AllApart-cons b bs cs h.1 a.1)

pub AllApart-comm : (bs cs : List Block) → AllApart bs cs → AllApart cs bs
AllApart-comm [] cs a = AllApart-nil cs
AllApart-comm (b ∷ bs) cs a =
    AllApart-cons b bs cs (All-map cs (Apart-comm b) a.0) (AllApart-comm bs cs a.1)

-- The parts of an ordered list around one of its blocks.
pub Around-parts :
    (us : List Block) (b : Block) (vs : List Block) (lo hi : ℕ)
    → 0 < lo
    → Ordered lo (us ++ b ∷ vs) hi
    → Around us b vs lo hi
Around-parts us b vs lo hi z h =
    let (mid, l, r) = Ordered-split us (b ∷ vs) lo hi h in
    record {
      positive = z;
      below = Ordered-mono us lo mid lo b.addr l (omega arith) r.0;
      roomy = r.1;
      above = r.2;
    }

pub Around-insert :
    (c : Block) (bs : List Block) (lo hi : ℕ)
    → 0 < lo
    → Ordered lo bs hi
    → All (Apart c) bs
    → size_of_mem_elem ≤ c.size
    → lo ≤ c.addr
    → end_of c ≤ hi
    → Around (below c.addr bs) c (from c.addr bs) lo hi
Around-insert c bs lo hi z h a r l e = record {
  positive = z;
  below = below-Ordered bs c lo hi h a l;
  roomy = r;
  above = from-Ordered bs c lo hi h a (omega arith) e;
}

pub Ordered_of_Around :
    (us : List Block) (b : Block) (vs : List Block) (lo hi : ℕ)
    → Around us b vs lo hi
    → Ordered lo (us ++ b ∷ vs) hi
Ordered_of_Around us b vs lo hi w =
    Ordered-append us (b ∷ vs) lo b.addr hi w.below (omega arith, w.roomy, w.above)

pub AllApart-insert :
    (bs : List Block) (c : Block) (cs : List Block)
    → AllApart bs cs
    → All (λ b. Apart b c) bs
    → AllApart bs (insert c cs)
AllApart-insert [] c cs a h = tt
AllApart-insert (b ∷ bs) c cs a h = (
  All-append (Apart b) (below c.addr cs) (c ∷ from c.addr cs) (All-below (Apart b) c.addr cs a.0)
      (h.0, All-from (Apart b) c.addr cs a.0),
  AllApart-insert bs c cs a.1 h.1,
)

-- A block that overlaps nothing may enter the free list at its place.
pub insert-IsValid :
    (c : Block) (free full : List Block) (lo hi : ℕ)
    → IsValid lo hi (record { free = free; full = full })
    → size_of_mem_elem ≤ c.size
    → lo ≤ c.addr
    → end_of c ≤ hi
    → All (Apart c) free
    → All (λ d. Apart d c) full
    → IsValid lo hi (record { free = insert c free; full = full })
insert-IsValid c free full lo hi v roomy lower upper a b = record {
  positive = v.positive;
  free_ordered =
      Ordered_of_Around _ c _ lo hi
        (Around-insert c free lo hi v.positive v.free_ordered a roomy lower upper);
  full_ordered = v.full_ordered;
  apart =
      AllApart-comm full (insert c free)
        (AllApart-insert full c free (AllApart-comm free full v.apart) b);
}
