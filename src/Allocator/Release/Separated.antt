-- ===== src/Allocator/Release/Separated.antt =====
-- Free blocks never touch: both operations keep the free list separated.
use os1_project.Prelude.{
  ℕ, ◌*◌, ◌≤◌, ◌<◌, ◌≡◌, refl, List, [], ◌∷◌, ◌++◌, arith, All, ltb, Bool-cases, inl, inr,
}
use os1_project.Allocator.{mem_block_size, size_of_mem_elem, Ptr}
use os1_project.Allocator.Blocks.{Block, end_of, Apart, Ordered, Ordered-mono, first}
use os1_project.Allocator.Spec.{below, from, remainder, below-Ordered, from-Ordered}
use os1_project.Allocator.Release.Coalesce.{
  glue, glue_last, glue-head, glue-Ordered, coalesce, IsSeparated,
}

pub IsSeparated-remainder :
    (us : List Block) (needed : ℕ) (b : Block) (vs : List Block)
    → needed * mem_block_size ≤ b.size
    → IsSeparated (us ++ b ∷ vs)
    → IsSeparated (us ++ (remainder needed b ++ vs))
IsSeparated-remainder [] needed b [] h s = ground arith
IsSeparated-remainder [] needed b (v ∷ vs) h s = ground arith
IsSeparated-remainder (u ∷ []) needed b [] h s = ground arith
IsSeparated-remainder (u ∷ []) needed b (v ∷ vs) h s = ground arith
IsSeparated-remainder (u ∷ w ∷ us) needed b vs h s =
    (s.0, IsSeparated-remainder (w ∷ us) needed b vs h s.1)

-- The glued list begins where the block does, and is separated if the rest lies behind it.
IsSeparated-glue :
    (c : Block) (ds : List Block) (hi : ℕ)
    → Ordered (end_of c) ds hi
    → IsSeparated ds
    → IsSeparated (glue c ds)
unfolding glue
IsSeparated-glue c [] hi o s = tt
IsSeparated-glue c (d ∷ []) hi o s = ground arith
IsSeparated-glue c (d ∷ e ∷ ds) hi o s = ground arith

cons-IsSeparated :
    (u : Block) (l : List Block) (q : Ptr)
    → first l q ≡ q
    → end_of u < q
    → IsSeparated l
    → IsSeparated (u ∷ l)
cons-IsSeparated u [] q f h s = tt
cons-IsSeparated u (x ∷ l) q f h s = (omega arith, s)

glue_last-head : (w : Block) (us ds : List Block) → first (glue_last (w ∷ us) ds) w.addr ≡ w.addr
unfolding glue_last
glue_last-head w [] ds = glue-head w ds w.addr
glue_last-head w (v ∷ us) ds = refl

IsSeparated-glue_last :
    (us ds : List Block) (lo p hi : ℕ)
    → Ordered lo us p
    → Ordered p ds hi
    → IsSeparated us
    → IsSeparated ds
    → IsSeparated (glue_last us ds)
unfolding glue_last
IsSeparated-glue_last [] ds lo p hi o q s t = t
IsSeparated-glue_last (u ∷ []) ds lo p hi o q s t =
    IsSeparated-glue u ds hi (Ordered-mono ds p hi (end_of u) hi q o.2 (omega arith)) t
IsSeparated-glue_last (u ∷ w ∷ us) ds lo p hi o q s t =
    cons-IsSeparated u (glue_last (w ∷ us) ds) w.addr (glue_last-head w us ds) s.0
      (IsSeparated-glue_last (w ∷ us) ds (end_of u) p hi o.2 q s.1 t)

below-head : (p : Ptr) (b : Block) (bs : List Block) → first (below p (b ∷ bs)) b.addr ≡ b.addr
unfolding below
below-head p b bs = ground arith

IsSeparated-below : (p : Ptr) (bs : List Block) → IsSeparated bs → IsSeparated (below p bs)
unfolding below
IsSeparated-below p [] s = tt
IsSeparated-below p (b ∷ []) s = ground arith
IsSeparated-below p (b ∷ c ∷ bs) s = elim (Bool-cases (ltb b.addr p)) [
  | inl e ↦ rw e (
      cons-IsSeparated b (below p (c ∷ bs)) c.addr (below-head p c bs) s.0
        (IsSeparated-below p (c ∷ bs) s.1))
  | inr e ↦ rw e tt
]

IsSeparated-from : (p : Ptr) (bs : List Block) → IsSeparated bs → IsSeparated (from p bs)
unfolding from
IsSeparated-from p [] s = tt
IsSeparated-from p (b ∷ []) s = ground arith
IsSeparated-from p (b ∷ c ∷ bs) s = elim (Bool-cases (ltb b.addr p)) [
  | inl e ↦ rw e (IsSeparated-from p (c ∷ bs) s.1)
  | inr e ↦ rw e s
]

pub coalesce-IsSeparated :
    (c : Block) (bs : List Block) (lo hi : ℕ)
    → Ordered lo bs hi
    → All (Apart c) bs
    → lo ≤ c.addr
    → size_of_mem_elem ≤ c.size
    → end_of c ≤ hi
    → IsSeparated bs
    → IsSeparated (coalesce c bs)
coalesce-IsSeparated c bs lo hi o a low room high s =
    let behind = from-Ordered bs c lo hi o a (omega arith) high in
    IsSeparated-glue_last (below c.addr bs) (glue c (from c.addr bs)) lo c.addr hi
      (below-Ordered bs c lo hi o a low)
      (glue-Ordered c (from c.addr bs) c.addr hi (omega arith, room, behind))
      (IsSeparated-below c.addr bs s)
      (IsSeparated-glue c (from c.addr bs) hi behind (IsSeparated-from c.addr bs s))
