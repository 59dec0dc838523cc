-- ===== src/Allocator/Insert.antt =====
-- The two ordered insertions, of mem_alloc and of mem_free, make the links of `splice`.
use os1_project.Prelude.{
  ℕ, zero, suc, ◌≤◌, ◌<◌, ◌≡◌, ◌≢◌, refl, sym, ap, ◌∙◌, inl, inr, some, List, [], ◌∷◌, ◌++◌, arith,
  length, ltb, Bool-cases, ne→==,
}
use mathlib.Core.Path.{fun_ext}
use os1_project.Allocator.{
  Ptr, null, Cells, MemoryAllocator, write, link_next, link_prev, put_only, put_first, put_after,
  find_place, insert_full,
}
use os1_project.Allocator.Blocks.{Block, Avoids, first, last, first-append}
use os1_project.Allocator.Seg.{elem, Seg, Seg-last_next, Seg-split}
use os1_project.Allocator.Spec.{below, from, insert, below-append-from, All-below}
use os1_project.Allocator.Splice.{splice}

-- The walk from the first block ends at the last block below the address.
pub find_place-last :
    (bs : List Block) (b : Block) (fuel : ℕ) (m : Cells) (start p : Ptr)
    → Seg m start (b ∷ bs) null
    → Avoids null bs
    → length bs < fuel
    → find_place fuel m p b.addr ≡ some (last b.addr (below p bs))
unfolding find_place below
find_place-last bs b zero m start p s z h = absurd (omega arith)
find_place-last [] b (suc fuel) m start p s z h = rw s.0
find_place-last (c ∷ cs) b (suc fuel) m start p s z h =
    rw (s.0, ne→== c.addr null z.0)
      (elim (Bool-cases (ltb c.addr p)) [
        | inl e ↦ rw e (find_place-last cs c fuel m b.addr p s.1 z.1 (omega arith))
        | inr e ↦ rw e
      ])

-- A header that carries its size already is linked in by each of the three ways.
pub put_only-splice :
    (m : Cells) (c : Block) → (m c.addr).size ≡ c.size → put_only m c.addr ≡ splice m [] c []
unfolding put_only link_next link_prev write
put_only-splice m c e = fun_ext λ q. ground arith

pub put_first-splice :
    (m : Cells) (c b : Block) (bs : List Block)
    → (m c.addr).size ≡ c.size
    → b.addr ≢ null
    → put_first m b.addr c.addr ≡ splice m [] c (b ∷ bs)
unfolding put_first link_next link_prev write
put_first-splice m c b bs e z = fun_ext λ q. ground arith

pub put_after-splice :
    (m : Cells) (c : Block) (us vs : List Block) (p : Ptr)
    → (m c.addr).size ≡ c.size
    → last null us ≡ p
    → (m p).next ≡ first vs null
    → p ≢ null
    → p ≢ c.addr
    → put_after m p c.addr ≡ splice m us c vs
unfolding put_after link_next link_prev write
put_after-splice m c us vs p e l n z d = fun_ext λ q. ground arith

-- The parts of an ordered list around an address that is not above its first header.
pub below_head : (p : Ptr) (b : Block) (bs : List Block) → p ≤ b.addr → below p (b ∷ bs) ≡ []
unfolding below
below_head p b bs h = ground arith

pub from_head : (p : Ptr) (b : Block) (bs : List Block) → p ≤ b.addr → from p (b ∷ bs) ≡ b ∷ bs
unfolding from
from_head p b bs h = ground arith

pub below_tail :
    (p : Ptr) (b : Block) (bs : List Block) → b.addr < p → below p (b ∷ bs) ≡ b ∷ below p bs
unfolding below
below_tail p b bs h = ground arith

pub from_tail : (p : Ptr) (b : Block) (bs : List Block) → b.addr < p → from p (b ∷ bs) ≡ from p bs
unfolding from
from_tail p b bs h = ground arith

-- What a list holds at the last header below an address.
pub last_below-next :
    (p : Ptr) (b : Block) (bs : List Block) (m : Cells)
    → Seg m null (b ∷ bs) null
    → (m (last b.addr (below p bs))).next ≡ first (from p bs) null
last_below-next p b bs m s = Seg-last_next (below p bs) b m null (first (from p bs) null) (
  s.0 ∙ ap (λ q. elem q null b.size) front,
  (Seg-split (below p bs) (from p bs) m b.addr null cut).0,
)
  where
    cut : Seg m b.addr (below p bs ++ from p bs) null
    cut = rw (below-append-from p bs) s.1

    front : first bs null ≡ first (below p bs) (first (from p bs) null)
    front =
        ap (λ l. first l null) (sym (below-append-from p bs))
        ∙ first-append (below p bs) (from p bs) null

pub last_ne : (p : Ptr) (b : Block) (bs : List Block) → Avoids p (b ∷ bs) → last b.addr bs ≢ p
last_ne p b [] h = h.0
last_ne p b (c ∷ cs) h = last_ne p c cs h.1

pub last_below_ne :
    (p q : Ptr) (b : Block) (bs : List Block) → Avoids p (b ∷ bs) → last b.addr (below q bs) ≢ p
last_below_ne p q b bs h = last_ne p b (below q bs) (h.0, All-below (λ d. d.addr ≢ p) q bs h.1)

module _ (c : Block) (a : MemoryAllocator) (sized : (a.cells c.addr).size ≡ c.size) where
  pub insert_full-splice :
      (bs : List Block) (fuel : ℕ)
      → a.full_head ≡ first bs null
      → Seg a.cells null bs null
      → Avoids null bs
      → Avoids c.addr bs
      → length bs < fuel
      → insert_full fuel a c.addr
        ≡ some (record a {
          cells = splice a.cells (below c.addr bs) c (from c.addr bs);
          full_head = first (insert c bs) null;
        })
  unfolding insert_full
  insert_full-splice [] fuel hd s z d h =
      unfold below from in rw (hd, put_only-splice a.cells c sized)
  insert_full-splice (b ∷ bs) fuel hd s z d h =
      rw (hd, ne→== b.addr null z.0)
        (elim (Bool-cases (ltb c.addr b.addr)) [
          | inl e ↦
              let le : c.addr ≤ b.addr = ground arith in
              rw (
                e,
                below_head c.addr b bs le,
                from_head c.addr b bs le,
                put_first-splice a.cells c b bs sized z.0,
              )
          | inr e ↦
              let lt : b.addr < c.addr = ground (arith, d.0) in
              rw
                (
                  e,
                  below_tail c.addr b bs lt,
                  from_tail c.addr b bs lt,
                  find_place-last bs b fuel a.cells null c.addr s z.1 (omega arith),
                )
                (rw (
                  put_after-splice a.cells c (b ∷ below c.addr bs) (from c.addr bs)
                    (last b.addr (below c.addr bs)) sized refl
                    (last_below-next c.addr b bs a.cells s) (last_below_ne null c.addr b bs z)
                    (last_below_ne c.addr c.addr b bs d)))
        ])
