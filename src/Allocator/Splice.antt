-- ===== src/Allocator/Splice.antt =====
-- The links that put a block between two parts of a list, and those that take one out.
use os1_project.Prelude.{ℕ, ◌≤◌, ◌<◌, ◌≡◌, ◌≢◌, inl, inr, List, ◌∷◌, ◌++◌, arith}
use mathlib.Core.Path.{fun_ext}
use os1_project.Allocator.{Ptr, null, Cells, size_of_mem_elem, write, link_next, link_prev}
use os1_project.Allocator.Blocks.{
  Block, Ordered, Ordered-mono, Ordered-le, Avoids, Avoids_below, Avoids_above, first, last, end_of,
  first_bound, last_bound, Avoids-first, Avoids-last,
}
use os1_project.Allocator.Seg.{
  elem, Seg, write_self, link_next_ne, link_prev_ne, Seg-write, Seg-link_next, Seg-link_prev,
  Seg-link_next_other, Seg-link_prev_other, Seg-append,
}

-- The block's header is written, and its neighbours are made to point at it.
abbrev pub splice : Cells → List Block → Block → List Block → Cells
splice m us c vs =
    let e = elem (first vs null) (last null us) c.size in
    link_next (link_prev (write m c.addr e) (first vs null) c.addr) (last null us) c.addr

-- The last block of one part and the first of the other are made to point at one another.
abbrev pub bridge : Cells → List Block → List Block → Cells
bridge m us vs =
    link_next (link_prev m (first vs null) (last null us)) (last null us) (first vs null)

-- The two guarded writes touch different fields, so their order does not matter.
pub link_comm :
    (m : Cells) (p q v w : Ptr) → link_prev (link_next m p v) q w ≡ link_next (link_prev m q w) p v
unfolding link_next link_prev write
link_comm m p q v w = fun_ext λ r. ground arith

-- Where each list lies beside the block.
pub record Around (us : List Block) (c : Block) (vs : List Block) (lo hi : ℕ) : Type 0 where
  pub positive : 0 < lo
  pub below : Ordered lo us c.addr
  pub roomy : size_of_mem_elem ≤ c.size
  pub above : Ordered (end_of c) vs hi

module _ (us : List Block) (c : Block) (vs : List Block) (lo hi : ℕ)
    (w : Around us c vs lo hi) where
  ordered_from : Ordered c.addr vs hi
  ordered_from = Ordered-mono vs (end_of c) hi c.addr hi w.above (omega arith) (omega arith)

  start-le : lo ≤ c.addr
  start-le = Ordered-le us lo c.addr w.below

  pub addr-ne-first : c.addr ≢ first vs null
  addr-ne-first = elim (first_bound vs (end_of c) hi w.above) [
    | inl e ↦ rw e (omega (arith, start-le, w.positive))
    | inr e ↦ omega (arith, w.roomy)
  ]

  pub addr-ne-last : c.addr ≢ last null us
  addr-ne-last = elim (last_bound us lo c.addr w.below) [
    | inl e ↦ rw e (omega (arith, start-le, w.positive))
    | inr e ↦ omega arith
  ]

  pub splice-Seg :
      (m : Cells) (p q : Ptr)
      → Seg m null us q
      → Seg m p vs null
      → Seg (splice m us c vs) null (us ++ c ∷ vs) null
  splice-Seg m p q s t = Seg-append us (c ∷ vs) m3 null null left (header, right)
    where
      m1 : Cells
      m1 = write m c.addr (elem (first vs null) (last null us) c.size)

      m2 : Cells
      m2 = link_prev m1 (first vs null) c.addr

      m3 : Cells
      m3 = link_next m2 (last null us) c.addr

      left : Seg m3 null us c.addr
      left =
          Seg-link_next us m2 q c.addr lo c.addr
            (Seg-link_prev_other us m1 null q (first vs null) c.addr
              (Avoids-first us vs lo c.addr hi w.below ordered_from w.positive)
              (Seg-write us m null q c.addr _
                (Avoids_above us lo c.addr c.addr w.below (omega arith)) s))
            w.below w.positive

      right : Seg m3 c.addr vs null
      right =
          Seg-link_next_other vs m2 c.addr null (last null us) c.addr
            (Avoids-last us vs lo c.addr hi w.below ordered_from w.positive)
            (Seg-link_prev vs m1 p c.addr (end_of c) hi
              (Seg-write vs m p null c.addr _
                (Avoids_below vs (end_of c) hi c.addr w.above (omega (arith, w.roomy))) t)
              w.above (omega (arith, w.roomy)))

      header : m3 c.addr ≡ elem (first vs null) (last null us) c.size
      header =
          rw
            (
              link_next_ne m2 (last null us) c.addr c.addr addr-ne-last,
              link_prev_ne m1 (first vs null) c.addr c.addr addr-ne-first,
            )
            (write_self m c.addr _)

-- The parts of a list that is cut in two, linked past what stood between them.
pub bridge-Seg :
    (us vs : List Block) (m : Cells) (p q : Ptr) (lo mid hi : ℕ)
    → 0 < lo
    → Ordered lo us mid
    → Ordered mid vs hi
    → Seg m null us q
    → Seg m p vs null
    → Seg (bridge m us vs) null (us ++ vs) null
bridge-Seg us vs m p q lo mid hi z h k s t =
    Seg-append us vs _ null null
      (Seg-link_next us _ q _ lo mid
        (Seg-link_prev_other us m null q _ _ (Avoids-first us vs lo mid hi h k z) s) h z)
      (Seg-link_next_other vs _ _ null _ _ (Avoids-last us vs lo mid hi h k z)
        (Seg-link_prev vs m p _ mid hi t k (omega (arith, Ordered-le us lo mid h))))

-- Neither touches a list that has none of the headers in question.
pub splice-Seg_other :
    (ws us : List Block) (c : Block) (vs : List Block) (m : Cells) (start stop : Ptr)
    → Avoids c.addr ws
    → Avoids (last null us) ws
    → Avoids (first vs null) ws
    → Seg m start ws stop
    → Seg (splice m us c vs) start ws stop
splice-Seg_other ws us c vs m start stop hc hl hf s =
    Seg-link_next_other ws _ start stop _ _ hl
      (Seg-link_prev_other ws _ start stop _ _ hf (Seg-write ws m start stop _ _ hc s))

pub bridge-Seg_other :
    (ws us vs : List Block) (m : Cells) (start stop : Ptr)
    → Avoids (last null us) ws
    → Avoids (first vs null) ws
    → Seg m start ws stop
    → Seg (bridge m us vs) start ws stop
bridge-Seg_other ws us vs m start stop hl hf s =
    Seg-link_next_other ws _ start stop _ _ hl (Seg-link_prev_other ws m start stop _ _ hf s)
