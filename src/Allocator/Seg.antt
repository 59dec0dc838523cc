-- ===== src/Allocator/Seg.antt =====
-- Doubly linked segments of headers, and what single writes do to them.
use os1_project.Prelude.{ℕ, ◌<◌, ◌≡◌, ap, ◌≢◌, List, [], ◌∷◌, ◌++◌, arith, All}
use os1_project.Allocator.{Ptr, null, MemElem, Cells, write, link_next, link_prev}
use os1_project.Allocator.Blocks.{
  Block, Ordered, Avoids, Avoids_below, first, last, last_bounds, first-append, end_of,
}

abbrev pub elem : Ptr → Ptr → ℕ → MemElem
elem next prev size = record { next = next; prev = prev; size = size }

-- The headers of the blocks are linked in both directions, from behind `start` up to `stop`.
abbrev pub Seg : Cells → Ptr → List Block → Ptr → Type 0
Seg m start [] stop = Unit
Seg m start (b ∷ bs) stop = (m b.addr ≡ elem (first bs stop) start b.size) × Seg m b.addr bs stop

pub write_ne : (m : Cells) (p : Ptr) (e : MemElem) (q : Ptr) → q ≢ p → write m p e q ≡ m q
unfolding write
write_ne m p e q h = ground arith

pub write_self : (m : Cells) (p : Ptr) (e : MemElem) → write m p e p ≡ e
unfolding write
write_self m p e = ground arith

pub link_next_ne : (m : Cells) (p v q : Ptr) → q ≢ p → link_next m p v q ≡ m q
unfolding link_next
link_next_ne m p v q h = ground arith

pub link_prev_ne : (m : Cells) (p v q : Ptr) → q ≢ p → link_prev m p v q ≡ m q
unfolding link_prev
link_prev_ne m p v q h = ground arith

-- Two memories that agree on the headers of a segment hold the same segment.
pub Seg-frame :
    (bs : List Block) (m m' : Cells) (start stop : Ptr)
    → All (λ b. m' b.addr ≡ m b.addr) bs
    → Seg m start bs stop
    → Seg m' start bs stop
Seg-frame [] m m' start stop same s = tt
Seg-frame (b ∷ bs) m m' start stop same s = (ground arith, Seg-frame bs m m' b.addr stop same.1 s.1)

All-of_Avoids :
    (bs : List Block) (p : Ptr) (m m' : Cells)
    → ((q : Ptr) → q ≢ p → m' q ≡ m q)
    → Avoids p bs
    → All (λ b. m' b.addr ≡ m b.addr) bs
All-of_Avoids [] p m m' same h = tt
All-of_Avoids (b ∷ bs) p m m' same h = (same b.addr h.0, All-of_Avoids bs p m m' same h.1)

pub Seg-write :
    (bs : List Block) (m : Cells) (start stop p : Ptr) (e : MemElem)
    → Avoids p bs
    → Seg m start bs stop
    → Seg (write m p e) start bs stop
Seg-write bs m start stop p e h =
    Seg-frame bs m _ start stop (All-of_Avoids bs p m _ (write_ne m p e) h)

pub Seg-link_next_other :
    (bs : List Block) (m : Cells) (start stop p v : Ptr)
    → Avoids p bs
    → Seg m start bs stop
    → Seg (link_next m p v) start bs stop
Seg-link_next_other bs m start stop p v h =
    Seg-frame bs m _ start stop (All-of_Avoids bs p m _ (link_next_ne m p v) h)

pub Seg-link_prev_other :
    (bs : List Block) (m : Cells) (start stop p v : Ptr)
    → Avoids p bs
    → Seg m start bs stop
    → Seg (link_prev m p v) start bs stop
Seg-link_prev_other bs m start stop p v h =
    Seg-frame bs m _ start stop (All-of_Avoids bs p m _ (link_prev_ne m p v) h)

-- A write through the last block of a segment changes where it leads.
Seg-link_next_cons :
    (bs : List Block) (b : Block) (m : Cells) (start stop v : Ptr) (lo hi : ℕ)
    → Seg m start (b ∷ bs) stop
    → Ordered lo (b ∷ bs) hi
    → 0 < lo
    → Seg (link_next m (last start (b ∷ bs)) v) start (b ∷ bs) v
unfolding link_next
Seg-link_next_cons [] b m start stop v lo hi s o h = (ground arith, tt)
Seg-link_next_cons (c ∷ cs) b m start stop v lo hi s o h = (
  ground (
    arith,
    last_bounds cs (end_of b) hi b.addr c o.2,
    link_next_ne m (last b.addr (c ∷ cs)) v b.addr,
  ),
  Seg-link_next_cons cs c m b.addr stop v (end_of b) hi s.1 o.2 (omega arith),
)

pub Seg-link_next :
    (bs : List Block) (m : Cells) (stop v : Ptr) (lo hi : ℕ)
    → Seg m null bs stop
    → Ordered lo bs hi
    → 0 < lo
    → Seg (link_next m (last null bs) v) null bs v
Seg-link_next [] m stop v lo hi s o h = tt
Seg-link_next (b ∷ bs) m stop v lo hi s o h = Seg-link_next_cons bs b m null stop v lo hi s o h

-- A write through the first block changes where the segment starts.
pub Seg-link_prev :
    (bs : List Block) (m : Cells) (start v : Ptr) (lo hi : ℕ)
    → Seg m start bs null
    → Ordered lo bs hi
    → 0 < lo
    → Seg (link_prev m (first bs null) v) v bs null
Seg-link_prev [] m start v lo hi s o h = tt
Seg-link_prev (b ∷ bs) m start v lo hi s o h = (
  unfold link_prev write in ground arith,
  Seg-link_prev_other bs m b.addr null b.addr v
      (Avoids_below bs (end_of b) hi b.addr o.2 (omega arith)) s.1,
)

pub Seg-append :
    (bs cs : List Block) (m : Cells) (start stop : Ptr)
    → Seg m start bs (first cs stop)
    → Seg m (last start bs) cs stop
    → Seg m start (bs ++ cs) stop
Seg-append [] cs m start stop s t = t
Seg-append (b ∷ bs) cs m start stop s t =
    (ground (arith, first-append bs cs stop), Seg-append bs cs m b.addr stop s.1 t)

pub Seg-split :
    (bs cs : List Block) (m : Cells) (start stop : Ptr)
    → Seg m start (bs ++ cs) stop
    → Seg m start bs (first cs stop) × Seg m (last start bs) cs stop
Seg-split [] cs m start stop s = (tt, s)
Seg-split (b ∷ bs) cs m start stop s =
    let (l, r) = Seg-split bs cs m b.addr stop s.1 in
    ((ground (arith, first-append bs cs stop), l), r)

-- The header of the last block leads to where the segment stops.
pub Seg-last_next :
    (bs : List Block) (b : Block) (m : Cells) (start stop : Ptr)
    → Seg m start (b ∷ bs) stop
    → (m (last start (b ∷ bs))).next ≡ stop
Seg-last_next [] b m start stop s = ap (λ (e : MemElem). e.next) s.0
Seg-last_next (c ∷ cs) b m start stop s = Seg-last_next cs c m b.addr stop s.1
