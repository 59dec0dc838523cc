-- ===== src/Allocator/Release/Join.antt =====
-- joinBlocks on neighbours of the free list implements `glue`.
use os1_project.Prelude.{
  ℕ, ◌+◌, ◌≡◌, ◌≢◌, refl, sym, ap, ◌∙◌, subst, inl, inr, true, false, List, [], ◌∷◌, ◌++◌,
  append_assoc, arith, All, All-append, All-left, All-right, ◌==◌, ne→==, ==_iff, Bool-cases,
}
use os1_project.Allocator.{Ptr, null, MemElem, MemoryAllocator, set_size}
use os1_project.Allocator.Blocks.{
  Block, block, end_of, Ordered, Ordered-append, Ordered-mono, Apart, Avoids, Avoids_below,
  Avoids_above, first, last,
}
use os1_project.Allocator.Seg.{elem, Seg, Seg-split, Seg-append, Seg-write, write_self}
use os1_project.Allocator.Spec.{Store, IsValid}
use os1_project.Allocator.Splice.{Around, bridge}
use os1_project.Allocator.Valid.{Around-parts, distinct}
use os1_project.Allocator.Represents.{Represents, free-nonnull, full-nonnull}
use os1_project.Allocator.Relink.{relink_bridge}
use os1_project.Allocator.Release.{join_blocks, unlink_free}
use os1_project.Allocator.Release.Coalesce.{
  glue, glue_last, glue_last-snoc, last_cases, glue-Ordered, glue-Apart, sizes-ge,
}
use os1_project.Allocator.Release.Unlink.{unlink_free-bridge}

abbrev store : List Block → List Block → Store
store free full = record { free = free; full = full }

-- Joining two neighbours keeps the lists in order and apart.
pub glue-IsValid :
    (us : List Block) (c : Block) (vs full : List Block) (lo hi : ℕ)
    → IsValid lo hi (store (us ++ c ∷ vs) full)
    → IsValid lo hi (store (us ++ glue c vs) full)
glue-IsValid us c vs full lo hi v =
    let w = Around-parts us c vs lo hi v.positive v.free_ordered in
    record {
      positive = v.positive;
      free_ordered =
          Ordered-append us (glue c vs) lo c.addr hi w.below
            (glue-Ordered c vs c.addr hi (omega arith, w.roomy, w.above));
      full_ordered = v.full_ordered;
      apart =
          All-append (λ d. All (Apart d) full) us (glue c vs)
            (All-left (λ d. All (Apart d) full) us (c ∷ vs) v.apart)
            (glue-Apart c vs full (All-right (λ d. All (Apart d) full) us (c ∷ vs) v.apart)
              (sizes-ge full lo hi v.full_ordered));
    }

pub glue_last-IsValid :
    (us vs full : List Block) (lo hi : ℕ)
    → IsValid lo hi (store (us ++ vs) full)
    → IsValid lo hi (store (glue_last us vs) full)
glue_last-IsValid us vs full lo hi = elim (last_cases us) [
  | inl e ↦ subst Keeps (sym e) (unfold glue_last in λ v. v)
  | inr (front, b, e) ↦ subst Keeps (sym e) (behind front b)
]
  where
    Keeps : List Block → Type 0
    Keeps l = IsValid lo hi (store (l ++ vs) full) → IsValid lo hi (store (glue_last l vs) full)

    behind : (front : List Block) (b : Block) → Keeps (front ++ b ∷ [])
    behind front b v = rw (glue_last-snoc front b vs) (
        glue-IsValid front b vs full lo hi
          (subst (λ l. IsValid lo hi (store l full)) (append_assoc front (b ∷ []) vs) v))

module _ (us : List Block) (c d : Block) (ds full : List Block) (lo hi : ℕ)
    (v : IsValid lo hi (store (us ++ c ∷ d ∷ ds) full)) (a : MemoryAllocator)
    (rep : Represents a (store (us ++ c ∷ d ∷ ds) full)) where
  beside : Around us c (d ∷ ds) lo hi
  beside = Around-parts us c (d ∷ ds) lo hi v.positive v.free_ordered

  cut : Seg a.cells null us c.addr × Seg a.cells (last null us) (c ∷ d ∷ ds) null
  cut = Seg-split us (c ∷ d ∷ ds) a.cells null null rep.free_linked

  free_not_full : All (λ e. Avoids e.addr full) (us ++ c ∷ d ∷ ds)
  free_not_full = distinct _ full lo hi lo hi v.free_ordered v.full_ordered v.apart

  nonnull : Avoids null (us ++ c ∷ d ∷ ds)
  nonnull = free-nonnull v

  wide : Block
  wide = block c.addr (c.size + d.size)

  grown : MemoryAllocator
  grown = record a { cells = set_size a.cells c.addr (c.size + d.size) }

  header_c : a.cells c.addr ≡ elem d.addr (last null us) c.size
  header_c = cut.1.0

  avoid_us : Avoids c.addr us
  avoid_us = Avoids_above us lo c.addr c.addr beside.below (omega arith)

  avoid_ds : Avoids c.addr (d ∷ ds)
  avoid_ds = Avoids_below (d ∷ ds) (end_of c) hi c.addr beside.above (omega (arith, beside.roomy))

  grown_us : Seg grown.cells null us c.addr
  unfolding grown
  grown_us = Seg-write us a.cells null c.addr c.addr _ avoid_us cut.0

  grown_ds : Seg grown.cells c.addr (d ∷ ds) null
  unfolding grown
  grown_ds = Seg-write (d ∷ ds) a.cells c.addr null c.addr _ avoid_ds cut.1.1

  grown_c : grown.cells c.addr ≡ elem d.addr (last null us) (c.size + d.size)
  unfolding grown
  grown_c =
      write_self a.cells c.addr _
      ∙ ap (λ (e : MemElem). record e { size = c.size + d.size }) header_c

  grown_full : Seg grown.cells null full null
  unfolding grown
  grown_full =
      Seg-write full a.cells null null c.addr _
        (All-right (λ e. Avoids e.addr full) us (c ∷ d ∷ ds) free_not_full).0 rep.full_linked

  front : List Block
  front = us ++ wide ∷ []

  last-front : last null front ≡ c.addr
  unfolding front wide
  last-front = last-snoc us null
    where
      last-snoc : (bs : List Block) (p : Ptr) → last p (bs ++ wide ∷ []) ≡ wide.addr
      last-snoc [] p = refl
      last-snoc (b ∷ bs) p = last-snoc bs b.addr

  front-Seg : Seg grown.cells null front d.addr
  unfolding front wide
  front-Seg = Seg-append us (wide ∷ []) grown.cells null d.addr grown_us (grown_c, tt)

  front_nonnull : Avoids null front
  unfolding front wide
  front_nonnull =
      All-append (λ e. e.addr ≢ null) us (wide ∷ [])
        (All-left (λ e. e.addr ≢ null) us (c ∷ d ∷ ds) nonnull)
        ((All-right (λ e. e.addr ≢ null) us (c ∷ d ∷ ds) nonnull).0, tt)

  front_not_full : All (λ e. Avoids e.addr full) front
  unfolding front wide
  front_not_full =
      All-append (λ e. Avoids e.addr full) us (wide ∷ [])
        (All-left (λ e. Avoids e.addr full) us (c ∷ d ∷ ds) free_not_full)
        ((All-right (λ e. Avoids e.addr full) us (c ∷ d ∷ ds) free_not_full).0, tt)

  front_Ordered : Ordered lo front (end_of wide)
  unfolding front wide
  front_Ordered =
      Ordered-append us (wide ∷ []) lo c.addr (end_of wide) beside.below
        (omega arith, omega (arith, beside.roomy), omega arith)

  front_ds : front ++ ds ≡ us ++ wide ∷ ds
  unfolding front
  front_ds = append_assoc us (wide ∷ []) ds

  module _ (touch : end_of c ≡ d.addr) where
    back_Ordered : Ordered (end_of wide) ds hi
    unfolding wide
    back_Ordered =
        Ordered-mono ds (end_of d) hi (end_of wide) hi beside.above.2 (omega arith) (omega arith)

    d_not_last : d.addr ≢ last null front
    d_not_last = rw last-front (omega (arith, beside.roomy))

    free_joined : grown.free_head ≡ first front d.addr
    unfolding grown front wide
    free_joined = rep.free_first ∙ heads us
      where
        heads :
            (bs : List Block)
            → first (bs ++ c ∷ d ∷ ds) null
              ≡ first (bs ++ block c.addr (c.size + d.size) ∷ []) d.addr
        heads [] = refl
        heads (b ∷ bs) = refl

    joined_Represents : Represents (unlink_free grown d.addr) (store (us ++ wide ∷ ds) full)
    joined_Represents =
        let (free_seg, full_seg) =
          relink_bridge front ds full grown.cells d.addr d.addr front-Seg grown_ds.1 grown_full
            (full-nonnull v) front_not_full
            (All-right (λ e. Avoids e.addr full) us (c ∷ d ∷ ds) free_not_full).1.1 lo (end_of wide)
            hi v.positive front_Ordered back_Ordered in
        rw
          (unlink_free-bridge front d.addr d.size ds grown (rw last-front grown_ds.0) front_nonnull
            d_not_last free_joined)
          (subst
            (λ l.
              Represents
                (record grown {
                  cells = bridge grown.cells front ds;
                  free_head = first (front ++ ds) null;
                })
                (store l full))
            front_ds
            (record {
              free_first = refl;
              full_first = unfold grown in rep.full_first;
              free_linked = free_seg;
              full_linked = full_seg;
            }))

  -- Neither test of joinBlocks holds of neighbours that do not touch.
  apart_neighbours : (end_of c == d.addr) ≡ false → join_blocks a c.addr d.addr ≡ (a, null)
  unfolding join_blocks
  apart_neighbours miss = rw (
    ne→== c.addr null (All-right (λ e. e.addr ≢ null) us (c ∷ d ∷ ds) nonnull).0,
    ne→== d.addr null (All-right (λ e. e.addr ≢ null) us (c ∷ d ∷ ds) nonnull).1.0,
    header_c,
    cut.1.1.0,
    miss,
    ne→== (end_of d) c.addr (omega (arith, beside.above)),
  )

  touching_neighbours :
      (end_of c == d.addr) ≡ true → join_blocks a c.addr d.addr ≡ (unlink_free grown d.addr, c.addr)
  unfolding join_blocks grown
  touching_neighbours hit = rw (
    ne→== c.addr null (All-right (λ e. e.addr ≢ null) us (c ∷ d ∷ ds) nonnull).0,
    ne→== d.addr null (All-right (λ e. e.addr ≢ null) us (c ∷ d ∷ ds) nonnull).1.0,
    header_c,
    cut.1.1.0,
    hit,
  )

  pub join_cons-Represents :
      Represents (join_blocks a c.addr d.addr).0 (store (us ++ glue c (d ∷ ds)) full)
  unfolding glue wide
  join_cons-Represents = elim (Bool-cases (end_of c == d.addr)) [
    | inl hit ↦
        rw (touching_neighbours hit, hit) (joined_Represents ((==_iff (end_of c) d.addr).0 hit))
    | inr miss ↦ rw (apart_neighbours miss, miss) rep
  ]

-- The block and whatever follows it in the free list.
pub join_blocks-glue :
    (us : List Block) (c : Block) (vs full : List Block) (lo hi : ℕ) (a : MemoryAllocator)
    → IsValid lo hi (store (us ++ c ∷ vs) full)
    → Represents a (store (us ++ c ∷ vs) full)
    → Represents (join_blocks a c.addr (first vs null)).0 (store (us ++ glue c vs) full)
join_blocks-glue us c [] full lo hi a v rep =
    unfold join_blocks glue in
    rw (ne→== c.addr null (All-right (λ e. e.addr ≢ null) us (c ∷ []) (free-nonnull v)).0) rep
join_blocks-glue us c (d ∷ ds) full lo hi a v rep =
    join_cons-Represents us c d ds full lo hi v a rep
