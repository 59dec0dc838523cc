-- ===== src/Allocator/Relink.antt =====
-- Relinking one list of headers leaves the other list alone.
use os1_project.Prelude.{ℕ, ◌<◌, List, ◌∷◌, ◌++◌, All}
use os1_project.Allocator.{Ptr, null, Cells}
use os1_project.Allocator.Blocks.{Block, Ordered, Avoids, first, last}
use os1_project.Allocator.Seg.{Seg}
use os1_project.Allocator.Splice.{
  Around, splice, bridge, splice-Seg, splice-Seg_other, bridge-Seg, bridge-Seg_other,
}
use os1_project.Allocator.Valid.{last-All, first-All}

module _ (us vs ws : List Block) (m : Cells) (p q : Ptr) (left : Seg m null us q)
    (right : Seg m p vs null) (other : Seg m null ws null) (nonnull : Avoids null ws)
    (left_apart : All (λ d. Avoids d.addr ws) us)
    (right_apart : All (λ d. Avoids d.addr ws) vs) where
  last-not_other : Avoids (last null us) ws
  last-not_other = last-All (λ r. Avoids r ws) us null nonnull left_apart

  first-not_other : Avoids (first vs null) ws
  first-not_other = first-All (λ r. Avoids r ws) vs null nonnull right_apart

  pub relink_splice :
      (c : Block) (lo hi : ℕ)
      → Around us c vs lo hi
      → Avoids c.addr ws
      → Seg (splice m us c vs) null (us ++ c ∷ vs) null × Seg (splice m us c vs) null ws null
  relink_splice c lo hi w h = (
    splice-Seg us c vs lo hi w m p q left right,
    splice-Seg_other ws us c vs m null null h last-not_other first-not_other other,
  )

  pub relink_bridge :
      (lo mid hi : ℕ)
      → 0 < lo
      → Ordered lo us mid
      → Ordered mid vs hi
      → Seg (bridge m us vs) null (us ++ vs) null × Seg (bridge m us vs) null ws null
  relink_bridge lo mid hi z h k = (
    bridge-Seg us vs m p q lo mid hi z h k left right,
    bridge-Seg_other ws us vs m null null last-not_other first-not_other other,
  )
