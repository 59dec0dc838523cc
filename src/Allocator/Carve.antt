-- ===== src/Allocator/Carve.antt =====
-- Taking a block out of the free list and entering its used part in the full list keeps the two
-- lists in order and apart.
use os1_project.Prelude.{
  ℕ, ◌+◌, ◌-◌, ◌*◌, ◌/◌, ◌≤◌, ◌<◌, ◌≡◌, true, List, ◌∷◌, ◌++◌, arith, All, All-append, All-left,
  All-right, leb, leb→le, Bool-cases, inl, inr,
}
use os1_project.Allocator.{mem_block_size, size_of_mem_elem}
use os1_project.Allocator.Blocks.{
  Block, block, end_of, Ordered, Ordered-mono, Ordered-append, Apart, AllApart, Avoids, Ordered-le,
}
use os1_project.Allocator.Spec.{IsValid, fits, used, remainder, insert, below, from}
use os1_project.Allocator.Splice.{Around}
use os1_project.Allocator.Valid.{
  Apart-below, Apart-above, All-Apart_comm, Apart-within, Avoids_of_Apart, AllApart-insert,
  Around-parts, Around-insert, Ordered_of_Around,
}

pub fits-le : (needed : ℕ) (b : Block) → fits needed b ≡ true → needed * mem_block_size ≤ b.size
fits-le needed b h = omega (arith, leb→le needed (b.size / mem_block_size) h)

pub remainder-Ordered :
    (needed : ℕ) (b : Block)
    → needed * mem_block_size ≤ b.size
    → Ordered (b.addr + needed * mem_block_size) (remainder needed b) (end_of b)
remainder-Ordered needed b h =
    elim (Bool-cases (leb size_of_mem_elem (b.size - needed * mem_block_size))) [
      | inl e ↦
          let k = leb→le size_of_mem_elem (b.size - needed * mem_block_size) e in
          rw e (omega arith, k, omega arith)
      | inr e ↦ rw e (omega arith)
    ]

remainder-Apart :
    (needed : ℕ) (b : Block) (cs : List Block)
    → needed * mem_block_size ≤ b.size
    → All (Apart b) cs
    → All (λ c. All (Apart c) cs) (remainder needed b)
remainder-Apart needed b cs h a =
    elim (Bool-cases (leb size_of_mem_elem (b.size - needed * mem_block_size))) [
      | inl e ↦ rw e (
        Apart-within b (block (b.addr + needed * mem_block_size) (b.size - needed * mem_block_size))
            cs (omega arith) (omega arith) a,
        tt,
      )
      | inr e ↦ rw e tt
    ]

module _ (us : List Block) (b : Block) (vs full : List Block) (lo hi needed : ℕ) (pos : 0 < needed)
    (room : fits needed b ≡ true)
    (v : IsValid lo hi (record { free = us ++ b ∷ vs; full = full })) where
  abbrev pub left_free : List Block
  left_free = us ++ (remainder needed b ++ vs)

  around : Around us b vs lo hi
  around = Around-parts us b vs lo hi v.positive v.free_ordered

  enough : needed * mem_block_size ≤ b.size
  enough = fits-le needed b room

  above_used : Ordered (b.addr + needed * mem_block_size) (remainder needed b ++ vs) hi
  above_used =
      Ordered-append (remainder needed b) vs (b.addr + needed * mem_block_size) (end_of b) hi
        (remainder-Ordered needed b enough) around.above

  pub left_free-Ordered : Ordered lo left_free hi
  left_free-Ordered = Ordered-append us (remainder needed b ++ vs) lo b.addr hi around.below (
      Ordered-mono (remainder needed b ++ vs) _ hi b.addr hi above_used (omega arith) (omega arith))

  Apart-found : All (Apart b) full
  Apart-found = (All-right (λ c. All (Apart c) full) us (b ∷ vs) v.apart).0

  pub used-Apart : All (Apart (used needed b)) full
  used-Apart = Apart-within b (used needed b) full (omega arith) (omega (arith, enough)) Apart-found

  pub left_free-Apart : AllApart left_free full
  left_free-Apart =
      All-append (λ c. All (Apart c) full) us (remainder needed b ++ vs)
        (All-left (λ c. All (Apart c) full) us (b ∷ vs) v.apart)
        (All-append (λ c. All (Apart c) full) (remainder needed b) vs
          (remainder-Apart needed b full enough Apart-found)
          (All-right (λ c. All (Apart c) full) us (b ∷ vs) v.apart).1)

  Apart-used_free : All (λ c. Apart c (used needed b)) left_free
  Apart-used_free =
      All-append (λ c. Apart c (used needed b)) us (remainder needed b ++ vs)
        (Apart-below us (used needed b) lo b.addr around.below (omega arith))
        (Apart-above (remainder needed b ++ vs) (used needed b) _ hi above_used (omega arith))

  pub used-not_free : Avoids b.addr left_free
  used-not_free =
      Avoids_of_Apart left_free (used needed b) lo hi left_free-Ordered (omega arith)
        (All-Apart_comm (used needed b) left_free Apart-used_free)

  pub used-not_full : Avoids b.addr full
  used-not_full = Avoids_of_Apart full (used needed b) lo hi v.full_ordered (omega arith) used-Apart

  pub used-Around :
      Around
        (below (used needed b).addr full)
        (used needed b)
        (from (used needed b).addr full)
        lo
        hi
  used-Around =
      Around-insert (used needed b) full lo hi v.positive v.full_ordered used-Apart (omega arith)
        (Ordered-le us lo b.addr around.below)
        (omega (arith, enough, Ordered-le vs (end_of b) hi around.above))

  pub carved-IsValid :
      IsValid lo hi (record { free = left_free; full = insert (used needed b) full })
  carved-IsValid = record {
    positive = v.positive;
    free_ordered = left_free-Ordered;
    full_ordered = Ordered_of_Around _ (used needed b) _ lo hi used-Around;
    apart = AllApart-insert left_free (used needed b) full left_free-Apart Apart-used_free;
  }
