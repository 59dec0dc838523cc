-- ===== src/Allocator/Release/Bytes.antt =====
-- How many bytes the lists manage.
use os1_project.Prelude.{
  ℕ, ◌+◌, ◌*◌, ◌≤◌, ◌<◌, ◌≡◌, refl, ap, sym, ◌∙◌, true, List, [], ◌∷◌, ◌++◌, arith,
}
use os1_project.Allocator.{mem_block_size, size_of_mem_elem, Ptr}
use os1_project.Allocator.Blocks.{Block}
use os1_project.Allocator.Spec.{
  below, from, below-append-from, remainder, used, fits, insert, Fit, allocated,
}
use os1_project.Allocator.Carve.{fits-le}
use os1_project.Allocator.Release.Coalesce.{glue, glue_last, coalesce}

unfoldable pub total : List Block → ℕ
total [] = 0
total (b ∷ bs) = b.size + total bs

pub total-append : (bs cs : List Block) → total (bs ++ cs) ≡ total bs + total cs
unfolding total
total-append [] cs = omega arith
total-append (b ∷ bs) cs = omega (arith, total-append bs cs)

total-cut : (p : Ptr) (bs : List Block) → total (below p bs) + total (from p bs) ≡ total bs
total-cut p bs = sym (total-append (below p bs) (from p bs)) ∙ ap total (below-append-from p bs)

total-glue : (b : Block) (bs : List Block) → total (glue b bs) ≡ b.size + total bs
unfolding total glue
total-glue b [] = refl
total-glue b (c ∷ cs) = ground arith

total-glue_last : (bs cs : List Block) → total (glue_last bs cs) ≡ total bs + total cs
unfolding total glue_last
total-glue_last [] cs = omega arith
total-glue_last (b ∷ []) cs = omega (arith, total-glue b cs)
total-glue_last (b ∷ c ∷ bs) cs = omega (arith, total-glue_last (c ∷ bs) cs)

-- Joining neighbours loses nothing.
pub total-coalesce : (c : Block) (bs : List Block) → total (coalesce c bs) ≡ c.size + total bs
total-coalesce c bs = omega (
  arith,
  total-glue_last (below c.addr bs) (glue c (from c.addr bs)),
  total-glue c (from c.addr bs),
  total-cut c.addr bs,
)

pub total-insert : (c : Block) (bs : List Block) → total (insert c bs) ≡ c.size + total bs
total-insert c bs =
    total-append (below c.addr bs) (c ∷ from c.addr bs)
    ∙ unfold total in omega (arith, total-cut c.addr bs)

total-remainder :
    (needed : ℕ) (b : Block)
    → needed * mem_block_size ≤ b.size
    → (total (remainder needed b) + needed * mem_block_size ≤ b.size)
      × (b.size < total (remainder needed b) + needed * mem_block_size + size_of_mem_elem)
unfolding total
total-remainder needed b h = ground arith

-- An allocation loses less than the size of a header.
pub total-allocated :
    (needed : ℕ) (f : Fit) (full : List Block)
    → fits needed f.found ≡ true
    → let s = allocated needed (record { free = f.before ++ f.found ∷ f.after; full = full }) f in
      let before = total (f.before ++ f.found ∷ f.after) + total full in
      (total s.free + total s.full ≤ before)
      × (before < total s.free + total s.full + size_of_mem_elem)
total-allocated needed f full room =
    let cut = total-append f.before (f.found ∷ f.after) in
    let left = total-append f.before (remainder needed f.found ++ f.after) in
    let back = total-append (remainder needed f.found) f.after in
    let taken = total-insert (used needed f.found) full in
    let bound = total-remainder needed f.found (fits-le needed f.found room) in
    unfold total in (omega arith, omega arith)
