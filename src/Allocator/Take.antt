-- ===== src/Allocator/Take.antt =====
-- The search of mem_alloc is first fit, and the links around the chosen block are those of
-- `splice` (a fragment stays free) or `bridge` (none does).
use os1_project.Prelude.{
  ℕ, zero, suc, ◌+◌, ◌-◌, ◌*◌, ◌<◌, ◌≡◌, ◌≢◌, refl, ap, ◌∙◌, inl, inr, true, false, Option, none,
  some, List, [], ◌∷◌, ◌++◌, arith, All, length, ◌>>=◌, Bool-cases, ne→==,
}
use os1_project.Allocator.{
  Ptr, null, Cells, MemoryAllocator, mem_block_size, write, head_else, find_fit, split_free,
  drop_free,
}
use os1_project.Allocator.Blocks.{Block, block, Avoids, first, last, first-append}
use os1_project.Allocator.Seg.{elem, Seg, Seg-split, link_next_ne, link_prev_ne, write_ne}
use os1_project.Allocator.Spec.{Fit, fits, first_fit}
use os1_project.Allocator.Splice.{splice, bridge, link_comm}
use os1_project.Allocator.Insert.{last_ne}

-- What is true of the result of the search.
pub record IsFirstFit (needed : ℕ) (bs : List Block) (f : Fit) : Type 0 where
  pub whole : bs ≡ f.before ++ f.found ∷ f.after
  pub enough : fits needed f.found ≡ true
  pub earlier : All (λ b. fits needed b ≡ false) f.before

abbrev pub FitResult : ℕ → List Block → Option Fit → Type 0
FitResult needed bs none = All (λ b. fits needed b ≡ false) bs
FitResult needed bs (some f) = IsFirstFit needed bs f

abbrev behind : Block → Fit → Fit
behind b f = record f { before = b ∷ f.before }

FitResult-cons :
    (needed : ℕ) (b : Block) (bs : List Block) (r : Option Fit)
    → fits needed b ≡ false
    → FitResult needed bs r
    → FitResult needed (b ∷ bs) (r >>= λ f. some (behind b f))
FitResult-cons needed b bs none miss h = (miss, h)
FitResult-cons needed b bs (some f) miss h = record {
  whole = ap (◌∷◌ b) h.whole;
  enough = h.enough;
  earlier = (miss, h.earlier);
}

pub first_fit-FitResult : (needed : ℕ) (bs : List Block) → FitResult needed bs (first_fit needed bs)
unfolding first_fit
first_fit-FitResult needed [] = tt
first_fit-FitResult needed (b ∷ bs) = elim (Bool-cases (fits needed b)) [
  | inl hit ↦ rw hit (record { whole = refl; enough = hit; earlier = tt })
  | inr miss ↦
      rw miss
        (FitResult-cons needed b bs (first_fit needed bs) miss (first_fit-FitResult needed bs))
]

abbrev pub fit_addr : Option Fit → Ptr
fit_addr none = null
fit_addr (some f) = f.found.addr

fit_addr-behind :
    (b : Block) (r : Option Fit) → fit_addr r ≡ fit_addr (r >>= λ f. some (behind b f))
fit_addr-behind b none = refl
fit_addr-behind b (some f) = refl

pub find_fit-first_fit :
    (bs : List Block) (fuel : ℕ) (m : Cells) (start : Ptr) (needed : ℕ)
    → Seg m start bs null
    → Avoids null bs
    → length bs < fuel
    → find_fit fuel m needed (first bs null) ≡ some (fit_addr (first_fit needed bs))
unfolding find_fit first_fit
find_fit-first_fit bs zero m start needed s z h = absurd (omega arith)
find_fit-first_fit [] (suc fuel) m start needed s z h = refl
find_fit-first_fit (b ∷ bs) (suc fuel) m start needed s z h =
    rw (s.0, ne→== b.addr null z.0)
      (elim (Bool-cases (fits needed b)) [
        | inl hit ↦ rw hit
        | inr miss ↦
            rw (miss, find_fit-first_fit bs fuel m b.addr needed s.1 z.1 (omega arith))
              (ap some (fit_addr-behind b (first_fit needed bs)))
      ])

pub Seg-at :
    (us : List Block) (b : Block) (vs : List Block) (m : Cells)
    → Seg m null (us ++ b ∷ vs) null
    → m b.addr ≡ elem (first vs null) (last null us) b.size
Seg-at us b vs m s = (Seg-split us (b ∷ vs) m null null s).1.0

pub head_else-first :
    (us : List Block) (p q : Ptr)
    → Avoids null us
    → head_else (last null us) (first us p) q ≡ first us q
head_else-first [] p q z = refl
head_else-first (u ∷ us) p q z = rw (ne→== (last u.addr us) null (last_ne null u us z))

module _ (us : List Block) (b : Block) (vs : List Block) (a : MemoryAllocator)
    (at : a.cells b.addr ≡ elem (first vs null) (last null us) b.size)
    (head : a.free_head ≡ first us b.addr) (nonnull : Avoids null us)
    (ne_first : b.addr ≢ first vs null) (ne_last : b.addr ≢ last null us) where
  pub drop_free-bridge :
      drop_free a b.addr
      ≡ record a { cells = bridge a.cells us vs; free_head = first (us ++ vs) null }
  unfolding drop_free
  drop_free-bridge = rw (
    at,
    link_prev_ne a.cells (first vs null) (last null us) b.addr ne_first,
    at,
    head,
    head_else-first us b.addr (first vs null) nonnull,
    first-append us vs null,
  )

  pub split_free-splice :
      (needed : ℕ)
      → 0 < needed
      → split_free a b.addr needed ≡ (
          let c = block (b.addr + needed * mem_block_size) (b.size - needed * mem_block_size) in
          record a { cells = splice a.cells us c vs; free_head = first (us ++ c ∷ vs) null })
  unfolding split_free
  split_free-splice needed h =
      let fragment : Ptr = b.addr + needed * mem_block_size in
      let e = elem (first vs null) (last null us) (b.size - needed * mem_block_size) in
      let m1 = write a.cells fragment e in
      let same : m1 b.addr ≡ elem (first vs null) (last null us) b.size =
        write_ne a.cells fragment e b.addr (omega arith) ∙ at in
      rw (
        at,
        same,
        link_next_ne m1 (last null us) fragment b.addr ne_last,
        same,
        head,
        head_else-first us b.addr fragment nonnull,
        first-append us (block fragment (b.size - needed * mem_block_size) ∷ vs) null,
        link_comm m1 (last null us) (first vs null) fragment fragment,
      )
