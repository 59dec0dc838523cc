-- ===== src/Allocator/History/Steps.antt =====
-- What holds after every history of calls in src/MemoryAllocator.cpp.
use os1_project.Prelude.{
  ℕ, ◌-◌, All, All-right, ◌+◌, ◌<◌, ◌≡◌, ◌≢◌, refl, ap, sym, ◌∙◌, subst, ◌⊎◌, inl, inr, Bool, true,
  false, List, [], ◌∷◌, ◌++◌, some, arith, length, length-append, ◌==◌, ==_iff, if◌then◌else◌,
  Bool-cases,
}
use os1_project.Prelude.Int.{pos}
use mathlib.Core.Option.{some-injective}
use os1_project.Allocator.{MemoryAllocator, HeapBounds, Ptr, null, mem_alloc, size_of_mem_elem}
use os1_project.Allocator.Blocks.{Block, block, Ordered, Avoids}
use os1_project.Allocator.Spec.{Fit, allocated, used, below, from, below-append-from}
use os1_project.Allocator.FirstFit.{store}
use os1_project.Allocator.Valid.{Around-parts, distinct}
use os1_project.Allocator.Take.{IsFirstFit}
use os1_project.Allocator.Sound.{IsSound, mem_free-IsSound, mem_alloc-Granted}
use os1_project.Allocator.Untouched.{init_free_mem-IsSound}
use os1_project.Allocator.Live.{
  payload, holds, holds-middle, holds-Avoids, holds-Found, Around-Avoids,
}
use os1_project.Allocator.Release.{mem_free}
use os1_project.Allocator.Release.Coalesce.{coalesce}
use os1_project.Allocator.Release.Bytes.{total, total-coalesce}
use os1_project.Allocator.History.{
  Client, set_live, Step, allocate, refuse, release, initial, Reach, start, later, IsOwned, IsHeap,
}

pub initial-IsOwned :
    (heap : HeapBounds) (a : MemoryAllocator)
    → IsHeap heap
    → a.full_head ≡ null
    → IsOwned heap (initial heap a)
initial-IsOwned heap a h e = record {
  blocks = store (block heap.heap_start_addr (heap.heap_end_addr - heap.heap_start_addr) ∷ []) [];
  sound = init_free_mem-IsSound heap a h.positive h.roomy e;
  started = omega arith;
  held = λ p. refl;
}

total_pos : (bs : List Block) → 0 < total bs → 0 < length bs
unfolding total
total_pos [] h = absurd (omega arith)
total_pos (b ∷ bs) h = omega arith

coalesce-started : (c : Block) (bs : List Block) → 0 < c.size → 0 < length (coalesce c bs)
coalesce-started c bs z = total_pos (coalesce c bs) (omega (arith, total-coalesce c bs))

-- The held addresses behind a release.
dropped :
    (q p x : Ptr) (live rest : Bool)
    → p ≡ x
    → live ≡ (if q == x then true else rest)
    → (q ≡ x → rest ≡ false)
    → (if q == p then false else live) ≡ rest
dropped q p x live rest e f g = elim (Bool-cases (q == x)) [
  | inl t ↦ rw (e, t) (sym (g ((==_iff _ _).0 t)))
  | inr t ↦ rw (e, t) (f ∙ rw t refl)
]

module _ (heap : HeapBounds) (c : Client) (o : IsOwned heap c) where
  pub granted-IsOwned :
      (f : Fit) (n : ℕ) (b : MemoryAllocator)
      → IsSound heap b (allocated (n + 1) o.blocks f)
      → IsOwned heap
          (record { allocator = b; live = set_live c.live (f.found.addr + size_of_mem_elem) true })
  unfolding set_live
  granted-IsOwned f n b s =
      let u = used (n + 1) f.found in
      let full = o.blocks.full in
      record {
        blocks = allocated (n + 1) o.blocks f;
        sound = s;
        started = omega (arith, length-append (below u.addr full) (u ∷ from u.addr full));
        held = λ p.
            ap (λ t. if p == payload u then true else t)
              (o.held p ∙ sym (ap (holds p) (below-append-from u.addr full)))
            ∙ sym (holds-middle p (below u.addr full) u (from u.addr full));
      }

  -- A free block's address is no full block's.
  pub fresh_payload :
      (f : Fit) (n : ℕ)
      → IsFirstFit n o.blocks.free f
      → holds (payload f.found) o.blocks.full ≡ false
  fresh_payload f n hit =
      let v = o.sound.valid in
      holds-Avoids f.found o.blocks.full
        (All-right (λ b. Avoids b.addr o.blocks.full) f.before (f.found ∷ f.after)
          (subst (All (λ b. Avoids b.addr o.blocks.full)) hit.whole (
            distinct o.blocks.free o.blocks.full heap.heap_start_addr heap.heap_end_addr
              heap.heap_start_addr heap.heap_end_addr v.free_ordered v.full_ordered v.apart))).0

  pub released-IsOwned :
      (p : Ptr)
      → c.live p ≡ true
      → IsHeap heap
      → (b : MemoryAllocator) × (mem_free heap c.allocator p ≡ some (b, pos 0))
        × IsOwned heap (record { allocator = b; live = set_live c.live p false })
  released-IsOwned p l h =
      let lo = heap.heap_start_addr in
      let hi = heap.heap_end_addr in
      let full = o.blocks.full in
      let free = o.blocks.free in
      let r = holds-Found p full (sym (o.held p) ∙ l) in
      let around =
        Around-parts r.before r.found r.after lo hi o.sound.valid.positive
          (subst (λ x. Ordered lo x hi) r.whole o.sound.valid.full_ordered) in
      let (b, e, s) =
        mem_free-IsSound heap c.allocator r.before r.found r.after free h.wide
          (subst (λ x. IsSound heap c.allocator (store free x)) r.whole o.sound) in
      (
        b,
        subst (λ q. mem_free heap c.allocator q ≡ some (b, pos 0)) (sym r.at) e,
        record {
          blocks = store (coalesce r.found free) (r.before ++ r.after);
          sound = s;
          started = omega (arith, coalesce-started r.found free (omega (arith, around.roomy)));
          held =
              unfold set_live in
              λ q.
                dropped q p (payload r.found) (c.live q) (holds q (r.before ++ r.after)) r.at
                  (o.held q ∙ ap (holds q) r.whole ∙ holds-middle q r.before r.found r.after)
                  (λ e.
                    ap (λ x. holds x (r.before ++ r.after)) e
                    ∙ holds-Avoids r.found (r.before ++ r.after)
                        (Around-Avoids r.before r.found r.after lo hi around));
        },
      )

Step-IsOwned :
    (heap : HeapBounds) (c d : Client)
    → IsHeap heap
    → IsOwned heap c
    → Step heap c d
    → IsOwned heap d
Step-IsOwned heap c d h o (allocate n p e z) =
    elim (mem_alloc-Granted heap c.allocator o.blocks n o.sound o.started) [
      | inl refused ↦ absurd (z (ap (λ r. r.1) (some-injective _ _ (sym e ∙ refused))))
      | inr (f, b, e', _, s) ↦
          subst (λ r. IsOwned heap (record { allocator = r.0; live = set_live c.live r.1 true }))
            (some-injective _ _ (sym e' ∙ e)) (granted-IsOwned heap c o f n b s)
    ]
Step-IsOwned heap c d h o (refuse n e) =
    elim (mem_alloc-Granted heap c.allocator o.blocks n o.sound o.started) [
      | inl refused ↦
          subst (λ r. IsOwned heap (record { allocator = r.0; live = c.live }))
            (some-injective _ _ (sym refused ∙ e)) o
      | inr (f, b, e', _, s) ↦
          absurd (omega (arith, ap (λ r. r.1) (some-injective _ _ (sym e' ∙ e))))
    ]
Step-IsOwned heap c d h o (release p code l e) =
    let (b, e', o') = released-IsOwned heap c o p l h in
    subst (λ r. IsOwned heap (record { allocator = r.0; live = set_live c.live p false }))
      (some-injective _ _ (sym e' ∙ e)) o'

-- After every history of calls, on a heap above null and below 2 ^ 64 with room for a header: the
-- headers stand for a valid store, no two of whose free blocks touch, and the addresses that the
-- callers hold are exactly those of the full blocks.
pub Reach-IsOwned : (heap : HeapBounds) (c : Client) → IsHeap heap → Reach heap c → IsOwned heap c
Reach-IsOwned heap c h (start a e) = initial-IsOwned heap a h e
Reach-IsOwned heap c h (later r s) = Step-IsOwned heap _ c h (Reach-IsOwned heap _ h r) s

-- After every such history every request ends: it gets null, with nothing changed, or an address
-- that no caller holds.
pub Reach-mem_alloc :
    (heap : HeapBounds) (c : Client) (n : ℕ)
    → IsHeap heap
    → Reach heap c
    → (mem_alloc heap c.allocator n ≡ some (c.allocator, null))
      ⊎ ((b : MemoryAllocator) × (p : Ptr) × (mem_alloc heap c.allocator n ≡ some (b, p))
          × (p ≢ null)
          × (c.live p ≡ false))
Reach-mem_alloc heap c n h r =
    let o = Reach-IsOwned heap c h r in
    elim (mem_alloc-Granted heap c.allocator o.blocks n o.sound o.started) [
      | inl e ↦ inl e
      | inr (f, b, e, hit, s) ↦ inr (
        b,
        payload f.found,
        e,
        omega arith,
        o.held (payload f.found) ∙ fresh_payload heap c o f (n + 1) hit,
      )
    ]

-- After every such history the release of an address that a caller holds ends and returns 0.
pub Reach-mem_free :
    (heap : HeapBounds) (c : Client) (p : Ptr)
    → IsHeap heap
    → Reach heap c
    → c.live p ≡ true
    → (b : MemoryAllocator) × (mem_free heap c.allocator p ≡ some (b, pos 0))
Reach-mem_free heap c p h r l =
    let (b, e, _) = released-IsOwned heap c (Reach-IsOwned heap c h r) p l h in (b, e)
