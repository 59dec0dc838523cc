-- ===== src/Allocator/History/Grants.antt =====
-- A request, and what is held behind it.
use os1_project.Prelude.{
  ℕ, ◌+◌, ◌≡◌, ◌≢◌, ◌∙◌, ◌⊎◌, inl, inr, Bool, true, false, Option, some, arith,
}
use os1_project.Allocator.{MemoryAllocator, HeapBounds, Ptr, null, mem_alloc}
use os1_project.Allocator.Sound.{mem_alloc-Granted}
use os1_project.Allocator.Live.{payload}
use os1_project.Allocator.History.{Client, set_live, IsOwned}
use os1_project.Allocator.History.Steps.{granted-IsOwned, fresh_payload}

-- A request changes nothing, or gives an address that was not held.
abbrev pub Served : HeapBounds → Client → Option (MemoryAllocator × Ptr) → Type 0
Served heap c r =
    (r ≡ some (c.allocator, null))
    ⊎ ((b : MemoryAllocator) × (p : Ptr) × (r ≡ some (b, p))
        × (p ≢ null)
        × (c.live p ≡ false)
        × IsOwned heap (record { allocator = b; live = set_live c.live p true }))

pub mem_alloc-Served :
    (heap : HeapBounds) (c : Client) (n : ℕ)
    → IsOwned heap c
    → Served heap c (mem_alloc heap c.allocator n)
mem_alloc-Served heap c n o =
    elim (mem_alloc-Granted heap c.allocator o.blocks n o.sound o.started) [
      | inl e ↦ inl e
      | inr (f, b, e, hit, s) ↦ inr (
        b,
        payload f.found,
        e,
        omega arith,
        o.held (payload f.found) ∙ fresh_payload heap c o f (n + 1) hit,
        granted-IsOwned heap c o f n b s,
      )
    ]

-- Who holds what may be told in another way.
pub IsOwned-same :
    (heap : HeapBounds) (a : MemoryAllocator) (live live' : Ptr → Bool)
    → IsOwned heap (record { allocator = a; live = live })
    → ((p : Ptr) → live' p ≡ live p)
    → IsOwned heap (record { allocator = a; live = live' })
IsOwned-same heap a live live' o e = record {
  blocks = o.blocks;
  sound = o.sound;
  started = o.started;
  held = λ p. e p ∙ o.held p;
}
