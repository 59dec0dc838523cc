-- ===== src/Kernel/Semaphore/Counting.antt =====
-- Counting semaphores: the value below zero is the number of blocked threads, served in order.
use os1_project.Prelude.{
  zero, suc, ◌+◌, ◌<◌, ◌≡◌, ◌≢◌, refl, ap, true, false, some, List, [], ◌∷◌, ◌++◌, arith, All,
  All-append, length, length-append, ne→==, ==_self,
}
use os1_project.Prelude.Int.{ℤ, pos, negsuc, pos_part, neg_part, ◌-ℤ◌, ltb_ℤ}
use os1_project.Kernel.{Ptr, null, Tcb, Sem, Kernel, update}
use os1_project.Kernel.Schedule.{Distinct, Distinct-snoc, All-map_with}
use os1_project.Kernel.Semaphore.{
  Call, returns, dispatches, dangling, set_sem, with_sem, block, wait,
}

-- A thread that a semaphore may hold: an object, and blocked.
abbrev pub IsHeld : (Ptr → Tcb) → Ptr → Type 0
IsHeld tcbs t = (t ≢ null) × ((tcbs t).blocked ≡ true)

pub record IsCounted (k : Kernel) (s : Sem) : Type 0 where
  pub count : neg_part s.value ≡ length s.blocked_threads
  pub held : All (IsHeld k.tcbs) s.blocked_threads
  pub once : Distinct s.blocked_threads

-- What a thread's wait comes to.
abbrev pub Waited : Kernel → Ptr → Sem → Call → Type 0
Waited k handle s (returns k' code) =
    (0 < pos_part s.value)
    × (code ≡ pos 0)
    × (k' ≡ set_sem k handle (record s { value = s.value -ℤ pos 1 }))
Waited k handle s (dispatches k') =
    (pos_part s.value ≡ 0)
    × (s' : Sem) × (k'.sems handle ≡ some s')
    × (s'.value ≡ s.value -ℤ pos 1)
    × (s'.blocked_threads ≡ s.blocked_threads ++ k.running ∷ [])
    × ((k'.tcbs k.running).blocked ≡ true)
    × (k'.ready_thread_queue ≡ k.ready_thread_queue)
    × (k'.running ≡ k.running)
    × IsCounted k' s'
Waited k handle s dangling = ⊥

abbrev marked : (Ptr → Tcb) → Ptr → Ptr → Tcb
marked tcbs p = update tcbs p (record (tcbs p) { blocked = true })

marked-IsHeld :
    (tcbs : Ptr → Tcb) (p : Ptr) (ts : List Ptr)
    → All (IsHeld tcbs) ts
    → All (IsHeld (marked tcbs p)) ts
unfolding update
marked-IsHeld tcbs p ts = All-map_with ts λ t h. (h.0, ground arith)

running_not_held :
    (tcbs : Ptr → Tcb) (p : Ptr) (ts : List Ptr)
    → (tcbs p).blocked ≡ false
    → All (IsHeld tcbs) ts
    → All (λ t. t ≢ p) ts
running_not_held tcbs p ts free = All-map_with ts λ t h e. cc (ap (λ q. (tcbs q).blocked) e)

pub down_negative :
    (v : ℤ)
    → pos_part v ≡ 0
    → (ltb_ℤ (v -ℤ pos 1) (pos 0) ≡ true) × (neg_part (v -ℤ pos 1) ≡ neg_part v + 1)
unfolding ◌-ℤ◌
down_negative v h = ground arith

pub down_positive : (v : ℤ) → 0 < pos_part v → ltb_ℤ (v -ℤ pos 1) (pos 0) ≡ false
unfolding ◌-ℤ◌
down_positive v h = ground arith

module _ (k : Kernel) (handle : Ptr) (s : Sem) (hn : handle ≢ null) (e : k.sems handle ≡ some s)
    (c : IsCounted k s) where
  wait_passes : 0 < pos_part s.value → Waited k handle s (wait k handle)
  unfolding wait
  wait_passes h = rw (ne→== handle null hn, e, with_sem, down_positive s.value h) (h, refl, refl)

  wait_blocks :
      pos_part s.value ≡ 0
      → k.running ≢ null
      → (k.tcbs k.running).blocked ≡ false
      → Waited k handle s (wait k handle)
  unfolding wait block
  wait_blocks z rn free =
      rw (ne→== handle null hn, e, with_sem, (down_negative s.value z).0, ne→== k.running null rn)
        (
          z,
          record s {
            value = s.value -ℤ pos 1;
            blocked_threads = s.blocked_threads ++ k.running ∷ [];
          },
          unfold update in rw (==_self handle),
          refl,
          refl,
          unfold update in rw (==_self k.running),
          refl,
          refl,
          record {
            count = omega (
              arith,
              (down_negative s.value z).1,
              c.count,
              length-append s.blocked_threads (k.running ∷ []),
            );
            held =
                All-append (IsHeld (marked k.tcbs k.running)) s.blocked_threads (k.running ∷ [])
                  (marked-IsHeld k.tcbs k.running s.blocked_threads c.held)
                  ((rn, unfold update in rw (==_self k.running)), tt);
            once =
                Distinct-snoc s.blocked_threads k.running c.once
                  (running_not_held k.tcbs k.running s.blocked_threads free c.held);
          },
        )

  -- Sem::wait of a running thread that is not blocked, on a present semaphore whose negative value
  -- counts its blocked threads, all blocked and each there once: the value goes down by one. If it
  -- was positive, the call returns 0 and nothing else changes; otherwise the thread becomes the last
  -- of the blocked ones, is marked as blocked and gives up the processor, the ready queue stays, and
  -- the value still counts the blocked threads.
  pub wait-Waited :
      k.running ≢ null → (k.tcbs k.running).blocked ≡ false → Waited k handle s (wait k handle)
  wait-Waited rn free = by_value s.value refl
    where
      by_value : (v : ℤ) → s.value ≡ v → Waited k handle s (wait k handle)
      by_value (pos zero) ev = wait_blocks (ap pos_part ev) rn free
      by_value (pos (suc n)) ev = wait_passes (rw (ap pos_part ev) (omega arith))
      by_value (negsuc n) ev = wait_blocks (ap pos_part ev) rn free
