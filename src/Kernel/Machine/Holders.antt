-- ===== src/Kernel/Machine/Holders.antt =====
-- What a change of one holder keeps.
use os1_project.Prelude.{
  ◌≡◌, ◌≢◌, refl, sym, ap, ◌∙◌, subst, inl, inr, Bool, false, Bool-cases, ◌==◌, ==_iff,
}
use os1_project.Allocator.{HeapBounds, MemoryAllocator}
use os1_project.Allocator.History.{set_live, IsOwned}
use os1_project.Allocator.History.Grants.{IsOwned-same}
use os1_project.Kernel.{Ptr, null, Kernel, update}
use os1_project.Kernel.Schedule.{All-map_with}
use os1_project.Kernel.Trap.Exit.{SameThreads}
use os1_project.Kernel.Invariant.{IsKernel, SameThreads-IsKernel}
use os1_project.Kernel.Invariant.Objects.{IsNew}
use os1_project.Kernel.Frame.{Threads, is_some, Confined}
use os1_project.Kernel.Machine.{
  Holder, nobody, caller, thread, unstarted, semaphore, node, is_held, is_semaphore, Machine,
  IsMachine,
}

-- The same addresses are held when `p` gets another holder, as far as memory goes.
updated-held :
    (holder : Ptr → Holder) (p : Ptr) (h : Holder) (q : Ptr)
    → is_held (update holder p h q) ≡ set_live (λ r. is_held (holder r)) p (is_held h) q
unfolding update set_live
updated-held holder p h q = elim (Bool-cases (q == p)) [ inl e ↦ rw e refl | inr e ↦ rw e refl ]

pub updated-IsOwned :
    (heap : HeapBounds) (a : MemoryAllocator) (holder : Ptr → Holder) (p : Ptr) (h : Holder)
    → IsOwned heap
        (record { allocator = a; live = set_live (λ r. is_held (holder r)) p (is_held h) })
    → IsOwned heap (record { allocator = a; live = λ q. is_held (update holder p h q) })
updated-IsOwned heap a holder p h o = IsOwned-same heap a _ _ o (updated-held holder p h)

-- A property that the new holder shares with the old one is kept everywhere.
pub update_agrees :
    (f : Holder → Bool) (holder : Ptr → Holder) (p : Ptr) (h : Holder)
    → f h ≡ f (holder p)
    → (t : Ptr) → f (update holder p h t) ≡ f (holder t)
unfolding update
update_agrees f holder p h e t = elim (Bool-cases (t == p)) [
  | inl s ↦ rw s (e ∙ ap (λ x. f (holder x)) (sym ((==_iff t p).0 s)))
  | inr s ↦ rw s refl
]

pub not_held : (h : Holder) → is_held h ≡ false → h ≡ nobody
not_held nobody e = refl
not_held caller e = absurd (cc)
not_held thread e = absurd (cc)
not_held unstarted e = absurd (cc)
not_held semaphore e = absurd (cc)
not_held node e = absurd (cc)

-- `update` at an address that is not of the kind.
pub update-is :
    (holder : Ptr → Holder) (p : Ptr) (h x : Holder) (t : Ptr)
    → holder t ≡ x
    → holder p ≢ x
    → update holder p h t ≡ x
unfolding update
update-is holder p h x t e n = elim (Bool-cases (t == p)) [
  | inl s ↦ absurd (n (ap holder (sym ((==_iff t p).0 s)) ∙ e))
  | inr s ↦ rw s e
]

pub update_back :
    (holder : Ptr → Holder) (p : Ptr) (h x : Holder) (t : Ptr)
    → update holder p h t ≡ x
    → h ≢ x
    → holder t ≡ x
unfolding update
update_back holder p h x t e n = elim (Bool-cases (t == p)) [
  | inl s ↦ absurd (n (sym (rw s refl) ∙ e))
  | inr s ↦ sym (rw s refl) ∙ e
]

-- The threads of the kernel are threads to the memory, whoever else comes or goes.
pub Threads_map :
    (P Q : Ptr → Type 0) (k : Kernel) → ((t : Ptr) → P t → Q t) → Threads P k → Threads Q k
Threads_map P Q k f w = record {
  running = f k.running w.running;
  ready = All-map_with {P = P} k.ready_thread_queue f w.ready;
  blocked = λ h s e. All-map_with {P = P} s.blocked_threads f (w.blocked h s e);
}

module _ (heap : HeapBounds) (m : Machine) (v : IsMachine heap m) where
  abbrev IsThread : Ptr → Type 0
  IsThread t = m.holder t ≡ thread

  -- What is not a thread to the memory is new to the kernel.
  pub not_thread-IsNew : (t : Ptr) → t ≢ null → m.holder t ≢ thread → IsNew m.kernel t
  not_thread-IsNew t n other =
      let differs : (u : Ptr) → m.holder u ≡ thread → u ≢ t =
        λ u e same. other (ap m.holder (sym same) ∙ e) in
      record {
        present = n;
        idle = λ same. differs m.kernel.running v.threads.running (sym same);
        unqueued = All-map_with {P = IsThread} m.kernel.ready_thread_queue differs v.threads.ready;
        unblocked = λ h s e.
            All-map_with {P = IsThread} s.blocked_threads differs (v.threads.blocked h s e);
      }

  -- A step that touches known threads alone.
  pub Confined-IsMachine :
      (on : Ptr → Ptr) (k' : Kernel)
      → IsKernel on k'
      → Confined IsThread m.kernel k'
      → IsMachine heap (record { kernel = k'; holder = m.holder })
  Confined-IsMachine on k' w c = record {
    on = on;
    kernel = w;
    owned =
        subst (λ a. IsOwned heap (record { allocator = a; live = λ p. is_held (m.holder p) }))
          (sym c.allocator) v.owned;
    threads = c.threads;
    startable = λ t e.
        let s = v.startable t e in
        let same = c.others t (λ u f g. cc) in
        record { runnable = rw same s.runnable; place = rw same s.place };
    semaphores = λ h. c.same_sems h ∙ v.semaphores h;
    null_free = v.null_free;
  }

  -- A step that leaves threads and semaphores alone.
  pub renewed-IsMachine :
      (k' : Kernel) (holder : Ptr → Holder)
      → SameThreads m.kernel k'
      → IsOwned heap (record { allocator = k'.allocator; live = λ p. is_held (holder p) })
      → ((t : Ptr) → m.holder t ≡ thread → holder t ≡ thread)
      → ((t : Ptr) → holder t ≡ unstarted → m.holder t ≡ unstarted)
      → ((h : Ptr) → is_semaphore (holder h) ≡ is_semaphore (m.holder h))
      → holder null ≡ nobody
      → IsMachine heap (record { kernel = k'; holder = holder })
  renewed-IsMachine k' holder same o threads fresh sems z = record {
    on = v.on;
    kernel = SameThreads-IsKernel v.on m.kernel k' same v.kernel;
    owned = o;
    threads = record {
      running = rw same.0 (threads m.kernel.running v.threads.running);
      ready =
          rw same.2
            (All-map_with {P = IsThread} m.kernel.ready_thread_queue threads v.threads.ready);
      blocked = λ h s e.
          All-map_with {P = IsThread} s.blocked_threads threads
            (v.threads.blocked h s (ap (λ f. f h) (sym same.3) ∙ e));
    };
    startable = λ t e.
        let s = v.startable t (fresh t e) in
        record { runnable = rw same.1 s.runnable; place = rw same.1 s.place };
    semaphores = λ h. ap (λ f. is_some (f h)) same.3 ∙ v.semaphores h ∙ sym (sems h);
    null_free = z;
  }
