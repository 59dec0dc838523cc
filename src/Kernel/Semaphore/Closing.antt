-- ===== src/Kernel/Semaphore/Closing.antt =====
-- Sem::close ends, and lets every blocked thread go, in order and marked.
use os1_project.Prelude.{
  ℕ, zero, suc, ◌≤◌, ◌<◌, ◌≡◌, ◌≢◌, refl, ap, sym, ◌∙◌, inl, inr, Bool, true, false, none, some,
  List, [], ◌∷◌, ◌++◌, append-nil, append_assoc, arith, All, length, ◌==◌, ne→==, ==_self,
  Bool-cases, Option-cases,
}
use os1_project.Prelude.Int.{pos, negsuc}
use os1_project.Kernel.{Ptr, null, Tcb, Sem, Kernel, update, put}
use os1_project.Kernel.Schedule.{Distinct, All-map_with}
use os1_project.Kernel.Semaphore.{
  Call, returns, dispatches, dangling, next_blocked, wake, unblock, close_loop, close_present,
  close,
}
use os1_project.Kernel.Semaphore.Counting.{IsHeld, IsCounted}
use os1_project.Kernel.Semaphore.Waking.{unblock_first, awake-IsHeld}

-- A round takes at least one thread off the list, whatever the flags of the threads say.
next_blocked-le : (tcbs : Ptr → Tcb) (ts : List Ptr) → length (next_blocked tcbs ts).1 ≤ length ts
unfolding next_blocked
next_blocked-le tcbs [] = omega arith
next_blocked-le tcbs (t ∷ ts) = ground (arith, next_blocked-le tcbs ts)

next_blocked-lt :
    (tcbs : Ptr → Tcb) (t : Ptr) (ts : List Ptr)
    → length (next_blocked tcbs (t ∷ ts)).1 < length (t ∷ ts)
unfolding next_blocked
next_blocked-lt tcbs t ts = ground (arith, next_blocked-le tcbs ts)

unblock-left :
    (k : Kernel) (ts : List Ptr) (flag : Bool) → (unblock k ts flag).1 ≡ (next_blocked k.tcbs ts).1
unfolding unblock
unblock-left k ts flag = ground arith

pub close_loop_total :
    (fuel : ℕ) (k : Kernel) (ts : List Ptr)
    → length ts < fuel
    → (r : Kernel × List Ptr) × (close_loop fuel k ts ≡ some r)
unfolding close_loop
close_loop_total zero k ts h = absurd (omega arith)
close_loop_total (suc fuel) k [] h = ((k, []), refl)
close_loop_total (suc fuel) k (t ∷ ts) h = elim (Bool-cases (t == null)) [
  | inl e ↦ ((k, t ∷ ts), rw e)
  | inr e ↦
      let u = unblock k (t ∷ ts) true in
      rw e (
        close_loop_total fuel u.0 u.1
          (omega (arith, ap length (unblock-left k (t ∷ ts) true), next_blocked-lt k.tcbs t ts)))
]

-- Sem::close ends in every kernel and for every handle, whatever the state of the blocked threads:
-- one round of its loop more than there are blocked threads is enough.
pub close_total : (k : Kernel) (handle : Ptr) → (c : Call) × (close k handle ≡ some c)
unfolding close close_present
close_total k handle = elim (Bool-cases (handle == null)) [
  | inl e ↦ (returns k (negsuc 0), rw e)
  | inr e ↦ elim (Option-cases (k.sems handle)) [
    | inl gone ↦ (dangling, rw (e, gone))
    | inr (s, there) ↦
        let (r, done) =
          close_loop_total (suc (length s.blocked_threads)) k s.blocked_threads (omega arith) in
        (
          returns (record r.0 { sems = update r.0.sems handle none }) (pos 0),
          rw (e, there, close_present, done),
        )
  ]
]

abbrev pub IsLetGo : Kernel → Ptr → Type 0
IsLetGo k t = ((k.tcbs t).blocked ≡ false) × ((k.tcbs t).semaphore_deleted ≡ true)

-- What the loop leaves: every thread let go and queued in order, all others as they were.
pub record LetGo (k : Kernel) (ts : List Ptr) (k' : Kernel) : Type 0 where
  pub queued : k'.ready_thread_queue ≡ k.ready_thread_queue ++ ts
  pub marked : All (IsLetGo k') ts
  pub others : (u : Ptr) → All (λ t. u ≢ t) ts → k'.tcbs u ≡ k.tcbs u
  pub same_sems : k'.sems ≡ k.sems

first_marked :
    (k : Kernel) (t : Ptr) (ts : List Ptr) (k' : Kernel)
    → All (λ u. u ≢ t) ts
    → ((u : Ptr) → All (λ v. u ≢ v) ts → k'.tcbs u ≡ (wake k t true).tcbs u)
    → IsLetGo k' t
unfolding wake put update
first_marked k t ts k' d others =
    let same = others t (All-map_with ts (λ v h e. h (sym e)) d) in
    (ap (λ x. x.blocked) same ∙ rw (==_self t), ap (λ x. x.semaphore_deleted) same ∙ rw (==_self t))

close_loop-LetGo :
    (ts : List Ptr) (fuel : ℕ) (k : Kernel)
    → length ts < fuel
    → All (IsHeld k.tcbs) ts
    → Distinct ts
    → (k' : Kernel) × (close_loop fuel k ts ≡ some (k', [])) × LetGo k ts k'
unfolding close_loop
close_loop-LetGo ts zero k h held once = absurd (omega arith)
close_loop-LetGo [] (suc fuel) k h held once = (
  k,
  refl,
  record { queued = sym (append-nil _); marked = tt; others = λ u a. refl; same_sems = refl },
)
close_loop-LetGo (t ∷ ts) (suc fuel) k h held once =
    let woken = wake k t true in
    let (k', e, l) =
      close_loop-LetGo ts fuel woken (omega arith)
        (unfold wake put in awake-IsHeld k.tcbs t true ts held.1 once.0) once.1 in
    (
      k',
      rw (ne→== t null held.0.0, unblock_first k t ts true held.0) e,
      record {
        queued = l.queued ∙ unfold wake put in append_assoc k.ready_thread_queue (t ∷ []) ts;
        marked = (first_marked k t ts k' once.0 l.others, l.marked);
        others = λ u a. l.others u a.1 ∙ unfold wake put update in rw (ne→== u t a.0);
        same_sems = l.same_sems ∙ unfold wake put in refl;
      },
    )

-- Sem::close of a semaphore whose blocked threads are really held: it returns 0, the semaphore is
-- gone, the threads that waited are let go and queued in the order they came, each marked so that
-- its wait fails, and no other thread changes.
pub close-LetGo :
    (k : Kernel) (handle : Ptr) (s : Sem)
    → handle ≢ null
    → k.sems handle ≡ some s
    → IsCounted k s
    → (k' : Kernel) × (close k handle ≡ some (returns k' (pos 0)))
      × (k'.sems handle ≡ none)
      × (k'.ready_thread_queue ≡ k.ready_thread_queue ++ s.blocked_threads)
      × All (IsLetGo k') s.blocked_threads
      × ((u : Ptr) → All (λ t. u ≢ t) s.blocked_threads → k'.tcbs u ≡ k.tcbs u)
unfolding close close_present update
close-LetGo k handle s z there c =
    let (k1, e, l) =
      close_loop-LetGo s.blocked_threads (suc (length s.blocked_threads)) k (omega arith) c.held
        c.once in
    (
      record k1 { sems = update k1.sems handle none },
      rw (ne→== handle null z, there, e),
      rw (==_self handle),
      l.queued,
      l.marked,
      l.others,
    )

-- Sem::close of a semaphore that is there is its loop, and the end of the object.
pub close-parts :
    (k : Kernel) (handle : Ptr) (s : Sem)
    → handle ≢ null
    → k.sems handle ≡ some s
    → (k1 : Kernel) × (left : List Ptr) × (close_loop
          (suc (length s.blocked_threads))
          k
          s.blocked_threads
        ≡ some (k1, left))
      × (close k handle ≡ some (returns (record k1 { sems = update k1.sems handle none }) (pos 0)))
unfolding close close_present
close-parts k handle s z there =
    let ((k1, left), e) =
      close_loop_total (suc (length s.blocked_threads)) k s.blocked_threads (omega arith) in
    (k1, left, e, rw (ne→== handle null z, there, e) refl)

abbrev pub left_kernel : Kernel → Call → Kernel
left_kernel d (returns k code) = k
left_kernel d (dispatches k) = k
left_kernel d dangling = d
