-- ===== src/Kernel/Semaphore.antt =====
-- src/Sem.cpp: the semaphore operations, on the kernel's objects. The value of a semaphore is an
-- integer without bounds: the source's int is undefined where it would overflow.
pub mod Counting
pub mod Waking
pub mod Closing
pub mod Trying
use os1_project.Prelude.{
  ℕ, zero, suc, ◌+◌, ◌-◌, ◌%◌, ◌^◌, Bool, true, false, Option, none, some, List, [], ◌∷◌, ◌++◌, ltb,
  ◌==◌, if◌then◌else◌, length, ◌>>=◌,
}
use os1_project.Prelude.Int.{ℤ, pos, negsuc, ◌+ℤ◌, ◌-ℤ◌, ltb_ℤ}
use os1_project.Kernel.{Ptr, null, Tcb, Sem, Kernel, update, put}

-- How a call ends: with a code, in Sem::block at its call of TCB::dispatch, or at an object that
-- is not there.
pub data Call : Type 0 where
  returns : Kernel → ℤ → Call
  dispatches : Kernel → Call
  dangling : Call

-- uint64 to int
unfoldable pub to_int : ℕ → ℤ
to_int n = let low = n % 2 ^ 32 in if ltb low (2 ^ 31) then pos low else negsuc (2 ^ 32 - 1 - low)

abbrev pub on_sem : {A : Type 0} → Option Sem → A → (Sem → A) → A
on_sem none missing f = missing
on_sem (some s) missing f = f s

-- A call of a method through a handle that is not null.
abbrev pub with_sem : Kernel → Ptr → (Sem → Call) → Call
with_sem k handle f = on_sem (k.sems handle) dangling f

abbrev pub set_sem : Kernel → Ptr → Sem → Kernel
set_sem k handle s = record k { sems = update k.sems handle (some s) }

unfoldable pub open_sem : Kernel → Ptr → Ptr → ℤ → Kernel × ℤ
open_sem k fresh handle init =
    if handle == null
    then (k, negsuc 0)
    else let s : Sem = record {
      value = init;
      deleted = false;
      mutex = pos 1;
      blocked_threads = [];
      mutex_blocked_threads = [];
    } in
      let made = record k {
        sems = update k.sems fresh (some s);
        words = update k.words handle fresh;
      } in
      (made, if fresh == null then negsuc 0 else pos 0)

-- Sem::block, without the node of the list of blocked threads.
unfoldable pub block : Kernel → Ptr → Sem → Call
block k handle s =
    if k.running == null
    then returns k (negsuc 1)
    else dispatches (record k {
      tcbs = update k.tcbs k.running (record (k.tcbs k.running) { blocked = true });
      sems =
          update k.sems handle
            (some (record s { blocked_threads = s.blocked_threads ++ k.running ∷ [] }));
    })

-- The do-while of Sem::unblock: the first blocked thread of the list (null: there is none), and
-- the list behind it.
unfoldable pub next_blocked : (Ptr → Tcb) → List Ptr → Ptr × List Ptr
next_blocked tcbs [] = (null, [])
next_blocked tcbs (t ∷ ts) =
    let again = next_blocked tcbs ts in
    if t == null then (null, ts) else if (tcbs t).blocked then (t, ts) else again

-- What Sem::unblock does to a thread that it has found.
unfoldable pub wake : Kernel → Ptr → Bool → Kernel
wake k thread semaphore_deleted =
    put
      (record k {
        tcbs =
            update k.tcbs thread
              (record (k.tcbs thread) { blocked = false; semaphore_deleted = semaphore_deleted });
      })
      thread

-- The list of blocked threads is passed beside the kernel, and is the caller's to store; the nodes that
-- the two lists take and give back are left to NodeStep.
unfoldable pub unblock : Kernel → List Ptr → Bool → Kernel × List Ptr × ℤ
unblock k blocked_threads semaphore_deleted =
    let (thread, left) = next_blocked k.tcbs blocked_threads in
    if thread == null then (k, left, negsuc 0) else (wake k thread semaphore_deleted, left, pos 0)

unfoldable pub wait : Kernel → Ptr → Call
wait k handle =
    if handle == null
    then returns k (negsuc 0)
    else with_sem k handle λ s.
      let down = record s { value = s.value -ℤ pos 1 } in
      if ltb_ℤ down.value (pos 0)
      then block (set_sem k handle down) handle down
      else returns (set_sem k handle down) (pos 0)

unfoldable pub signal : Kernel → Ptr → Call
signal k handle =
    if handle == null
    then returns k (negsuc 0)
    else with_sem k handle λ s.
      let up = record s { value = s.value +ℤ pos 1 } in
      if ltb_ℤ (pos 0) up.value
      then returns (set_sem k handle up) (pos 0)
      else let (k', left, code) = unblock k up.blocked_threads false in
        returns (set_sem k' handle (record up { blocked_threads = left })) code

-- The loop of Sem::close: while the list has a first thread, unblock one. `none`: out of fuel.
unfoldable pub close_loop : ℕ → Kernel → List Ptr → Option (Kernel × List Ptr)
close_loop zero k blocked_threads = none
close_loop (suc fuel) k [] = some (k, [])
close_loop (suc fuel) k (t ∷ ts) =
    let (k', left, code) = unblock k (t ∷ ts) true in
    let more = close_loop fuel k' left in if t == null then some (k, t ∷ ts) else more

-- A round takes a thread off the list, so its length is fuel enough.
unfoldable pub close_present : Kernel → Ptr → Sem → Option Call
close_present k handle s =
    close_loop (suc (length s.blocked_threads)) k s.blocked_threads >>= λ (k', left).
    some (returns (record k' { sems = update k'.sems handle none }) (pos 0))

unfoldable pub close : Kernel → Ptr → Option Call
close k handle =
    if handle == null
    then some (returns k (negsuc 0))
    else on_sem (k.sems handle) (some dangling) (close_present k handle)

unfoldable pub timedwait : Kernel → Ptr → ℕ → Call
timedwait k handle timeout = returns k (negsuc 0)

abbrev pub is_one : ℤ → Bool
is_one (pos n) = n == 1
is_one (negsuc n) = false

unfoldable pub trywait : Kernel → Ptr → Call
trywait k handle =
    if handle == null
    then returns k (negsuc 0)
    else with_sem k handle λ s.
      if is_one s.value
      then returns (set_sem k handle (record s { value = s.value -ℤ pos 1 })) (pos 0)
      else returns k (pos 1)
