-- ===== src/Kernel/Machine/Queue.antt =====
-- TCB::dispatch of src/tcb.cpp with the memory of the nodes in Scheduler's queue: `ns` are the nodes of
-- the list (h/list.hpp) from its head on. None is a fault: `new Elem` writes through null.
use os1_project.Prelude.{
  ◌≡◌, ◌≢◌, refl, sym, ap, ◌∙◌, ◌⊎◌, inl, inr, Option, none, some, List, [], ◌∷◌, ◌++◌, ◌==◌,
  if◌then◌else◌, ◌>>=◌, length, length-append, All, All-append, ne→==, true, subst, arith,
  Bool-cases,
}
use os1_project.Prelude.Int.{pos}
use os1_project.Allocator
use os1_project.Allocator.{HeapBounds, MemoryAllocator, bytes_in_blocks}
use os1_project.Allocator.Release
use os1_project.Allocator.History.{IsHeap}
use os1_project.Allocator.History.Steps.{released-IsOwned}
use os1_project.Allocator.History.Grants.{mem_alloc-Served}
use os1_project.Kernel.{
  Ptr, null, Resume, Kernel, Dispatch, returned, switched, null_context, update, put, get,
  head_or_null, rest, is_runnable, dispatch,
}
use os1_project.Kernel.Schedule.{Distinct, Distinct-snoc, All-map_with, All-and}
use os1_project.Kernel.Invariant.Blocking.{update_self, update_ne}
use os1_project.Kernel.Machine.{
  nobody, node, is_held, Machine, IsMachine, memory, size_of_elem, NodeStep, new_elem, delete_elem,
}
use os1_project.Kernel.Machine.Holders.{not_held, update-is}
use os1_project.Kernel.Machine.Nodes.{NodeStep-IsMachine}

-- Scheduler::put, with `new Elem` of addLast.
unfoldable pub put_with_node : HeapBounds → Kernel → List Ptr → Ptr → Option (Kernel × List Ptr)
put_with_node heap k ns t =
    Allocator.mem_alloc heap k.allocator (bytes_in_blocks size_of_elem) >>= λ (a, p).
    if p == null then none else some (put (record k { allocator = a }) t, ns ++ p ∷ [])

-- Scheduler::get, with `delete elem` of removeFirst.
unfoldable pub get_with_node : HeapBounds → Kernel → List Ptr → Option (Kernel × Ptr × List Ptr)
get_with_node heap k [] = let (taken, next) = get k in some (taken, next, [])
get_with_node heap k (p ∷ ps) = Release.mem_free heap k.allocator p >>= λ (a, code).
    let (taken, next) = get (record k { allocator = a }) in some (taken, next, ps)

unfoldable pub dispatch_with_nodes :
    HeapBounds → Kernel → List Ptr → Resume → Option (Dispatch × List Ptr)
dispatch_with_nodes heap k ns here =
    if k.running == null
    then some (returned k, ns)
    else let old = k.running in
      (if is_runnable (k.tcbs old) then put_with_node heap k ns old else some (k, ns))
      >>= λ (queued, ms). get_with_node heap queued ms >>= λ (taken, next, left).
          let saved = record taken {
            running = next;
            tcbs = update taken.tcbs old (record (taken.tcbs old) { context = here });
          } in
          some
            (if next == null then null_context else switched saved (saved.tcbs next).context, left)

-- The nodes of the ready queue: one for each thread, each of them another one, held as nodes.
pub record HasNodes (m : Machine) (ns : List Ptr) : Type 0 where
  pub many : length ns ≡ length m.kernel.ready_thread_queue
  pub held : All (λ p. m.holder p ≡ node) ns
  pub once : Distinct ns

-- The queue's head behind a put, and what is behind it.
queue_parts :
    (ns : List Ptr) (p : Ptr)
    → (h : Ptr) × (ls : List Ptr) × (ns ++ p ∷ [] ≡ h ∷ ls) × (length ls ≡ length ns)
queue_parts [] p = (p, [], refl, refl)
queue_parts (n ∷ ns) p = (n, ns ++ p ∷ [], refl, omega (arith, length-append ns (p ∷ [])))

module _ (heap : HeapBounds) (k : Kernel) (ns : List Ptr) (here : Resume)
    (present : k.running ≢ null) (runnable : is_runnable (k.tcbs k.running) ≡ true) where
  -- Without memory for the node, a yield writes through null.
  dispatch_with_nodes-full :
      (a : MemoryAllocator)
      → Allocator.mem_alloc heap k.allocator (bytes_in_blocks size_of_elem) ≡ some (a, null)
      → dispatch_with_nodes heap k ns here ≡ none
  unfolding dispatch_with_nodes put_with_node
  dispatch_with_nodes-full a e = rw (ne→== k.running null present, runnable, e) refl

  -- Otherwise it is the switch on the lists of threads alone, behind one node more and one less.
  dispatch_with_nodes-got :
      (a b : MemoryAllocator) (p h : Ptr) (ls : List Ptr)
      → Allocator.mem_alloc heap k.allocator (bytes_in_blocks size_of_elem) ≡ some (a, p)
      → p ≢ null
      → ns ++ p ∷ [] ≡ h ∷ ls
      → Release.mem_free heap a h ≡ some (b, pos 0)
      → dispatch_with_nodes heap k ns here ≡ some (dispatch (record k { allocator = b }) here, ls)
  unfolding dispatch_with_nodes put_with_node get_with_node dispatch put get
  dispatch_with_nodes-got a b p h ls e n parts freed =
      rw (ne→== k.running null present, runnable, e, ne→== p null n, parts, freed) refl

-- As many nodes as threads in the queue, where the switch has led to a thread.
abbrev pub Fits : Dispatch → List Ptr → Type 0
Fits (returned k) ls = length ls ≡ length k.ready_thread_queue
Fits (switched k place) ls = length ls ≡ length k.ready_thread_queue
Fits null_context ls = Unit

length-rest : (q : List Ptr) (t : Ptr) → length (rest (q ++ t ∷ [])) ≡ length q
length-rest [] t = refl
length-rest (u ∷ q) t = omega (arith, length-append q (t ∷ []))

dispatch-Fits :
    (k : Kernel) (here : Resume) (ls : List Ptr)
    → k.running ≢ null
    → is_runnable (k.tcbs k.running) ≡ true
    → length ls ≡ length k.ready_thread_queue
    → Fits (dispatch k here) ls
unfolding dispatch put get
dispatch-Fits k here ls present runnable many =
    let q = k.ready_thread_queue ++ k.running ∷ [] in
    rw (ne→== k.running null present, runnable)
      (elim (Bool-cases (head_or_null q == null)) [
        | inl e ↦ rw e tt
        | inr e ↦ rw e (many ∙ sym (length-rest k.ready_thread_queue k.running))
      ])

-- The nodes behind a switch: the first one goes, and a new one comes behind the others.
module _ (m : Machine) (ns : List Ptr) (w : HasNodes m ns) (a b : MemoryAllocator) (p : Ptr)
    (unheld : m.holder p ≡ nobody) where
  abbrev with_node : Machine
  with_node = record { kernel = record m.kernel { allocator = a }; holder = update m.holder p node }

  abbrev without_head : Ptr → Machine
  without_head h = record {
    kernel = record m.kernel { allocator = b };
    holder = update with_node.holder h nobody;
  }

  appended_held : All (λ q. with_node.holder q ≡ node) (ns ++ p ∷ [])
  appended_held =
      All-append (λ q. with_node.holder q ≡ node) ns (p ∷ [])
        (All-map_with ns (λ q e. update-is m.holder p node node q e (λ f. cc)) w.held)
        (update_self m.holder p node, tt)

  appended_once : Distinct (ns ++ p ∷ [])
  appended_once =
      Distinct-snoc ns p w.once
        (All-map_with ns (λ q e same. cc (sym e ∙ ap m.holder same ∙ unheld)) w.held)

  left-HasNodes :
      (h : Ptr) (ls : List Ptr)
      → ns ++ p ∷ [] ≡ h ∷ ls
      → length ls ≡ length ns
      → (with_node.holder h ≡ node) × HasNodes (without_head h) ls
  left-HasNodes h ls parts many =
      let held = subst (All (λ q. with_node.holder q ≡ node)) parts appended_held in
      let once = subst Distinct parts appended_once in
      (
        held.0,
        record {
          many = many ∙ w.many;
          held =
              All-and ls (λ q e other. update_ne with_node.holder h nobody q other ∙ e) held.1
                once.0;
          once = once.1;
        },
      )

-- How a yield ends that counts the nodes: without memory for a node, by a write through null; or
-- as the switch on the lists of threads alone, with the machine in order behind the two steps of
-- nodes, and a node for each thread of the queue that the switch leaves.
abbrev pub Yields : HeapBounds → Machine → List Ptr → Resume → Type 0
Yields heap m ns here =
    ((Allocator.mem_alloc heap m.kernel.allocator (bytes_in_blocks size_of_elem)
        ≡ some (m.kernel.allocator, null))
      × (dispatch_with_nodes heap m.kernel ns here ≡ none))
    ⊎ ((m1 : Machine) × (m2 : Machine) × (ls : List Ptr) × NodeStep heap m m1
        × NodeStep heap m1 m2
        × (m2.kernel ≡ record m.kernel { allocator = m2.kernel.allocator })
        × (dispatch_with_nodes heap m.kernel ns here ≡ some (dispatch m2.kernel here, ls))
        × Fits (dispatch m2.kernel here) ls
        × IsMachine heap m2
        × HasNodes m2 ls)

-- On a heap above null and below 2 ^ 64, in a kernel with its memory in the invariant and with a node
-- for each thread of the queue: TCB::dispatch of the running thread, nodes included, writes through
-- null if the allocator has no memory for its node. Otherwise it is the same switch as on the lists of
-- threads alone, behind two steps of nodes that change only the allocator and the holders; behind
-- these the kernel with its memory is in the invariant, and behind the switch there is a node for each
-- thread of the queue again.
pub dispatch_with_nodes-dispatch :
    (heap : HeapBounds) (m : Machine) (ns : List Ptr) (here : Resume)
    → IsHeap heap
    → IsMachine heap m
    → HasNodes m ns
    → Yields heap m ns here
dispatch_with_nodes-dispatch heap m ns here good v w =
    let present = v.kernel.ready.scheduled.present in
    let runnable = v.kernel.ready.scheduled.runnable in
    elim (mem_alloc-Served heap (memory m) (bytes_in_blocks size_of_elem) v.owned) [
      | inl e ↦
          inl (
            e,
            dispatch_with_nodes-full heap m.kernel ns here present runnable m.kernel.allocator e,
          )
      | inr (a, p, e, n, unheld, o) ↦
          let (h, ls, parts, many) = queue_parts ns p in
          let nobodys = not_held (m.holder p) unheld in
          let m1 = with_node m ns w a a p nobodys in
          let s1 = new_elem p e n in
          let v1 = NodeStep-IsMachine heap m m1 good v s1 in
          let held = (left-HasNodes m ns w a a p nobodys h ls parts many).0 in
          let (b, freed, _) = released-IsOwned heap (memory m1) v1.owned h (ap is_held held) good in
          let m2 = without_head m ns w a b p nobodys h in
          let s2 = delete_elem h held freed in
          let left = (left-HasNodes m ns w a b p nobodys h ls parts many).1 in
          inr (
            m1,
            m2,
            ls,
            s1,
            s2,
            refl,
            dispatch_with_nodes-got heap m.kernel ns here present runnable a b p h ls e n parts
                freed,
            dispatch-Fits m2.kernel here ls present runnable left.many,
            NodeStep-IsMachine heap m1 m2 good v1 s2,
            left,
          )
    ]
