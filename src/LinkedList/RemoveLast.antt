-- ===== src/LinkedList/RemoveLast.antt =====
-- removeLast of h/list.hpp, whose loop looks for the element before the tail.
use mathlib.Core.Path.{subst}
use os1_project.Prelude.{
  ℕ, zero, suc, ◌<◌, ◌≡◌, ◌≢◌, refl, ap, sym, ◌∙◌, List, [], ◌∷◌, ◌++◌, arith, All-left, All-right,
  length, some, ne→==, ==_self,
}
use os1_project.LinkedList.{
  Ptr, null, Elems, LinkedList, set_next, find_prev, drop_tail, remove_last, peek_last,
}
use os1_project.LinkedList.Chain.{
  Node, Chain, Avoids, Distinct, last_addr, IsList, store_ne, store_self, last-ne, last_addr-snoc,
}

-- The last node stands behind no other of its address.
before-ne : (k n : Node) (ns : List Node) → Distinct (k ∷ (ns ++ n ∷ [])) → n.addr ≢ k.addr
before-ne k n ns d = (All-right (λ x. x.addr ≢ k.addr) ns (n ∷ []) d.0).0

Distinct-front : (ns : List Node) (n : Node) → Distinct (ns ++ n ∷ []) → Distinct ns
Distinct-front [] n d = tt
Distinct-front (k ∷ ns) n d =
    (All-left (λ x. x.addr ≢ k.addr) ns (n ∷ []) d.0, Distinct-front ns n d.1)

find_prev-last_addr :
    (ns : List Node) (n : Node) (fuel : ℕ) (m : Elems) (curr prev : Ptr)
    → Chain m (ns ++ n ∷ []) curr
    → Distinct (ns ++ n ∷ [])
    → length ns < fuel
    → find_prev fuel m n.addr curr prev ≡ some (last_addr prev ns)
unfolding find_prev
find_prev-last_addr ns n zero m curr prev c d h = absurd (omega arith)
find_prev-last_addr [] n (suc fuel) m curr prev c d h =
    rw (c.0, ne→== n.addr null c.1, ==_self n.addr) refl
find_prev-last_addr (k ∷ ns) n (suc fuel) m curr prev c d h =
    rw (c.0, ne→== k.addr null c.1, ne→== k.addr n.addr (λ e. before-ne k n ns d (sym e)))
      (find_prev-last_addr ns n fuel m (m k.addr).next k.addr c.3 d.1 (omega arith))

-- Cutting behind the element before the last.
Chain-cut :
    (ns : List Node) (k n : Node) (m : Elems) (p : Ptr)
    → Chain m (k ∷ (ns ++ n ∷ [])) p
    → Distinct (k ∷ ns)
    → Chain (set_next m (last_addr k.addr ns) null) (k ∷ ns) p
Chain-cut [] k n m p c d =
    rw (store_self m k.addr (record (m k.addr) { next = null })) (c.0, c.1, c.2, refl)
Chain-cut (j ∷ ns) k n m p c d =
    let last = last_addr j.addr ns in
    rw
      (store_ne m last (record (m last) { next = null }) k.addr
        (λ e. last-ne ns j k.addr d.0 (sym e)))
      (c.0, c.1, c.2, Chain-cut ns j n m (m k.addr).next c.3 d.1)

last-datum :
    (ns : List Node) (n : Node) (m : Elems) (p : Ptr)
    → Chain m (ns ++ n ∷ []) p
    → (n.addr ≢ null) × ((m n.addr).data_of ≡ n.datum)
last-datum [] n m p c = (c.1, c.2)
last-datum (k ∷ ns) n m p c = last-datum ns n m (m k.addr).next c.3

head-nonnull :
    (ns : List Node) (n : Node) (m : Elems) (p : Ptr) → Chain m (ns ++ n ∷ []) p → p ≢ null
head-nonnull [] n m p c e = c.1 (sym c.0 ∙ e)
head-nonnull (k ∷ ns) n m p c e = c.1 (sym c.0 ∙ e)

front-nonnull :
    (ns : List Node) (n : Node) (m : Elems) (p : Ptr) → Chain m (ns ++ n ∷ []) p → Avoids null ns
front-nonnull [] n m p c = tt
front-nonnull (k ∷ ns) n m p c = (c.1, front-nonnull ns n m (m k.addr).next c.3)

at_last : (l : LinkedList) (ns : List Node) (n : Node) → IsList l (ns ++ n ∷ []) → l.tail ≡ n.addr
at_last l ns n v = v.at_tail ∙ last_addr-snoc ns n null

drop_tail-IsList :
    (l : LinkedList) (ns : List Node) (n : Node)
    → IsList l (ns ++ n ∷ [])
    → (l' : LinkedList) × (drop_tail l (last_addr null ns) ≡ (l', n.datum)) × IsList l' ns
unfolding drop_tail
drop_tail-IsList l [] n v = (
  record l { head = null; tail = null },
  rw (at_last l [] n v, (last-datum [] n l.elems l.head v.chained).1) refl,
  record { chained = refl; at_tail = refl; once = tt },
)
drop_tail-IsList l (k ∷ ns) n v =
    let last = last_addr k.addr ns in
    let once = Distinct-front (k ∷ ns) n v.once in
    (
      record l { elems = set_next l.elems last null; tail = last },
      rw
          (
            ne→== last null (last-ne ns k null (front-nonnull (k ∷ ns) n l.elems l.head v.chained)),
            at_last l (k ∷ ns) n v,
            (last-datum (k ∷ ns) n l.elems l.head v.chained).1,
          )
          refl,
      record {
        chained = Chain-cut ns k n l.elems l.head v.chained once;
        at_tail = refl;
        once = once;
      },
    )

remove_last_steps :
    (l l' : LinkedList) (d p : Ptr) (fuel : ℕ)
    → l.head ≢ null
    → find_prev fuel l.elems l.tail l.head null ≡ some p
    → drop_tail l p ≡ (l', d)
    → remove_last fuel l ≡ some (l', d)
unfolding remove_last
remove_last_steps l l' d p fuel z e f = rw (ne→== l.head null z, e) (ap some f)

-- removeLast of a list that is not empty, with more fuel than the list has elements before its
-- last: the loop ends, the call answers the last data, which peekLast shows, and leaves the rest.
pub remove_last-IsList :
    (l : LinkedList) (ns : List Node) (n : Node) (fuel : ℕ)
    → IsList l (ns ++ n ∷ [])
    → length ns < fuel
    → (l' : LinkedList) × (remove_last fuel l ≡ some (l', n.datum))
      × (peek_last l ≡ n.datum)
      × IsList l' ns
unfolding peek_last
remove_last-IsList l ns n fuel v h =
    let (l', e, r) = drop_tail-IsList l ns n v in
    let (z, d) = last-datum ns n l.elems l.head v.chained in
    let found =
      subst (λ t. find_prev fuel l.elems t l.head null ≡ some (last_addr null ns))
        (sym (at_last l ns n v))
        (find_prev-last_addr ns n fuel l.elems l.head null v.chained v.once h) in
    (
      l',
      remove_last_steps l l' n.datum (last_addr null ns) fuel
          (head-nonnull ns n l.elems l.head v.chained) found e,
      rw (at_last l ns n v, ne→== n.addr null z) d,
      r,
    )
