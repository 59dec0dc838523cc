-- ===== src/LinkedList/Ends.antt =====
-- addFirst, addLast, removeFirst and the peeks of h/list.hpp on the list that the elements stand for.
use mathlib.Core.Path.{subst}
use os1_project.Prelude.{
  ◌≡◌, ◌≢◌, refl, ap, sym, ◌∙◌, List, [], ◌∷◌, ◌++◌, ◌==◌, false, if◌then◌else◌, ne→==,
}
use os1_project.LinkedList.{
  Ptr, null, Elems, LinkedList, store, set_next, add_first, add_last, remove_first, peek_first,
  peek_last,
}
use os1_project.LinkedList.Chain.{
  Node, node, Chain, Avoids, Distinct, last_addr, IsList, store_ne, store_self, Chain-store,
  last-ne, Distinct-snoc, last_addr-snoc,
}

-- The last node gets the new element behind it.
Chain-append :
    (ns : List Node) (k : Node) (m : Elems) (p elem d : Ptr)
    → Chain m (k ∷ ns) p
    → Distinct (k ∷ ns)
    → elem ≢ null
    → Avoids elem (k ∷ ns)
    → let made = store m elem (record { data_of = d; next = null }) in
      Chain (set_next made (last_addr k.addr ns) elem) (k ∷ (ns ++ node elem d ∷ [])) p
Chain-append [] k m p elem d c once z a =
    let made = store m elem (record { data_of = d; next = null }) in
    rw
      (
        store_self made k.addr (record (made k.addr) { next = elem }),
        store_ne made k.addr (record (made k.addr) { next = elem }) elem (λ e. a.0 (sym e)),
        store_ne m elem (record { data_of = d; next = null }) k.addr a.0,
        store_self m elem (record { data_of = d; next = null }),
      )
      (c.0, c.1, c.2, (refl, z, refl, refl))
Chain-append (n ∷ ns) k m p elem d c once z a =
    let made = store m elem (record { data_of = d; next = null }) in
    let last = last_addr n.addr ns in
    rw
      (
        store_ne made last (record (made last) { next = elem }) k.addr
            (λ e. last-ne ns n k.addr once.0 (sym e)),
        store_ne m elem (record { data_of = d; next = null }) k.addr a.0,
      )
      (c.0, c.1, c.2, Chain-append ns n m (m k.addr).next elem d c.3 once.1 z a.1)

pub nodes-nonnull :
    (ns : List Node) (n : Node) (m : Elems) (p : Ptr) → Chain m (n ∷ ns) p → Avoids null (n ∷ ns)
nodes-nonnull [] n m p c = (c.1, tt)
nodes-nonnull (k ∷ ns) n m p c = (c.1, nodes-nonnull ns k m (m n.addr).next c.3)

-- The tail is null only if there are no nodes.
pub tail-nonnull : (l : LinkedList) (n : Node) (ns : List Node) → IsList l (n ∷ ns) → l.tail ≢ null
tail-nonnull l n ns v e =
    last-ne ns n null (nodes-nonnull ns n l.elems l.head v.chained) (sym v.at_tail ∙ e)

-- addLast, with a new element that is not null and none of the list's: the list gets the data at
-- its end.
pub add_last-IsList :
    (l : LinkedList) (ns : List Node) (elem d : Ptr)
    → IsList l ns
    → elem ≢ null
    → Avoids elem ns
    → IsList (add_last l elem d) (ns ++ node elem d ∷ [])
unfolding add_last
add_last-IsList l [] elem d v z a = rw v.at_tail (record {
  chained =
      rw (store_self l.elems elem (record { data_of = d; next = null })) (refl, z, refl, refl);
  at_tail = refl;
  once = (tt, tt);
})
add_last-IsList l (n ∷ ns) elem d v z a = rw (ne→== l.tail null (tail-nonnull l n ns v)) (record {
  chained =
      subst
        (λ t.
          Chain (set_next (store l.elems elem (record { data_of = d; next = null })) t elem)
            (n ∷ (ns ++ node elem d ∷ [])) l.head)
        (sym v.at_tail) (Chain-append ns n l.elems l.head elem d v.chained v.once z a);
  at_tail = sym (last_addr-snoc ns (node elem d) n.addr);
  once = Distinct-snoc (n ∷ ns) (node elem d) v.once a;
})

-- addFirst, with a new element that is not null and none of the list's: the list gets the data at
-- its front.
pub add_first-IsList :
    (l : LinkedList) (ns : List Node) (elem d : Ptr)
    → IsList l ns
    → elem ≢ null
    → Avoids elem ns
    → IsList (add_first l elem d) (node elem d ∷ ns)
unfolding add_first
add_first-IsList l ns elem d v z a = record {
  chained = (
    refl,
    z,
    rw (store_self l.elems elem (record { data_of = d; next = l.head })) refl,
    rw (store_self l.elems elem (record { data_of = d; next = l.head }))
        (Chain-store ns l.elems l.head elem (record { data_of = d; next = l.head }) a v.chained),
  );
  at_tail = tail_of ns v;
  once = (a, v.once);
}
  where
    tail_of :
        (ns : List Node)
        → IsList l ns
        → (if l.tail == null then elem else l.tail) ≡ last_addr elem ns
    tail_of [] v = rw v.at_tail refl
    tail_of (n ∷ ns) v = rw (ne→== l.tail null (tail-nonnull l n ns v)) v.at_tail

-- What removeFirst and peekFirst come to, by the list.
abbrev pub Removed : LinkedList → List Node → Type 0
Removed l [] = (remove_first l ≡ (l, null)) × (peek_first l ≡ null) × (peek_last l ≡ null)
Removed l (n ∷ ns) =
    (l' : LinkedList) × (remove_first l ≡ (l', n.datum)) × (peek_first l ≡ n.datum) × IsList l' ns

-- removeFirst of a list: with no element it answers null and changes nothing, as the peeks do;
-- otherwise it answers the first data, which peekFirst shows, and leaves the rest of the list.
pub remove_first-Removed : (l : LinkedList) (ns : List Node) → IsList l ns → Removed l ns
unfolding remove_first peek_first peek_last
remove_first-Removed l [] v = (rw v.chained refl, rw v.chained refl, rw v.at_tail refl)
remove_first-Removed l (n ∷ ns) v = (
  record l {
    head = (l.elems n.addr).next;
    tail = if (l.elems n.addr).next == null then null else l.tail;
  },
  rw (head_ne, v.chained.0, v.chained.2) refl,
  rw (head_ne, v.chained.0, v.chained.2) refl,
  record { chained = v.chained.3; at_tail = tail_of ns v; once = v.once.1 },
)
  where
    head_ne : (l.head == null) ≡ false
    head_ne = rw v.chained.0 (ne→== n.addr null v.chained.1)

    tail_of :
        (ns : List Node)
        → IsList l (n ∷ ns)
        → (if (l.elems n.addr).next == null then null else l.tail) ≡ last_addr null ns
    tail_of [] v = rw v.chained.3 refl
    tail_of (k ∷ ns) v =
        rw (ap (λ q. q == null) v.chained.3.0 ∙ ne→== k.addr null v.chained.3.1) v.at_tail
