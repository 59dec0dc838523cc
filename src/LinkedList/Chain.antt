-- ===== src/LinkedList/Chain.antt =====
-- The linked elements of h/list.hpp stand for a list of nodes, each an address and its data.
use os1_project.Prelude.{◌≡◌, ◌≢◌, refl, sym, List, [], ◌∷◌, ◌++◌, All, ne→==, ==_self}
use os1_project.LinkedList.{Ptr, null, Elem, Elems, LinkedList, store}

pub record Node : Type 0 where
  pub addr : Ptr
  pub datum : Ptr

abbrev pub node : Ptr → Ptr → Node
node p d = record { addr = p; datum = d }

-- From `p` the elements lead along the nodes to null.
abbrev pub Chain : Elems → List Node → Ptr → Type 0
Chain m [] p = p ≡ null
Chain m (n ∷ ns) p =
    (p ≡ n.addr) × (n.addr ≢ null) × ((m n.addr).data_of ≡ n.datum) × Chain m ns (m n.addr).next

abbrev pub Avoids : Ptr → List Node → Type 0
Avoids p = All λ n. n.addr ≢ p

abbrev pub Distinct : List Node → Type 0
Distinct [] = Unit
Distinct (n ∷ ns) = Avoids n.addr ns × Distinct ns

abbrev pub last_addr : Ptr → List Node → Ptr
last_addr p [] = p
last_addr p (n ∷ ns) = last_addr n.addr ns

pub record IsList (l : LinkedList) (ns : List Node) : Type 0 where
  pub chained : Chain l.elems ns l.head
  pub at_tail : l.tail ≡ last_addr null ns
  pub once : Distinct ns

abbrev pub data_list : List Node → List Ptr
data_list [] = []
data_list (n ∷ ns) = n.datum ∷ data_list ns

pub store_ne : (m : Elems) (p : Ptr) (e : Elem) (q : Ptr) → q ≢ p → store m p e q ≡ m q
unfolding store
store_ne m p e q h = rw (ne→== q p h)

pub store_self : (m : Elems) (p : Ptr) (e : Elem) → store m p e p ≡ e
unfolding store
store_self m p e = rw (==_self p)

-- A write beside the nodes leaves their chain alone.
pub Chain-store :
    (ns : List Node) (m : Elems) (p q : Ptr) (e : Elem)
    → Avoids q ns
    → Chain m ns p
    → Chain (store m q e) ns p
Chain-store [] m p q e a c = c
Chain-store (n ∷ ns) m p q e a c =
    rw (store_ne m q e n.addr a.0) (c.0, c.1, c.2, Chain-store ns m (m n.addr).next q e a.1 c.3)

-- The last address of a list that is not empty is that of one of its nodes.
pub last-ne : (ns : List Node) (k : Node) (p : Ptr) → Avoids p (k ∷ ns) → last_addr k.addr ns ≢ p
last-ne [] k p a = a.0
last-ne (n ∷ ns) k p a = last-ne ns n p a.1

pub Distinct-snoc :
    (ns : List Node) (n : Node) → Distinct ns → Avoids n.addr ns → Distinct (ns ++ n ∷ [])
Distinct-snoc [] n d a = (tt, tt)
Distinct-snoc (k ∷ ns) n d a =
    (Avoids-snoc ns k.addr n (λ e. a.0 (sym e)) d.0, Distinct-snoc ns n d.1 a.1)
  where
    Avoids-snoc :
        (ns : List Node) (p : Ptr) (n : Node) → n.addr ≢ p → Avoids p ns → Avoids p (ns ++ n ∷ [])
    Avoids-snoc [] p n h a = (h, tt)
    Avoids-snoc (k ∷ ns) p n h a = (a.0, Avoids-snoc ns p n h a.1)

pub last_addr-snoc : (ns : List Node) (n : Node) (p : Ptr) → last_addr p (ns ++ n ∷ []) ≡ n.addr
last_addr-snoc [] n p = refl
last_addr-snoc (k ∷ ns) n p = last_addr-snoc ns n k.addr
