-- ===== src/LinkedList.antt =====
-- h/list.hpp: the singly linked list with a head and a tail. An Elem is a cell at its address;
-- `elem` is where `new Elem` puts one. `delete` takes a cell out of use without changing it.
pub mod Chain
pub mod Ends
pub mod RemoveLast
mod Tests
use os1_project.Prelude.{ℕ, zero, suc, Bool, ◌||◌, Option, none, some, ◌==◌, if◌then◌else◌, ◌>>=◌}

abbrev pub Ptr : Type 0
Ptr = ℕ

abbrev pub null : Ptr
null = 0

pub record Elem : Type 0 where
  pub data_of : Ptr
  pub next : Ptr

abbrev pub Elems : Type 0
Elems = Ptr → Elem

pub record LinkedList : Type 0 where
  pub elems : Elems
  pub head : Ptr
  pub tail : Ptr

-- `*p = e`
unfoldable pub store : Elems → Ptr → Elem → Elems
store m p e q = if q == p then e else m q

-- `p->next = v`
abbrev pub set_next : Elems → Ptr → Ptr → Elems
set_next m p v = store m p (record (m p) { next = v })

unfoldable pub add_first : LinkedList → Ptr → Ptr → LinkedList
add_first l elem d = record {
  elems = store l.elems elem (record { data_of = d; next = l.head });
  head = elem;
  tail = if l.tail == null then elem else l.tail;
}

unfoldable pub add_last : LinkedList → Ptr → Ptr → LinkedList
add_last l elem d =
    let made = store l.elems elem (record { data_of = d; next = null }) in
    if l.tail == null
    then record { elems = made; head = elem; tail = elem }
    else record { elems = set_next made l.tail elem; head = l.head; tail = elem }

unfoldable pub remove_first : LinkedList → LinkedList × Ptr
remove_first l =
    if l.head == null
    then (l, null)
    else let next = (l.elems l.head).next in
      (
        record l { head = next; tail = if next == null then null else l.tail },
        (l.elems l.head).data_of,
      )

unfoldable pub peek_first : LinkedList → Ptr
peek_first l = if l.head == null then null else (l.elems l.head).data_of

-- The loop of removeLast: the element before `tail`, or the first `prev`.
unfoldable pub find_prev : ℕ → Elems → Ptr → Ptr → Ptr → Option Ptr
find_prev zero m tail curr prev = none
find_prev (suc fuel) m tail curr prev =
    let rest = find_prev fuel m tail (m curr).next curr in
    if curr == null || curr == tail then some prev else rest

-- removeLast behind its loop
unfoldable pub drop_tail : LinkedList → Ptr → LinkedList × Ptr
drop_tail l prev =
    let d = (l.elems l.tail).data_of in
    if prev == null
    then (record l { head = null; tail = null }, d)
    else (record l { elems = set_next l.elems prev null; tail = prev }, d)

unfoldable pub remove_last : ℕ → LinkedList → Option (LinkedList × Ptr)
remove_last fuel l =
    let prev = find_prev fuel l.elems l.tail l.head null in
    if l.head == null then some (l, null) else prev >>= λ p. some (drop_tail l p)

unfoldable pub peek_last : LinkedList → Ptr
peek_last l = if l.tail == null then null else (l.elems l.tail).data_of
