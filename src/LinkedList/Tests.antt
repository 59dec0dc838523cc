-- ===== src/LinkedList/Tests.antt =====
-- Runs of h/list.hpp.
use os1_project.Prelude.{◌≡◌, refl, [], ◌∷◌, arith, some}
use os1_project.LinkedList.{Elems, LinkedList, store, add_last, remove_last, peek_last}
use os1_project.LinkedList.Chain.{node, IsList}
use os1_project.LinkedList.Ends.{add_last-IsList, Removed, remove_first-Removed}
use os1_project.LinkedList.RemoveLast.{remove_last-IsList}

abbrev no_elems : Elems
no_elems p = record { data_of = 0; next = 0 }

abbrev pair : LinkedList
pair = record {
  elems =
      store (store no_elems 64 (record { data_of = 7; next = 128 })) 128
        (record { data_of = 8; next = 0 });
  head = 64;
  tail = 128;
}

pair-IsList : IsList pair (node 64 7 ∷ node 128 8 ∷ [])
unfolding store
pair-IsList = record {
  chained = (refl, omega arith, refl, (refl, omega arith, refl, refl));
  at_tail = refl;
  once = ((omega arith, tt), (tt, tt));
}

add_last-IsList_example : IsList (add_last pair 192 9) (node 64 7 ∷ node 128 8 ∷ node 192 9 ∷ [])
add_last-IsList_example =
    add_last-IsList pair (node 64 7 ∷ node 128 8 ∷ []) 192 9 pair-IsList (omega arith)
      (omega arith, (omega arith, tt))

remove_first-Removed_example : Removed pair (node 64 7 ∷ node 128 8 ∷ [])
remove_first-Removed_example = remove_first-Removed pair (node 64 7 ∷ node 128 8 ∷ []) pair-IsList

remove_last-IsList_example :
    (l' : LinkedList) × (remove_last 2 pair ≡ some (l', 8))
    × (peek_last pair ≡ 8)
    × IsList l' (node 64 7 ∷ [])
remove_last-IsList_example =
    remove_last-IsList pair (node 64 7 ∷ []) (node 128 8) 2 pair-IsList (omega arith)
