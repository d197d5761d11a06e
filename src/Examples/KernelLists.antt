-- ===== src/Examples/KernelLists.antt =====
-- list.c on a list with the ends 1 and 2 that holds the elements 3 and 4; 5 is a fresh element.
use cs162hwproj.Prelude.{ltb, ◌%◌, Bool, true, ◌≡◌, refl, some, [], ◌∷◌, arith}
use cs162hwproj.Prelude.Returns.{Returns}
use cs162hwproj.KernelList.Order.{
  is_sorted, sorted_loop, list_sort, sort_loop, pass_loop, find_end_of_run, run_loop, list_max,
  max_loop,
}
use cs162hwproj.KernelList.{
  Ptr, null, list_next, list_prev, list_begin, assert_next, assert_prev, assert_true, get_next,
  get_prev, null, Heap, KList, at, list_remove,
}
use cs162hwproj.KernelList.Chain.{IsList}
use cs162hwproj.KernelList.Remove.{Removed, list_remove-IsList}

abbrev below : Ptr → Ptr → Bool
below a b = ltb (a % 5) (b % 5)

abbrev heap : Heap
heap = record {
  prev = at (at (at (λ p. null) 3 1) 4 3) 2 4;
  next = at (at (at (λ p. null) 1 3) 3 4) 4 2;
}

abbrev ends : KList
ends = record { head = 1; tail = 2 }

two_elements : IsList heap ends (3 ∷ 4 ∷ [])
unfolding at
two_elements = record { chain = ground arith; first = refl; last = refl; apart = ground arith }

list_remove-IsList_example : Returns (Removed ends (3 ∷ []) (heap.next 4)) (list_remove 4 heap)
list_remove-IsList_example = list_remove-IsList heap ends (3 ∷ []) 4 [] two_elements

sorted_elements : is_sorted below 3 3 2 heap ≡ some (true, heap)
unfolding is_sorted sorted_loop list_next list_prev assert_next assert_prev get_next get_prev at
sorted_elements = refl

sorts : (r : (Unit {0}) × Heap) × (list_sort below 4 ends heap ≡ some r)
unfolding list_sort sort_loop pass_loop find_end_of_run run_loop is_sorted sorted_loop list_begin
    list_next list_prev assert_next assert_prev assert_true get_next get_prev at
sorts = ((tt, heap), refl)

finds_max : list_max below 4 ends heap ≡ some (4, heap)
unfolding list_max max_loop list_begin list_next assert_next get_next at
finds_max = refl
