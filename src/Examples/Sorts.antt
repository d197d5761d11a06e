-- ===== src/Examples/Sorts.antt =====
-- stdlib.c on small arrays of numbers, and on the text of a number.
use cs162hwproj.Prelude.{◌+◌, ◌≡◌, refl, ltb, some, arith, ◌==◌, if◌then◌else◌}
use cs162hwproj.Prelude.Returns.{Returns}
use cs162hwproj.Stdlib.{Elem, Array, Order, less, same, greater, sort, binary_search, search_loop}
use cs162hwproj.Stdlib.Heap.{IsOrder}
use cs162hwproj.Stdlib.Sorting.{IsSorted, count, sort-IsSorted}
use cs162hwproj.Stdlib.Search.{Finds, binary_search-Finds}

abbrev by_value : Elem → Elem → Order
by_value x y = if ltb x y then less else if ltb y x then greater else same

by_value-IsOrder : IsOrder by_value
by_value-IsOrder = record { mirror = λ x y. ground arith; trans = λ x y z p q. ground arith }

abbrev three : Array
three i = if i == 0 then 9 else if i == 1 then 2 else 5

sort-IsSorted_example :
    Returns
      (λ b. IsSorted by_value 3 b × ((x : Elem) → count x b 3 ≡ count x three 3))
      (sort by_value three 3 4)
sort-IsSorted_example = sort-IsSorted by_value-IsOrder three 3 4 (omega arith) (omega arith)

abbrev evens : Array
evens i = i + i

evens-IsSorted : IsSorted by_value 5 evens
evens-IsSorted j k p q r = ground arith

binary_search-Finds_example : Finds by_value 6 evens 5 (binary_search by_value 6 evens 5)
binary_search-Finds_example = binary_search-Finds by_value-IsOrder 6 evens 5 evens-IsSorted

search_finds : binary_search by_value 6 evens 5 ≡ some 3
unfolding binary_search search_loop
search_finds = refl
