-- ===== src/KernelList/Order.antt =====
-- The functions of list.c that compare elements. `less` is the caller's function, with its `aux`; what it
-- compares are not the links. A loop takes fuel, and ends in `none` without it.
use cs162hwproj.Prelude.{
  ℕ, zero, suc, ◌+◌, Bool, true, false, not, ◌&&◌, Option, none, some, ltb, ◌==◌, if◌then◌else◌,
}
use cs162hwproj.KernelList.{
  Ptr, null, KList, M, pure, ◌>>=◌, ◌>>◌, assert_true, list_begin, list_next, list_prev, list_end,
  list_empty, list_insert, list_splice, list_push_back, list_remove,
}

module _ (less : Ptr → Ptr → Bool) where
  unfoldable pub sorted_loop : (fuel : ℕ) → (a b : Ptr) → M Bool
  sorted_loop zero a b = λ h. none
  sorted_loop (suc fuel) a b = do
    a' ← list_next a
    if a' == b
        then pure true
        else do p ← list_prev a'; if less a' p then pure false else sorted_loop fuel a' b

  unfoldable pub is_sorted : (fuel : ℕ) → (a b : Ptr) → M Bool
  unfolding sorted_loop
  is_sorted fuel a b = if a == b then pure true else sorted_loop fuel a b

  unfoldable pub run_loop : (fuel : ℕ) → (a b : Ptr) → M Ptr
  run_loop zero a b = λ h. none
  run_loop (suc fuel) a b = do
    a' ← list_next a
    if a' == b
        then pure a'
        else do p ← list_prev a'; if less a' p then pure a' else run_loop fuel a' b

  unfoldable pub find_end_of_run : (fuel : ℕ) → (a b : Ptr) → M Ptr
  unfolding run_loop
  find_end_of_run fuel a b = do
    assert_true (not (a == null))
    assert_true (not (b == null))
    assert_true (not (a == b))
    run_loop fuel a b

  unfoldable pub merge_loop : (fuel : ℕ) → (a0 a1b0 b1 : Ptr) → M (Unit {0})
  merge_loop zero a0 a1b0 b1 = λ h. none
  merge_loop (suc fuel) a0 a1b0 b1 =
      if not (a0 == a1b0) && not (a1b0 == b1)
      then (if less a1b0 a0
          then (do
            next ← list_next a1b0
            last ← list_prev next
            list_splice a0 last next
            merge_loop fuel a0 next b1)
          else (do next ← list_next a0; merge_loop fuel next a1b0 b1))
      else pure tt

  unfoldable pub inplace_merge : (fuel : ℕ) → (a0 a1b0 b1 : Ptr) → M (Unit {0})
  unfolding merge_loop is_sorted
  inplace_merge fuel a0 a1b0 b1 = do
    assert_true (not (a0 == null))
    assert_true (not (a1b0 == null))
    assert_true (not (b1 == null))
    first ← is_sorted fuel a0 a1b0
    assert_true first
    second ← is_sorted fuel a1b0 b1
    assert_true second
    merge_loop fuel a0 a1b0 b1

  -- One pass from `a0` on, with the number of runs it has put out; `fuel` is that of each loop below.
  unfoldable pub pass_loop : (rounds fuel : ℕ) → KList → (a0 : Ptr) (output_run_cnt : ℕ) → M ℕ
  unfolding find_end_of_run inplace_merge
  pass_loop zero fuel l a0 output_run_cnt = λ h. none
  pass_loop (suc rounds) fuel l a0 output_run_cnt =
      if a0 == list_end l then pure output_run_cnt else do
        a1b0 ← find_end_of_run fuel a0 (list_end l)
        if a1b0 == list_end l then pure (output_run_cnt + 1) else do
          b1 ← find_end_of_run fuel a1b0 (list_end l)
          inplace_merge fuel a0 a1b0 b1
          pass_loop rounds fuel l b1 (output_run_cnt + 1)

  unfoldable pub sort_loop : (passes fuel : ℕ) → KList → M (Unit {0})
  unfolding pass_loop
  sort_loop zero fuel l = λ h. none
  sort_loop (suc passes) fuel l = do
    a0 ← list_begin l
    output_run_cnt ← pass_loop fuel fuel l a0 0
    if ltb 1 output_run_cnt then sort_loop passes fuel l else pure tt

  unfoldable pub list_sort : (fuel : ℕ) → KList → M (Unit {0})
  unfolding sort_loop is_sorted
  list_sort fuel l = do
    sort_loop fuel fuel l
    first ← list_begin l
    done ← is_sorted fuel first (list_end l)
    assert_true done

  -- The loop of `list_insert_ordered`: the element to insert before.
  unfoldable pub find_greater : (fuel : ℕ) → KList → (elem e : Ptr) → M Ptr
  find_greater zero l elem e = λ h. none
  find_greater (suc fuel) l elem e =
      if e == list_end l
      then pure e
      else if less elem e
      then pure e
      else (do next ← list_next e; find_greater fuel l elem next)

  unfoldable pub list_insert_ordered : (fuel : ℕ) → KList → Ptr → M (Unit {0})
  list_insert_ordered fuel l elem = do
    assert_true (not (elem == null))
    b ← list_begin l
    e ← find_greater fuel l elem b
    list_insert e elem

  -- A null pointer for `duplicates` is `none`.
  abbrev pub collect : Option KList → Ptr → M (Unit {0})
  collect none e = pure tt
  collect (some duplicates) e = list_push_back duplicates e

  unfoldable pub unique_loop : (fuel : ℕ) → KList → Option KList → (elem : Ptr) → M (Unit {0})
  unique_loop zero l duplicates elem = λ h. none
  unique_loop (suc fuel) l duplicates elem = do
    next ← list_next elem
    if next == list_end l
        then pure tt
        else if not (less elem next) && not (less next elem)
        then (do
          after ← list_remove next
          collect duplicates next
          unique_loop fuel l duplicates elem)
        else unique_loop fuel l duplicates next

  unfoldable pub list_unique : (fuel : ℕ) → KList → Option KList → M (Unit {0})
  unfolding unique_loop
  list_unique fuel l duplicates = do
    e ← list_empty l
    if e then pure tt else do elem ← list_begin l; unique_loop fuel l duplicates elem

  unfoldable pub max_loop : (fuel : ℕ) → KList → (max e : Ptr) → M Ptr
  max_loop zero l max e = λ h. none
  max_loop (suc fuel) l max e =
      if e == list_end l
      then pure max
      else (do next ← list_next e; max_loop fuel l (if less max e then e else max) next)

  unfoldable pub list_max : (fuel : ℕ) → KList → M Ptr
  unfolding max_loop
  list_max fuel l = do
    max ← list_begin l
    if max == list_end l then pure max else do e ← list_next max; max_loop fuel l max e

  unfoldable pub min_loop : (fuel : ℕ) → KList → (min e : Ptr) → M Ptr
  min_loop zero l min e = λ h. none
  min_loop (suc fuel) l min e =
      if e == list_end l
      then pure min
      else (do next ← list_next e; min_loop fuel l (if less e min then e else min) next)

  unfoldable pub list_min : (fuel : ℕ) → KList → M Ptr
  unfolding min_loop
  list_min fuel l = do
    min ← list_begin l
    if min == list_end l then pure min else do e ← list_next min; min_loop fuel l min e
