-- ===== src/Examples/Memories.antt =====
-- string.c on a memory that holds the string "ab" at address 100 and sevens elsewhere.
use cs162hwproj.Prelude.{ℕ, ◌+◌, ◌≡◌, refl, some, List, [], ◌∷◌, arith, ltb, if◌then◌else◌}
use cs162hwproj.Prelude.Returns.{Returns}
use cs162hwproj.CString.{
  Memory, put, memcmp, memcmp_loop, positive, strstr, strstr_loop, strlen, strlen_loop, memmove,
  strcspn, span_loop, strchr, strchr_loop, strrchr, strrchr_loop, strnlen, strnlen_loop,
}
use cs162hwproj.CString.Tokens.{strtok_r, skip_loop, token_loop}
use cs162hwproj.CString.Blocks.{Moved, memmove-Moved}
use cs162hwproj.CString.Copies.{IsString}

abbrev ab_memory : Memory
ab_memory = put (put (put (λ a. 7) 100 b'a') 101 b'b') 102 0

abbrev ab : List ℕ
ab = b'a' ∷ b'b' ∷ []

ab-IsString : IsString ab_memory 100 ab
ab-IsString = (refl, (omega arith), (refl, omega arith, refl))

compares : memcmp 101 100 2 ab_memory ≡ some positive
unfolding memcmp memcmp_loop
compares = refl

finds_part : strstr 9 100 101 ab_memory ≡ some 101
unfolding strstr strstr_loop memcmp memcmp_loop strlen strlen_loop
finds_part = refl

finds_last : strrchr 9 100 b'b' ab_memory ≡ some 101
unfolding strrchr_loop
finds_last = refl

stops_at_b : strcspn 9 100 101 ab_memory ≡ some 1
unfolding span_loop strchr strchr_loop
stops_at_b = refl

stops_at_limit : strnlen 100 1 ab_memory ≡ 1
unfolding strnlen_loop
stops_at_limit = refl

memmove-Moved_example :
    Returns
      (λ (r, mem). (r ≡ (if ltb 100 101 then 100 + 2 else 100)) × Moved ab_memory 100 101 2 mem)
      (memmove 100 101 2 ab_memory)
memmove-Moved_example = memmove-Moved 100 101 2 ab_memory (omega arith) (omega arith)

takes_token :
    (r : ℕ × ℕ × Memory) × (strtok_r 9 100 101 0 ab_memory ≡ some r) × (r.0 ≡ 100) × (r.1 ≡ 102)
unfolding strtok_r skip_loop token_loop strchr strchr_loop
takes_token = ((100, 102, put ab_memory 101 0), refl, refl, refl)
