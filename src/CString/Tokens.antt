-- ===== src/CString/Tokens.antt =====
-- `strtok_r` of string.c.
use cs162hwproj.Prelude.{ℕ, zero, suc, ◌+◌, Option, none, some, ◌==◌, if◌then◌else◌, ◌>>=◌, ◌>>◌}
use cs162hwproj.CString.{Memory, put, assert_pointer, strchr}

-- The first loop: the place of the first character that is no delimiter, or of the end of the string.
unfoldable pub skip_loop : (rounds fuel s delimiters : ℕ) → Memory → Option ℕ
skip_loop zero fuel s delimiters mem = none
skip_loop (suc rounds) fuel s delimiters mem =
    let rest = skip_loop rounds fuel (s + 1) delimiters mem in
    strchr fuel delimiters (mem s) mem >>= λ found.
    if found == 0 then some s else if mem s == 0 then some s else rest

-- The second loop: the place of the next delimiter, or of the end of the string.
unfoldable pub token_loop : (rounds fuel s delimiters : ℕ) → Memory → Option ℕ
token_loop zero fuel s delimiters mem = none
token_loop (suc rounds) fuel s delimiters mem =
    let rest = token_loop rounds fuel (s + 1) delimiters mem in
    strchr fuel delimiters (mem s) mem >>= λ found. if found == 0 then rest else some s

-- The token, what is then in `*save_ptr`, and the memory. `save` is what was there.
unfoldable pub strtok_r : (fuel s delimiters save : ℕ) → Memory → Option (ℕ × ℕ × Memory)
unfolding skip_loop token_loop
strtok_r fuel s delimiters save mem = do
  assert_pointer delimiters
  let first = if s == 0 then save else s
  assert_pointer first
  token ← skip_loop fuel fuel first delimiters mem
  if mem token == 0 then some (0, token, mem) else (do
    end ← token_loop fuel fuel token delimiters mem
    some (if mem end == 0 then (token, end, mem) else (token, end + 1, put mem end 0)))
