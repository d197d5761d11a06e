-- ===== src/Shell/Wiring.antt =====
-- How the shell connects the commands of a line (`main` of hw-shell/shell.c).
use mathlib.Core.List.{append_assoc}
use cs162hwproj.Prelude.{
  ℕ, zero, suc, ◌+◌, ◌-◌, ◌<◌, ◌≤◌, ◌≡◌, refl, sym, ap, ◌∙◌, true, false, Option, none, some, List,
  [], ◌∷◌, ◌++◌, arith, ltb, length, take, drop, ◌>>=◌, lt→ltb, length-drop, length-append,
}
use cs162hwproj.Shell.{
  Token, CommandTask, init_command_task, task_loop, tokens_to_task, find_symbol_from_tokens,
  pipe_loop, last_task, parse_line,
}
use cs162hwproj.Shell.Segments.{segments, find_none, find_some}

-- The tasks `ts`, with every one's output going into the pipe that the next one reads. The first of them reads `from`
-- and is the `k`-th of its line.
abbrev pub wire :
    (pipe : ℕ → ℕ × ℕ) → (k : ℕ) → (from : Option ℕ) → List CommandTask → List CommandTask
wire pipe k from [] = []
wire pipe k from (t ∷ []) = record t { redirect_in = from } ∷ []
wire pipe k from (t ∷ u ∷ ts) =
    record t { redirect_in = from; redirect_out = some (pipe k).1 }
    ∷ wire pipe (k + 1) (some (pipe k).0) (u ∷ ts)

take_all {ℓ} : {A : Type ℓ} (xs : List A) → take (length xs) xs ≡ xs
take_all [] = refl
take_all (x ∷ xs) = ap (λ ys. x ∷ ys) (take_all xs)

pub drop-drop {ℓ} : {A : Type ℓ} (m n : ℕ) (xs : List A) → drop (m + n) xs ≡ drop n (drop m xs)
drop-drop zero n xs = ap (λ k. drop k xs) (omega arith)
drop-drop (suc m) zero [] = let e : suc m + 0 ≡ suc m = omega arith in rw e refl
drop-drop (suc m) (suc n) [] = let e : suc m + suc n ≡ suc (m + suc n) = omega arith in rw e refl
drop-drop (suc m) n (x ∷ xs) =
    let e : suc m + n ≡ suc (m + n) = omega arith in rw e (drop-drop m n xs)

length-segments : (tokens : List Token) → length (segments tokens).1 ≤ length tokens
length-segments [] = omega arith
length-segments (t ∷ tokens) = ground (arith, length-segments tokens)

module _ (open_out open_in : Token → Option ℕ) where
  -- Each segment is a command, and these are its tasks.
  abbrev pub TasksOf : List (List Token) → List CommandTask → Type 0
  TasksOf [] [] = Unit
  TasksOf [] (t ∷ ts) = ⊥
  TasksOf (s ∷ ss) [] = ⊥
  TasksOf (s ∷ ss) (t ∷ ts) =
      (task_loop open_out open_in init_command_task s ≡ some t) × TasksOf ss ts

  pub tokens_to_task-slice :
      (tokens s : List Token) (cur n : ℕ) (r : Option CommandTask)
      → take n (drop cur tokens) ≡ s
      → task_loop open_out open_in init_command_task s ≡ r
      → tokens_to_task open_out open_in tokens cur (cur + n) ≡ r
  unfolding tokens_to_task
  tokens_to_task-slice tokens s cur n r e h = let k : cur + n - cur ≡ n = omega arith in rw (k, e) h

  pub tokens_to_task-rest :
      (tokens : List Token) (cur : ℕ)
      → tokens_to_task open_out open_in tokens cur (length tokens)
        ≡ task_loop open_out open_in init_command_task (drop cur tokens)
  unfolding tokens_to_task
  tokens_to_task-rest tokens cur = ap (task_loop open_out open_in init_command_task) (
      ap (λ n. take n (drop cur tokens)) (sym (length-drop cur tokens))
      ∙ take_all (drop cur tokens))

  module _ (pipe : ℕ → ℕ × ℕ) where
    last_task-some :
        (tokens : List Token) (cur : ℕ) (tasks : List CommandTask) (from : Option ℕ)
        (t : CommandTask)
        → task_loop open_out open_in init_command_task (drop cur tokens) ≡ some t
        → length tasks < 512
        → last_task open_out open_in pipe tokens (tasks, true, cur, from)
          ≡ some (tasks ++ (record t { redirect_in = from } ∷ []), true)
    unfolding last_task
    last_task-some tokens cur tasks from t e l =
        rw (tokens_to_task-rest tokens cur ∙ e) (rw (lt→ltb (length tasks) 512 l) refl)

    pub pipe_loop_end :
        (fuel : ℕ) (tokens : List Token) (cur : ℕ) (tasks : List CommandTask) (from : Option ℕ)
        → find_symbol_from_tokens tokens cur (b'|' ∷ []) ≡ none
        → pipe_loop open_out open_in pipe (suc fuel) tokens cur tasks from
          ≡ some (tasks, true, cur, from)
    unfolding pipe_loop
    pipe_loop_end fuel tokens cur tasks from n = rw (n, pipe_loop) refl

    pub pipe_loop_next :
        (fuel : ℕ) (tokens : List Token) (cur : ℕ) (tasks : List CommandTask) (from : Option ℕ)
        (pipe_index : ℕ) (t : CommandTask)
        → find_symbol_from_tokens tokens cur (b'|' ∷ []) ≡ some pipe_index
        → tokens_to_task open_out open_in tokens cur pipe_index ≡ some t
        → length tasks < 512
        → pipe_loop open_out open_in pipe (suc fuel) tokens cur tasks from
          ≡ pipe_loop open_out open_in pipe fuel tokens
              (pipe_index + 1)
              (tasks
                ++ (record t { redirect_in = from; redirect_out = some (pipe (length tasks)).1 }
                    ∷ []))
              (some (pipe (length tasks)).0)
    unfolding pipe_loop
    pipe_loop_next fuel tokens cur tasks from pipe_index t n r l =
        rw (n, pipe_loop) (rw (r, pipe_loop) (rw (lt→ltb (length tasks) 512 l) refl))

    -- The array of the tasks is full.
    pub pipe_loop_full :
        (fuel : ℕ) (tokens : List Token) (cur : ℕ) (tasks : List CommandTask) (from : Option ℕ)
        (pipe_index : ℕ) (t : CommandTask)
        → find_symbol_from_tokens tokens cur (b'|' ∷ []) ≡ some pipe_index
        → tokens_to_task open_out open_in tokens cur pipe_index ≡ some t
        → ltb (length tasks) 512 ≡ false
        → pipe_loop open_out open_in pipe (suc fuel) tokens cur tasks from ≡ none
    unfolding pipe_loop
    pipe_loop_full fuel tokens cur tasks from pipe_index t n r l =
        rw (n, pipe_loop) (rw (r, pipe_loop) (rw l refl))

    loop-wire :
        (fuel : ℕ) (tokens : List Token) (cur : ℕ) (tasks : List CommandTask) (from : Option ℕ)
        (s : List Token) (ss : List (List Token)) (t : CommandTask) (ts : List CommandTask)
        → segments (drop cur tokens) ≡ (s, ss)
        → TasksOf (s ∷ ss) (t ∷ ts)
        → length ss < fuel
        → length tasks + length ss < 512
        → (pipe_loop open_out open_in pipe fuel tokens cur tasks from
            >>= last_task open_out open_in pipe tokens)
          ≡ some (tasks ++ wire pipe (length tasks) from (t ∷ ts), true)
    unfolding find_symbol_from_tokens
    loop-wire zero tokens cur tasks from s ss t ts e h f l = absurd (omega arith)
    loop-wire (suc fuel) tokens cur tasks from s [] t [] e (p, h) f l =
        let (n, same) = find_none (drop cur tokens) cur (ap (λ x. x.1) e) in
        ap (λ m. m >>= last_task open_out open_in pipe tokens)
          (pipe_loop_end fuel tokens cur tasks from n)
        ∙ (last_task-some tokens cur tasks from t
            (ap (task_loop open_out open_in init_command_task) (sym same ∙ ap (λ x. x.0) e) ∙ p)
            (omega arith))
    loop-wire (suc fuel) tokens cur tasks from s (s' ∷ ss) t [] e h f l = absurd h.1
    loop-wire (suc fuel) tokens cur tasks from s [] t (t' ∷ ts) e h f l = absurd h.1
    loop-wire (suc fuel) tokens cur tasks from s (s' ∷ ss) t (t' ∷ ts) e (p, h) f l =
        let found = find_some (drop cur tokens) cur s' ss (ap (λ x. x.1) e) in
        let n = found.at in
        let r : tokens_to_task open_out open_in tokens cur (cur + n) ≡ some t =
          tokens_to_task-slice tokens s cur n (some t) (found.before ∙ ap (λ x. x.0) e) p in
        let wired = record t { redirect_in = from; redirect_out = some (pipe (length tasks)).1 } in
        let d : drop (cur + n + 1) tokens ≡ drop (suc n) (drop cur tokens) =
          ap (λ j. drop j tokens) (omega arith) ∙ drop-drop cur (suc n) tokens in
        let k : length (tasks ++ (wired ∷ [])) ≡ length tasks + 1 =
          length-append tasks (wired ∷ []) in
        let ih =
          loop-wire fuel tokens (cur + n + 1) (tasks ++ (wired ∷ [])) (some (pipe (length tasks)).0)
            s' ss t' ts (ap segments d ∙ found.behind) h (omega arith) (omega (arith, k)) in
        let assoc =
          append_assoc tasks (wired ∷ [])
            (wire pipe (length tasks + 1) (some (pipe (length tasks)).0) (t' ∷ ts)) in
        ap (λ m. m >>= last_task open_out open_in pipe tokens)
          (pipe_loop_next fuel tokens cur tasks from (cur + n) t found.found r (omega arith))
        ∙ (ih ∙ rw (k, assoc) refl)

    -- A line in which each segment between the pipe symbols is a command, and of which there are at most 512, is valid,
    -- and its tasks are those of the segments, connected by the pipes: each one's output is the write end of a pipe of
    -- which the next one's input is the read end, the first one has no input set, and the last one's output is as its
    -- own redirection says.
    pub parse_line-wire :
        (tokens : List Token) (ts : List CommandTask)
        → TasksOf ((segments tokens).0 ∷ (segments tokens).1) ts
        → length (segments tokens).1 < 512
        → parse_line open_out open_in pipe tokens ≡ some (wire pipe 0 none ts, true)
    unfolding parse_line
    parse_line-wire tokens [] h l = absurd h
    parse_line-wire tokens (t ∷ ts) h l =
        loop-wire (suc (length tokens)) tokens 0 [] none (segments tokens).0 (segments tokens).1 t
          ts refl h (omega (arith, length-segments tokens)) (omega arith)
