-- ===== src/Shell/Faults.antt =====
-- Lines on which `main` of hw-shell/shell.c reads through a null pointer.
use cs162hwproj.Prelude.{
  ℕ, zero, suc, ◌+◌, ◌≡◌, refl, sym, ap, ◌∙◌, Bool, true, inl, inr, Option, none, some, List, [],
  ◌∷◌, ◌++◌, arith, ltb, Bool-cases, length, drop, ◌>>=◌, ltb→lt,
}
use cs162hwproj.Shell.{
  Token, CommandTask, init_command_task, task_loop, tokens_to_task, find_symbol_from_tokens,
  pipe_loop, last_task,
}
use cs162hwproj.Shell.Segments.{segments, find_none, find_some}
use cs162hwproj.Shell.Wiring.{
  drop-drop, tokens_to_task-slice, tokens_to_task-rest, pipe_loop_end, pipe_loop_next,
  pipe_loop_full,
}

module _ (open_out open_in : Token → Option ℕ) where
  -- Every segment but the last is a command, and the last one is none.
  abbrev pub EndsBroken : List Token → List (List Token) → Type 0
  EndsBroken s [] = task_loop open_out open_in init_command_task s ≡ none
  EndsBroken s (s' ∷ ss) =
      ((t : CommandTask) × (task_loop open_out open_in init_command_task s ≡ some t))
      × EndsBroken s' ss

  module _ (pipe : ℕ → ℕ × ℕ) where
    abbrev run :
        (fuel : ℕ)
        → List Token
        → (cur : ℕ) → List CommandTask
        → Option ℕ
        → Option (List CommandTask × Bool)
    run fuel tokens cur tasks from =
        pipe_loop open_out open_in pipe fuel tokens cur tasks from
        >>= last_task open_out open_in pipe tokens

    last_task-none :
        (tokens : List Token) (cur : ℕ) (tasks : List CommandTask) (from : Option ℕ)
        → task_loop open_out open_in init_command_task (drop cur tokens) ≡ none
        → last_task open_out open_in pipe tokens (tasks, true, cur, from) ≡ none
    unfolding last_task
    last_task-none tokens cur tasks from e =
        rw (tokens_to_task-rest open_out open_in tokens cur ∙ e) refl

    loop-EndsBroken :
        (fuel : ℕ) (tokens : List Token) (cur : ℕ) (tasks : List CommandTask) (from : Option ℕ)
        (s : List Token) (ss : List (List Token))
        → segments (drop cur tokens) ≡ (s, ss)
        → EndsBroken s ss
        → run fuel tokens cur tasks from ≡ none
    unfolding find_symbol_from_tokens
    loop-EndsBroken zero tokens cur tasks from s ss e h = unfold pipe_loop in refl
    loop-EndsBroken (suc fuel) tokens cur tasks from s [] e h =
        let (n, same) = find_none (drop cur tokens) cur (ap (λ x. x.1) e) in
        ap (λ m. m >>= last_task open_out open_in pipe tokens)
          (pipe_loop_end open_out open_in pipe fuel tokens cur tasks from n)
        ∙ last_task-none tokens cur tasks from
            (ap (task_loop open_out open_in init_command_task) (sym same ∙ ap (λ x. x.0) e) ∙ h)
    loop-EndsBroken (suc fuel) tokens cur tasks from s (s' ∷ ss) e ((t, p), h) =
        let found = find_some (drop cur tokens) cur s' ss (ap (λ x. x.1) e) in
        let n = found.at in
        let r : tokens_to_task open_out open_in tokens cur (cur + n) ≡ some t =
          tokens_to_task-slice open_out open_in tokens s cur n (some t)
            (found.before ∙ ap (λ x. x.0) e) p in
        let d : drop (cur + n + 1) tokens ≡ drop (suc n) (drop cur tokens) =
          ap (λ j. drop j tokens) (omega arith) ∙ drop-drop cur (suc n) tokens in
        let wired = record t { redirect_in = from; redirect_out = some (pipe (length tasks)).1 } in
        elim (Bool-cases (ltb (length tasks) 512)) [
          | inl y ↦
              ap (λ m. m >>= last_task open_out open_in pipe tokens)
                (pipe_loop_next open_out open_in pipe fuel tokens cur tasks from (cur + n) t
                  found.found r (ltb→lt _ _ y))
              ∙ loop-EndsBroken fuel tokens (cur + n + 1) (tasks ++ (wired ∷ []))
                  (some (pipe (length tasks)).0) s' ss (ap segments d ∙ found.behind) h
          | inr k ↦
              ap (λ m. m >>= last_task open_out open_in pipe tokens)
                (pipe_loop_full open_out open_in pipe fuel tokens cur tasks from (cur + n) t
                  found.found r k)
        ]

    -- A line whose last segment is no command, such as an empty line or one that ends in a pipe symbol, makes the
    -- shell read through a null pointer, if the segments before are commands: whatever the fuel, there is no result.
    pub parse_line-EndsBroken :
        (fuel : ℕ) (tokens : List Token)
        → EndsBroken (segments tokens).0 (segments tokens).1
        → (pipe_loop open_out open_in pipe fuel tokens 0 [] none
            >>= last_task open_out open_in pipe tokens)
          ≡ none
    parse_line-EndsBroken fuel tokens h =
        loop-EndsBroken fuel tokens 0 [] none (segments tokens).0 (segments tokens).1 refl h
