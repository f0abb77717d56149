-- ===== src/Examples/HookRuns.antt =====
-- Hooks that fail and that ask to stop, and command lines: crates/supra_hook/src/registry.rs.
use supra_harness.Prelude.{◌≡◌, refl, List, [], ◌∷◌, ◌++◌, any, find, err, ◌==◌, if◌then◌else◌}
use supra_harness.Prelude.OrdMap.{get, insert}
use supra_harness.Hooks.Words.{
  Text, double_quote, shell_words, split_all, split_char, is_whitespace, is_blank,
}
use supra_harness.Hooks.Registry.{
  Hook, Registry, turn_end, before_tool, hooks_at, new_registry, register, is_prefix_safe, Exit,
  exited, fire, fire_all, command_failed,
}
use supra_harness.Hooks.Firing.{
  register_all, run_failed, run_stops, run_each, result_of, fire_exact,
}

quoted_word_run :
    shell_words (double_quote ∷ ((105 ∷ 32 ∷ 116 ∷ []) ++ double_quote ∷ []))
    ≡ (105 ∷ 32 ∷ 116 ∷ []) ∷ []
unfolding shell_words split_all split_char is_whitespace
quoted_word_run = refl

abbrev stop_hook : Hook
stop_hook = record { point = turn_end; command = 115 ∷ [] }

abbrev failing_hook : Hook
failing_hook = record { point = turn_end; command = 102 ∷ [] }

abbrev tool_hook : Hook
tool_hook = record { point = before_tool; command = 115 ∷ [] }

-- The world is the list of the programs run so far, the last in front. A command of one letter ends
-- with 42 if it is an `s`, and with 1 otherwise.
abbrev test_run : List Text → List Text → List Text × Exit
test_run world [] = (world, exited 0)
test_run world ([] ∷ arguments) = (world, exited 0)
test_run world ((c ∷ program) ∷ arguments) =
    ((c ∷ program) ∷ world, if c == 115 then exited 42 else exited 1)

abbrev three_hooks : Registry
three_hooks = register_all new_registry (failing_hook ∷ stop_hook ∷ failing_hook ∷ [])

fire_exact_example :
    let (after, runs) = run_each test_run (hooks_at three_hooks turn_end) [] in
    fire test_run [] three_hooks turn_end
    ≡ (after, result_of (find run_failed runs) (any run_stops runs))
fire_exact_example = fire_exact test_run [] three_hooks turn_end

-- All three are run; the failure hides the request to stop.
failure_hides_stop :
    fire test_run [] three_hooks turn_end
    ≡ ((102 ∷ []) ∷ (115 ∷ []) ∷ (102 ∷ []) ∷ [], err (command_failed failing_hook.command))
unfolding fire fire_all register_all register new_registry hooks_at get insert is_prefix_safe
    is_blank is_whitespace shell_words split_all split_char
failure_hides_stop = refl
