-- ===== src/Hooks/Firing.antt =====
-- What the registry holds, and what firing it returns: crates/supra_hook/src/registry.rs.
use mathlib.Core.List.{append_assoc, append-nil}
use supra_harness.Prelude.{
  ℕ, ◌≡◌, refl, sym, ap, ◌∙◌, inl, inr, Bool, Bool-cases, true, not, ◌&&◌, Option, none, some, List,
  [], ◌∷◌, ◌++◌, Result, ok, err, ◌==◌, if◌then◌else◌, keep, any, arith, find,
}
use supra_harness.Prelude.OrdMap.{get, get-insert}
use supra_harness.Hooks.Words.{Text, is_blank, shell_words}
use supra_harness.Hooks.Registry.{
  HookPoint, point_rank, is_prefix_safe, HookError, command_failed, Hook, Registry, new_registry,
  hooks_at, or_empty, register, HookOutcome, continues, stops, Exit, succeeds, asks_to_stop,
  or_failure, settle_exit, fire_words, fire_all, fired, fire,
}

unfoldable pub register_all : Registry → List Hook → Registry
unfolding register
register_all registry [] = registry
register_all registry (hook ∷ hooks) = register_all (register registry hook).0 hooks

-- A hook that the registry takes, and takes at this point.
unfoldable pub is_taken_at : HookPoint → Hook → Bool
unfolding is_prefix_safe is_blank
is_taken_at point hook =
    is_prefix_safe hook.point
    && not (is_blank hook.command)
    && point_rank hook.point == point_rank point

at_rank : Registry → ℕ → List Hook
at_rank registry rank = or_empty (get rank registry.hooks)

register-at :
    (registry : Registry) (hook : Hook) (point : HookPoint)
    → hooks_at (register registry hook).0 point
      ≡ hooks_at registry point ++ keep (is_taken_at point) (hook ∷ [])
unfolding register hooks_at is_taken_at
register-at registry hook point = elim (Bool-cases (is_prefix_safe hook.point)) [
  | inr unsafe ↦ rw unsafe (sym (append-nil (or_empty (get (point_rank point) registry.hooks))))
  | inl safe ↦ elim (Bool-cases (is_blank hook.command)) [
    | inl blank ↦
        rw (safe, blank) (sym (append-nil (or_empty (get (point_rank point) registry.hooks))))
    | inr command ↦ elim (Bool-cases (point_rank hook.point == point_rank point)) [
      | inr other ↦
          rw
            (
              safe,
              command,
              get-insert (point_rank hook.point) (point_rank point)
                  (or_empty (get (point_rank hook.point) registry.hooks) ++ hook ∷ [])
                  registry.hooks,
              other,
            )
            (sym (append-nil (or_empty (get (point_rank point) registry.hooks))))
      | inl here ↦
          rw
            (
              safe,
              command,
              get-insert (point_rank hook.point) (point_rank point)
                  (or_empty (get (point_rank hook.point) registry.hooks) ++ hook ∷ [])
                  registry.hooks,
              here,
            )
            (ap (λ k. or_empty (get k registry.hooks) ++ hook ∷ []) (ground (arith, here)))
    ]
  ]
]

keep-cons :
    (p : Hook → Bool) (x : Hook) (xs : List Hook) → keep p (x ∷ xs) ≡ keep p (x ∷ []) ++ keep p xs
keep-cons p x xs = elim (Bool-cases (p x)) [ inl e ↦ rw e refl | inr e ↦ rw e refl ]

register_all-at :
    (registry : Registry) (hooks : List Hook) (point : HookPoint)
    → hooks_at (register_all registry hooks) point
      ≡ hooks_at registry point ++ keep (is_taken_at point) hooks
unfolding register_all
register_all-at registry [] point = sym (append-nil (hooks_at registry point))
register_all-at registry (hook ∷ hooks) point =
    register_all-at (register registry hook).0 hooks point
    ∙ ap (λ l. l ++ keep (is_taken_at point) hooks) (register-at registry hook point)
    ∙ append_assoc (hooks_at registry point) (keep (is_taken_at point) (hook ∷ []))
        (keep (is_taken_at point) hooks)
    ∙ ap (λ l. hooks_at registry point ++ l) (sym (keep-cons (is_taken_at point) hook hooks))

-- After any registrations a point has exactly the hooks that were registered for it at a boundary of the
-- prefix and with a command that is not blank, in the order of their registration.
pub registered_exact :
    (hooks : List Hook) (point : HookPoint)
    → hooks_at (register_all new_registry hooks) point ≡ keep (is_taken_at point) hooks
unfolding hooks_at new_registry get
registered_exact hooks point =
    unfold hooks_at new_registry get in (register_all-at new_registry hooks point)

-- A hook whose command was run, and how it ended.
abbrev pub Run : Type 0
Run = Hook × Exit

abbrev pub run_failed : Run → Bool
run_failed (hook, exit) = not (succeeds exit) && not (asks_to_stop exit)

abbrev pub run_stops : Run → Bool
run_stops (hook, exit) = not (succeeds exit) && asks_to_stop exit

abbrev pub result_of : Option Run → Bool → Result HookError HookOutcome
result_of none asked = ok (if asked then stops else continues)
result_of (some (hook, exit)) asked = err (command_failed hook.command)

abbrev first_failure : Option HookError → Option Run → Option HookError
first_failure (some e) found = some e
first_failure none none = none
first_failure none (some (hook, exit)) = some (command_failed hook.command)

abbrev or_stop : HookOutcome → Bool → HookOutcome
or_stop stops asked = stops
or_stop continues asked = if asked then stops else continues

-- What a list of runs makes of an outcome and a failure.
abbrev told : List Run → HookOutcome × Option HookError → HookOutcome × Option HookError
told runs (outcome, failure) =
    (or_stop outcome (any run_stops runs), first_failure failure (find run_failed runs))

told_nothing : (sofar : HookOutcome × Option HookError) → sofar ≡ told [] sofar
told_nothing (stops, none) = refl
told_nothing (stops, some e) = refl
told_nothing (continues, none) = refl
told_nothing (continues, some e) = refl

told_stop :
    (failure : Option HookError) (outcome : HookOutcome)
    → ◌≡◌ {A = HookOutcome × Option HookError} (stops, failure) (or_stop outcome true, failure)
told_stop failure stops = refl
told_stop failure continues = refl

told_failure :
    (hook : Hook) (exit : Exit) (found : Option Run) (outcome : HookOutcome)
    (failure : Option HookError)
    → ◌≡◌ {A = HookOutcome × Option HookError}
        (outcome, first_failure (or_failure failure (command_failed hook.command)) found)
        (outcome, first_failure failure (some (hook, exit)))
told_failure hook exit found outcome none = refl
told_failure hook exit found outcome (some e) = refl

settle_exit-told :
    (hook : Hook) (exit : Exit) (runs : List Run) (outcome : HookOutcome)
    (failure : Option HookError)
    → told runs (settle_exit hook.command exit (outcome, failure))
      ≡ told ((hook, exit) ∷ runs) (outcome, failure)
settle_exit-told hook exit runs outcome failure = elim (Bool-cases (succeeds exit)) [
  | inl fine ↦ rw fine refl
  | inr other ↦ elim (Bool-cases (asks_to_stop exit)) [
    | inl asked ↦
        rw (other, asked) (told_stop (first_failure failure (find run_failed runs)) outcome)
    | inr failed ↦
        rw (other, failed)
          (told_failure hook exit (find run_failed runs) (or_stop outcome (any run_stops runs))
            failure)
  ]
]

fired-told :
    (runs : List Run)
    → fired (told runs (continues, none)) ≡ result_of (find run_failed runs) (any run_stops runs)
fired-told runs = fired_found (find run_failed runs) (any run_stops runs)
  where
    fired_found :
        (found : Option Run) (asked : Bool)
        → fired (or_stop continues asked, first_failure none found) ≡ result_of found asked
    fired_found none asked = refl
    fired_found (some (hook, exit)) asked = refl

module _ {W : Type 0} (run_command : W → List Text → W × Exit) where
  -- Every hook of a list that has a program is run, one after the other.
  abbrev run_words : W → Hook → List Text → (W → W × List Run) → W × List Run
  run_words world hook [] later = later world
  run_words world hook (program ∷ arguments) later =
      let (next, exit) = run_command world (program ∷ arguments) in
      let (after, runs) = later next in (after, (hook, exit) ∷ runs)

  unfoldable pub run_each : List Hook → W → W × List Run
  run_each [] world = (world, [])
  run_each (hook ∷ hooks) world = run_words world hook (shell_words hook.command) (run_each hooks)

  fire_words-run :
      (hook : Hook) (words : List Text) (hooks : List Hook) (world : W) (outcome : HookOutcome)
      (failure : Option HookError)
      → ((w : W) (o : HookOutcome) (f : Option HookError)
          → fire_all run_command hooks (w, (o, f))
            ≡ ((run_each hooks w).0, told (run_each hooks w).1 (o, f)))
      → fire_all run_command hooks
          (fire_words run_command hook.command words (world, (outcome, failure)))
        ≡ (
          (run_words world hook words (run_each hooks)).0,
          told (run_words world hook words (run_each hooks)).1 (outcome, failure),
        )
  fire_words-run hook [] hooks world outcome failure later = later world outcome failure
  fire_words-run hook (program ∷ arguments) hooks world outcome failure later =
      let (next, exit) = run_command world (program ∷ arguments) in
      let sofar = settle_exit hook.command exit (outcome, failure) in
      later next sofar.0 sofar.1
      ∙ ap (λ o. ((run_each hooks next).0, o))
          (settle_exit-told hook exit (run_each hooks next).1 outcome failure)

  fire_all_lem :
      (hooks : List Hook) (world : W) (outcome : HookOutcome) (failure : Option HookError)
      → fire_all run_command hooks (world, (outcome, failure))
        ≡ ((run_each hooks world).0, told (run_each hooks world).1 (outcome, failure))
  unfolding fire_all run_each
  fire_all_lem [] world outcome failure = ap (λ s. (world, s)) (told_nothing (outcome, failure))
  fire_all_lem (hook ∷ hooks) world outcome failure =
      fire_words-run hook (shell_words hook.command) hooks world outcome failure
        (fire_all_lem hooks)

  -- Every hook of the point whose command line has a program is run, in order and each in the world that
  -- the one before it left, also after a failure and after a request to stop. The result is the
  -- failure of the first run that fails, even where another asks to stop; without a failure it is to
  -- stop exactly when a run asks for it.
  pub fire_exact :
      (world : W) (registry : Registry) (point : HookPoint)
      → let (after, runs) = run_each (hooks_at registry point) world in
        fire run_command world registry point
        ≡ (after, result_of (find run_failed runs) (any run_stops runs))
  unfolding fire
  fire_exact world registry point =
      let (after, runs) = run_each (hooks_at registry point) world in
      ap (λ s. (s.0, fired s.1)) (fire_all_lem (hooks_at registry point) world continues none)
      ∙ ap (λ r. (after, r)) (fired-told runs)
