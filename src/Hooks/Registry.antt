-- ===== src/Hooks/Registry.antt =====
-- Hook points and the registry: crates/supra_hook/src/point.rs and registry.rs.
use Prim.Native.String.{String}
use text.Mathlib.Text.{◌==◌ as str_eq}
use supra_harness.Prelude.{
  ℕ, ◌+◌, Bool, true, false, not, Option, none, some, List, [], ◌∷◌, ◌++◌, Result, ok, err, ◌==◌,
  if◌then◌else◌, length, find,
}
use supra_harness.Prelude.OrdMap.{OrdMap, get, insert}
use supra_harness.Hooks.Words.{Text, is_blank, shell_words}

pub data HookPoint : Type 0 where
  session_start session_end turn_start turn_end before_tool after_tool before_evict : HookPoint
  after_cache_break : HookPoint

abbrev pub all_points : List HookPoint
all_points =
    session_start ∷ session_end ∷ turn_start ∷ turn_end ∷ before_tool ∷ after_tool ∷ before_evict
    ∷ after_cache_break ∷ []

-- the derived order
abbrev pub point_rank : HookPoint → ℕ
point_rank session_start = 0
point_rank session_end = 1
point_rank turn_start = 2
point_rank turn_end = 3
point_rank before_tool = 4
point_rank after_tool = 5
point_rank before_evict = 6
point_rank after_cache_break = 7

unfoldable pub is_prefix_safe : HookPoint → Bool
is_prefix_safe session_start = true
is_prefix_safe session_end = true
is_prefix_safe turn_start = true
is_prefix_safe turn_end = true
is_prefix_safe before_tool = false
is_prefix_safe after_tool = false
is_prefix_safe before_evict = false
is_prefix_safe after_cache_break = false

unfoldable pub point_name : HookPoint → String
point_name session_start = "session-start"
point_name session_end = "session-end"
point_name turn_start = "turn-start"
point_name turn_end = "turn-end"
point_name before_tool = "before-tool"
point_name after_tool = "after-tool"
point_name before_evict = "before-evict"
point_name after_cache_break = "after-cache-break"

pub data HookError : Type 0 where
  unknown_point : String → HookError
  not_prefix_safe : HookPoint → HookError
  command_blank command_failed : Text → HookError

abbrev pub found_point : String → Option HookPoint → Result HookError HookPoint
found_point name none = err (unknown_point name)
found_point name (some point) = ok point

unfoldable pub parse_point : String → Result HookError HookPoint
unfolding point_name
parse_point name = found_point name (find (λ point. str_eq (point_name point) name) all_points)

pub record Hook : Type 0 where
  pub point : HookPoint
  pub command : Text

pub record Registry : Type 0 where
  pub hooks : OrdMap (List Hook)

unfoldable pub new_registry : Registry
new_registry = record { hooks = [] }

abbrev pub or_empty : Option (List Hook) → List Hook
or_empty none = []
or_empty (some hooks) = hooks

unfoldable pub hooks_at : Registry → HookPoint → List Hook
hooks_at registry point = or_empty (get (point_rank point) registry.hooks)

unfoldable pub register : Registry → Hook → Registry × Result HookError (Unit {0})
unfolding is_prefix_safe is_blank hooks_at
register registry hook =
    if not (is_prefix_safe hook.point)
    then (registry, err (not_prefix_safe hook.point))
    else if is_blank hook.command
    then (registry, err (command_blank hook.command))
    else (
      record registry {
        hooks =
            insert (point_rank hook.point) (hooks_at registry hook.point ++ hook ∷ [])
              registry.hooks;
      },
      ok tt,
    )

abbrev pub register_at :
    Registry → Result HookError HookPoint → Text → Registry × Result HookError (Unit {0})
register_at registry (err e) command = (registry, err e)
register_at registry (ok point) command =
    register registry (record { point = point; command = command })

unfoldable pub register_named : Registry → String → Text → Registry × Result HookError (Unit {0})
unfolding parse_point register
register_named registry name command = register_at registry (parse_point name) command

abbrev pub total_hooks : OrdMap (List Hook) → ℕ
total_hooks [] = 0
total_hooks ((rank, hooks) ∷ m) = length hooks + total_hooks m

unfoldable pub hook_count : Registry → ℕ
hook_count registry = total_hooks registry.hooks

pub data HookOutcome : Type 0 where
  continues stops : HookOutcome

-- How a command ends: with a code, by a signal, or by not starting.
pub data Exit : Type 0 where
  exited : ℕ → Exit
  signalled not_started : Exit

abbrev pub succeeds : Exit → Bool
succeeds (exited code) = code == 0
succeeds signalled = false
succeeds not_started = false

abbrev pub asks_to_stop : Exit → Bool
asks_to_stop (exited code) = code == 42
asks_to_stop signalled = false
asks_to_stop not_started = false

-- The first failure is kept.
abbrev pub or_failure : Option HookError → HookError → Option HookError
or_failure none e = some e
or_failure (some first) e = some first

abbrev pub fired : HookOutcome × Option HookError → Result HookError HookOutcome
fired (outcome, none) = ok outcome
fired (outcome, some e) = err e

-- What the end of a command makes of the outcome and the failure.
abbrev pub settle_exit :
    Text → Exit → HookOutcome × Option HookError → HookOutcome × Option HookError
settle_exit command exit (outcome, failure) =
    if succeeds exit
    then (outcome, failure)
    else if asks_to_stop exit
    then (stops, failure)
    else (outcome, or_failure failure (command_failed command))

-- `run_command` runs the words of a command line, the program first. It takes the state of the world
-- outside and gives it back, since a command is run for what it does there.
module _ {W : Type 0} (run_command : W → List Text → W × Exit) where
  -- One turn of the loop, on the words of the command.
  abbrev pub fire_words :
      Text → List Text → W × (HookOutcome × Option HookError) → W × (HookOutcome × Option HookError)
  fire_words command [] state = state
  fire_words command (program ∷ arguments) (world, sofar) =
      let (next, exit) = run_command world (program ∷ arguments) in
      (next, settle_exit command exit sofar)

  unfoldable pub fire_all :
      List Hook → W × (HookOutcome × Option HookError) → W × (HookOutcome × Option HookError)
  unfolding shell_words
  fire_all [] state = state
  fire_all (hook ∷ hooks) state =
      fire_all hooks (fire_words hook.command (shell_words hook.command) state)

  unfoldable pub fire : W → Registry → HookPoint → W × Result HookError HookOutcome
  unfolding fire_all hooks_at
  fire world registry point =
      let (after, ended) = fire_all (hooks_at registry point) (world, (continues, none)) in
      (after, fired ended)
