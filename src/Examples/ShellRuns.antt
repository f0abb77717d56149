-- ===== src/Examples/ShellRuns.antt =====
-- The shaper of crates/supra_shell/src/shaping.rs at concrete streams.
use supra_harness.Prelude.{
  ℕ, ◌-◌, ◌≤◌, ◌≡◌, refl, ltb, ◌==◌, if◌then◌else◌, some, none, List, [], ◌∷◌, map, length, drop,
  count,
}
use supra_harness.Canonical.{Bytes}
use supra_harness.Shell.Tokens.{
  text, control, Token, Eof, more, final, Ambiguous, narrow, Truncation,
}
use supra_harness.Shell.{
  render, new_shaper, push, finish, apply, apply_all, apply_control, write_lines, write_at_cursor,
  commit_open_line,
}
use supra_harness.Shell.Screens.{Call, pushed, ended, marks_of, shown_by}
use supra_harness.Shell.Committing.{clipped, is_clipped}
use supra_harness.Shell.Sessions.{run, session}
use supra_harness.Shell.Refinement.{shaper_refined, shaped_by_content}

abbrev text_of : Bytes → Token
text_of bytes = record { kind = text; final_byte = 0; run = some bytes }

abbrev control_of : ℕ → Token
control_of b = record { kind = control; final_byte = b; run = none }

-- A chunk that is only a carriage return is a control, every other chunk is a text.
abbrev scan : ℕ → Bytes → Eof → ℕ × List Token
scan n bytes final = (n, [])
scan n [] more = (n, [])
scan n (b ∷ []) more = (n, (if b == 13 then control_of b else text_of (b ∷ [])) ∷ [])
scan n (b ∷ c ∷ bytes) more = (n, text_of (b ∷ c ∷ bytes) ∷ [])

-- One cell for each byte.
abbrev cut_off : Bytes → ℕ → Ambiguous → Truncation
cut_off line cells ambiguous = record {
  prefix_len = cells;
  was_truncated = ltb cells (length line);
}

-- The lines `ab`, `ed` (written over `cd`) and `f`.
abbrev three_lines : List Call
three_lines =
    pushed (97 ∷ 98 ∷ 10 ∷ 99 ∷ 100 ∷ [])
    ∷ pushed (13 ∷ [])
    ∷ pushed (101 ∷ 10 ∷ 102 ∷ 10 ∷ [])
    ∷ ended
    ∷ []

three_lines_run : render (session cut_off scan 1 2 narrow 0 three_lines) ≡ 101 ∷ 10 ∷ 102 ∷ []
unfolding render run new_shaper push finish apply apply_all apply_control write_lines
    write_at_cursor commit_open_line
three_lines_run = refl

shaper_refined_example :
    let s = session cut_off scan 1 2 narrow 0 three_lines in
    let t = shown_by scan 0 three_lines in
    ((s.line ≡ t.line) × (s.cursor ≡ t.cursor))
    × (s.ring ≡ map (clipped cut_off 1 narrow) (drop (length t.log - 2) t.log))
    × (length s.ring ≤ 2)
    × (s.dropped_lines ≡ length t.log - 2)
    × (s.truncated_lines ≡ count (is_clipped cut_off 1 narrow) t.log)
shaper_refined_example = shaper_refined cut_off scan 1 2 narrow 0 three_lines

abbrev whole : List Call
whole = pushed (97 ∷ 10 ∷ 98 ∷ []) ∷ []

abbrev halved : List Call
halved = pushed (97 ∷ []) ∷ pushed (10 ∷ 98 ∷ []) ∷ []

whole-halved : marks_of scan 0 whole ≡ marks_of scan 0 halved
unfolding marks_of
whole-halved = refl

shaped_by_content_example :
    let s = session cut_off scan 80 64 narrow 0 whole in
    let s' = session cut_off scan 80 64 narrow 0 halved in
    (render s ≡ render s')
    × (s.dropped_lines ≡ s'.dropped_lines)
    × (s.truncated_lines ≡ s'.truncated_lines)
shaped_by_content_example =
    shaped_by_content cut_off scan 80 64 narrow 0 whole 0 halved whole-halved
