-- ===== src/Shell.antt =====
-- The shaping of a terminal's output: crates/supra_shell/src/shaping.rs. The scanner, the planner of
-- truncations and the width of a line are parameters; a prefix is never longer than its line.
pub mod Tokens
pub mod Screens
pub mod Writing
pub mod Committing
pub mod Represents
pub mod Showing
pub mod Sessions
pub mod Refinement
use supra_harness.Prelude.{
  ℕ, zero, suc, ◌+◌, ◌-◌, max, Bool, true, false, not, ◌&&◌, ◌||◌, Option, none, some, List, [],
  ◌∷◌, ◌++◌, map, length, take, drop, reverse, ltb, leb, ◌==◌, if◌then◌else◌,
}
use supra_harness.Canonical.{Bytes}
use Tokens.{
  TokenKind, text, control, csi, esc, osc, dcs, apc, partial, malformed, Token, Eof, more, final,
  Ambiguous, Truncation,
}

pub record Shaped : Type 0 where
  pub lines : ℕ
  pub cells : ℕ
  pub truncated_lines : ℕ
  pub dropped_lines : ℕ
  pub suggests_prompt : Bool

pub record Shaper (S : Type 0) : Type 0 where
  pub scanner : S
  pub line : Bytes
  pub cursor : ℕ
  pub ring : List Bytes
  pub truncated_lines : ℕ
  pub dropped_lines : ℕ
  pub max_line_cells : ℕ
  pub max_lines : ℕ
  pub ambiguous : Ambiguous
  pub finished : Bool

abbrev pub is_empty {ℓ} : {A : Type ℓ} → List A → Bool
is_empty [] = true
is_empty (x ∷ xs) = false

abbrev pub spaces : ℕ → Bytes
spaces zero = []
spaces (suc n) = 32 ∷ spaces n

-- `resize(end, b' ')` where the text ends behind the line.
abbrev pub resized : Bytes → ℕ → Bytes
resized line end = if ltb (length line) end then line ++ spaces (end - length line) else line

abbrev pub render_ring : List Bytes → Bytes
render_ring [] = []
render_ring (line ∷ []) = line
render_ring (line ∷ next ∷ ring) = line ++ 10 ∷ render_ring (next ∷ ring)

-- `u8::is_ascii_whitespace`
abbrev pub is_ascii_whitespace : ℕ → Bool
is_ascii_whitespace b = b == 32 || b == 9 || b == 10 || b == 12 || b == 13

-- The front of a line read from its end: `trim_ascii_end`, then `last`.
abbrev pub last_shown : Bytes → Option ℕ
last_shown [] = none
last_shown (b ∷ bs) = let rest = last_shown bs in if is_ascii_whitespace b then rest else some b

abbrev pub ends_with : Bytes → ℕ → Bool
ends_with [] b = false
ends_with (last ∷ _) b = last == b

abbrev pub is_glyph : Option ℕ → Bool
is_glyph none = false
is_glyph (some b) = b == 36 || b == 62 || b == 35 || b == 37 || b == 58

abbrev pub total_width : (Bytes → Ambiguous → ℕ) → Ambiguous → List Bytes → ℕ
total_width width ambiguous [] = 0
total_width width ambiguous (line ∷ ring) = width line ambiguous + total_width width ambiguous ring

module _ {S : Type 0} where
  unfoldable pub new_shaper : S → ℕ → ℕ → Ambiguous → Shaper S
  new_shaper scanner max_line_cells max_lines ambiguous = record {
    scanner = scanner;
    line = [];
    cursor = 0;
    ring = [];
    truncated_lines = 0;
    dropped_lines = 0;
    max_line_cells = max_line_cells;
    max_lines = max_lines;
    ambiguous = ambiguous;
    finished = false;
  }

  unfoldable pub write_at_cursor : Shaper S → Bytes → Shaper S
  write_at_cursor s run =
      if s.cursor == length s.line
      then record s { line = s.line ++ run; cursor = length (s.line ++ run) }
      else (let end = s.cursor + length run in
          let line = resized s.line end in
          record s { line = take s.cursor line ++ (run ++ drop end line); cursor = end })

  abbrev pub write_some : Shaper S → Bytes → Shaper S
  write_some s [] = s
  write_some s (b ∷ before) = write_at_cursor s (b ∷ before)

  -- The ring takes a line, and its oldest one goes if it is full.
  abbrev pub push_line : Shaper S → Bytes → Shaper S
  push_line s kept =
      if s.max_lines == 0
      then record s { dropped_lines = s.dropped_lines + 1 }
      else if length s.ring == s.max_lines
      then record s { ring = drop 1 s.ring ++ kept ∷ []; dropped_lines = s.dropped_lines + 1 }
      else record s { ring = s.ring ++ kept ∷ [] }

  module _ (plan_truncate : Bytes → ℕ → Ambiguous → Truncation) where
    unfoldable pub commit_open_line : Shaper S → Shaper S
    commit_open_line s = elim (is_empty s.line) [
      | true ↦ record s { line = []; cursor = 0 }
      | false ↦
          let truncation = plan_truncate s.line s.max_line_cells s.ambiguous in
          push_line
            (record s {
              line = [];
              cursor = 0;
              truncated_lines =
                  if truncation.was_truncated then s.truncated_lines + 1 else s.truncated_lines;
            })
            (take truncation.prefix_len s.line)
    ]

    -- The loop over the newlines of a text: `before` is the piece in front of the next one.
    unfoldable pub write_lines : Shaper S → Bytes → Bytes → Shaper S
    unfolding write_at_cursor commit_open_line
    write_lines s before [] = write_some s before
    write_lines s before (b ∷ remaining) = elim (b == 10) [
      | true ↦ write_lines (commit_open_line (write_some s before)) [] remaining
      | false ↦ write_lines s (before ++ b ∷ []) remaining
    ]

    unfoldable pub apply_control : Shaper S → ℕ → Shaper S
    unfolding commit_open_line
    apply_control s b =
        if b == 10
        then commit_open_line s
        else if b == 13
        then record s { cursor = 0 }
        else if b == 8
        then record s { cursor = s.cursor - 1 }
        else s

    abbrev pub apply_text : Shaper S → Option Bytes → Shaper S
    apply_text s none = s
    apply_text s (some run) = write_lines s [] run

    unfoldable pub apply : Shaper S → Token → Shaper S
    unfolding apply_control write_lines
    apply s token = elim token.kind [
      | text ↦ apply_text s token.run
      | control ↦ apply_control s token.final_byte
      | _ ↦ s
    ]

    unfoldable pub apply_all : Shaper S → List Token → Shaper S
    unfolding apply
    apply_all s [] = s
    apply_all s (token ∷ tokens) = apply_all (apply s token) tokens

    module _ (tokens : S → Bytes → Eof → S × List Token) where
      unfoldable pub push : Shaper S → Bytes → Shaper S
      unfolding apply_all
      push s bytes =
          if s.finished
          then s
          else (let (scanner, read) = tokens s.scanner bytes more in
              apply_all (record s { scanner = scanner }) read)

      unfoldable pub finish : Shaper S → Shaper S
      unfolding apply_all commit_open_line
      finish s = commit_open_line (
          if s.finished
          then s
          else (let (scanner, read) = tokens s.scanner [] final in
              record (apply_all (record s { scanner = scanner }) read) { finished = true }))

  unfoldable pub render : Shaper S → Bytes
  render s =
      if is_empty s.line
      then render_ring s.ring
      else if is_empty s.ring
      then s.line
      else render_ring s.ring ++ 10 ∷ s.line

  unfoldable pub suggests_prompt : Shaper S → Bool
  suggests_prompt s =
      let backwards = reverse s.line in
      not s.finished
      && not (is_empty s.line || ends_with backwards 10)
      && leb (length s.line) 16
      && not (ends_with backwards 92)
      && is_glyph (last_shown backwards)

  unfoldable pub stats : (Bytes → Ambiguous → ℕ) → Shaper S → Shaped
  unfolding suggests_prompt
  stats width s = record {
    lines = length s.ring;
    cells = total_width width s.ambiguous s.ring;
    truncated_lines = s.truncated_lines;
    dropped_lines = s.dropped_lines;
    suggests_prompt = suggests_prompt s;
  }
