-- ===== src/Shell/Showing.antt =====
-- Every token shows on the shaper of crates/supra_shell/src/shaping.rs what its bytes show on the screen.
use supra_harness.Prelude.{
  ℕ, ◌-◌, subst, ◌≤◌, ◌≡◌, refl, sym, ap, inl, inr, Bool, true, false, Bool-cases, Option, none,
  some, List, [], ◌∷◌, ◌++◌, map, length, all, ◌==◌, arith,
}
use supra_harness.Canonical.{Bytes}
use supra_harness.Shell.Tokens.{
  text, control, csi, esc, osc, dcs, apc, partial, malformed, TokenKind, Token, Ambiguous,
  Truncation,
}
use supra_harness.Shell.{
  Shaper, commit_open_line, write_some, write_lines, apply_control, apply, apply_all,
}
use supra_harness.Shell.Screens.{
  Mark, typed, controlled, Screen, new_line, draw, draw_all, shown, content,
}
use supra_harness.Shell.Writing.{is_inline}
use supra_harness.Shell.Represents.{Represents, commit-Represents, write-Represents}

pub draw_all-append :
    (t : Screen) (marks more_marks : List Mark)
    → draw_all t (marks ++ more_marks) ≡ draw_all (draw_all t marks) more_marks
unfolding draw_all
draw_all-append t [] more_marks = refl
draw_all-append t (m ∷ marks) more_marks = draw_all-append (draw t m) marks more_marks

draw_all-last :
    (t : Screen) (before : Bytes) (b : ℕ)
    → draw_all t (map typed (before ++ b ∷ [])) ≡ draw (draw_all t (map typed before)) (typed b)
unfolding draw_all
draw_all-last t [] b = refl
draw_all-last t (x ∷ before) b = draw_all-last (draw t (typed x)) before b

draw-newline : (t : Screen) (b : ℕ) → (b == 10) ≡ true → draw t (typed b) ≡ new_line t
unfolding draw
draw-newline t b h = rw h refl

inline-last :
    (before : Bytes) (b : ℕ)
    → all is_inline before ≡ true
    → (b == 10) ≡ false
    → all is_inline (before ++ b ∷ []) ≡ true
inline-last [] b h e = rw e refl
inline-last (x ∷ before) b h e = ground (arith, h, inline-last before b, e)

module _ {S : Type 0} (plan_truncate : Bytes → ℕ → Ambiguous → Truncation) where
  write_lines-newline :
      (s : Shaper S) (before : Bytes) (b : ℕ) (remaining : Bytes)
      → (b == 10) ≡ true
      → write_lines plan_truncate s before (b ∷ remaining)
        ≡ write_lines plan_truncate
            (commit_open_line plan_truncate (write_some s before))
            []
            remaining
  unfolding write_lines
  write_lines-newline s before b remaining e = rw (e, write_lines) refl

  write_lines-inline :
      (s : Shaper S) (before : Bytes) (b : ℕ) (remaining : Bytes)
      → (b == 10) ≡ false
      → write_lines plan_truncate s before (b ∷ remaining)
        ≡ write_lines plan_truncate s (before ++ b ∷ []) remaining
  unfolding write_lines
  write_lines-inline s before b remaining e = rw (e, write_lines) refl

module _ {S : Type 0} (plan_truncate : Bytes → ℕ → Ambiguous → Truncation) (cells : ℕ) (bound : ℕ)
    (ambiguous : Ambiguous) (scanner : S) (done : Bool) where
  abbrev Shows : Shaper S → Screen → Type 0
  Shows = Represents plan_truncate cells bound ambiguous scanner done

  write_some-Represents :
      (s : Shaper S) (t : Screen) (run : Bytes)
      → all is_inline run ≡ true
      → Shows s t
      → Shows (write_some s run) (draw_all t (map typed run))
  unfolding draw_all
  write_some-Represents s t [] inline r = r
  write_some-Represents s t (b ∷ run) inline r =
      write-Represents plan_truncate cells bound ambiguous scanner done s t (b ∷ run) inline r

  -- The loop over the newlines, with a piece in front of the next one that has none.
  write_lines-Represents :
      (s : Shaper S) (t : Screen) (before remaining : Bytes)
      → all is_inline before ≡ true
      → Shows s t
      → Shows
          (write_lines plan_truncate s before remaining)
          (draw_all (draw_all t (map typed before)) (map typed remaining))
  unfolding write_lines draw_all
  write_lines-Represents s t before [] inline r = write_some-Represents s t before inline r
  write_lines-Represents s t before (b ∷ remaining) inline r = elim (Bool-cases (b == 10)) [
    | inl e ↦ rw (write_lines-newline plan_truncate s before b remaining e) (
        subst
          (λ u.
            Shows
              (write_lines plan_truncate (commit_open_line plan_truncate (write_some s before)) []
                remaining)
              (draw_all u (map typed remaining)))
          (sym (draw-newline (draw_all t (map typed before)) b e))
          (write_lines-Represents (commit_open_line plan_truncate (write_some s before))
            (new_line (draw_all t (map typed before))) [] remaining refl
            (commit-Represents plan_truncate cells bound ambiguous scanner done
              (write_some s before) (draw_all t (map typed before))
              (write_some-Represents s t before inline r))))
    | inr e ↦ rw (write_lines-inline plan_truncate s before b remaining e) (
        subst
          (λ u.
            Shows (write_lines plan_truncate s (before ++ b ∷ []) remaining)
              (draw_all u (map typed remaining)))
          (draw_all-last t before b)
          (write_lines-Represents s t (before ++ b ∷ []) remaining (inline-last before b inline e)
            r))
  ]

  at_column-Represents :
      (s : Shaper S) (t : Screen) (here there : ℕ)
      → here ≡ there
      → there ≤ length t.line
      → Shows s t
      → Shows (record s { cursor = here }) (record t { cursor = there })
  at_column-Represents s t here there same within r = record {
    line = r.line;
    cursor = same;
    within = within;
    kept = r.kept;
    cut = r.cut;
    cells_set = r.cells_set;
    bound_set = r.bound_set;
    ambiguous_set = r.ambiguous_set;
    scanner_set = r.scanner_set;
    finished_set = r.finished_set;
  }

  apply_control-Represents :
      (s : Shaper S) (t : Screen) (b : ℕ)
      → Shows s t
      → Shows (apply_control plan_truncate s b) (draw t (controlled b))
  unfolding apply_control draw
  apply_control-Represents s t b r = elim (Bool-cases (b == 10)) [
    | inl e ↦ rw e (commit-Represents plan_truncate cells bound ambiguous scanner done s t r)
    | inr e ↦ rw e (elim (Bool-cases (b == 13)) [
      | inl e' ↦ rw e' (at_column-Represents s t 0 0 refl (omega arith) r)
      | inr e' ↦ rw e' (elim (Bool-cases (b == 8)) [
        | inl e'' ↦ rw e'' (
            at_column-Represents s t (s.cursor - 1) (t.cursor - 1) (ap (λ n. n - 1) r.cursor)
              (omega (arith, r.within)) r)
        | inr e'' ↦ rw e'' r
      ])
    ])
  ]

  apply_kind-Represents :
      (s : Shaper S) (t : Screen) (kind : TokenKind) (final_byte : ℕ) (run : Option Bytes)
      → Shows s t
      → let token : Token = record { kind = kind; final_byte = final_byte; run = run } in
        Shows (apply plan_truncate s token) (draw_all t (shown token))
  unfolding apply draw_all
  apply_kind-Represents s t text final_byte none r = r
  apply_kind-Represents s t text final_byte (some run) r = write_lines-Represents s t [] run refl r
  apply_kind-Represents s t control final_byte run r = apply_control-Represents s t final_byte r
  apply_kind-Represents s t csi final_byte run r = r
  apply_kind-Represents s t esc final_byte run r = r
  apply_kind-Represents s t osc final_byte run r = r
  apply_kind-Represents s t dcs final_byte run r = r
  apply_kind-Represents s t apc final_byte run r = r
  apply_kind-Represents s t partial final_byte run r = r
  apply_kind-Represents s t malformed final_byte run r = r

  apply-Represents :
      (s : Shaper S) (t : Screen) (token : Token)
      → Shows s t
      → Shows (apply plan_truncate s token) (draw_all t (shown token))
  apply-Represents s t token r = apply_kind-Represents s t token.kind token.final_byte token.run r

  pub apply_all-Represents :
      (s : Shaper S) (t : Screen) (tokens : List Token)
      → Shows s t
      → Shows (apply_all plan_truncate s tokens) (draw_all t (content tokens))
  unfolding apply_all draw_all
  apply_all-Represents s t [] r = r
  apply_all-Represents s t (token ∷ tokens) r =
      rw (draw_all-append t (shown token) (content tokens)) (
        apply_all-Represents (apply plan_truncate s token) (draw_all t (shown token)) tokens
          (apply-Represents s t token r))
