-- ===== src/Shell/Refinement.antt =====
-- The shaper of crates/supra_shell/src/shaping.rs over a whole session, against its specification: the
-- screen that takes one byte at a time and keeps every line.
use supra_harness.Prelude.{
  ℕ, ◌-◌, ◌≤◌, ◌≡◌, refl, sym, ap, ◌∙◌, List, map, length, length-map, drop, count, arith,
}
use supra_harness.Canonical.{Bytes}
use supra_harness.Shell.Tokens.{Token, Eof, Ambiguous, Truncation}
use supra_harness.Shell.{Shaper, render}
use supra_harness.Shell.Screens.{blank, draw_all, Call, marks_of, shown_by}
use supra_harness.Shell.Committing.{clipped, is_clipped, length-drop}
use supra_harness.Shell.Sessions.{session, session-Represents}

module _ {S : Type 0} (plan_truncate : Bytes → ℕ → Ambiguous → Truncation)
    (tokens : S → Bytes → Eof → S × List Token) (cells : ℕ) (bound : ℕ)
    (ambiguous : Ambiguous) where
  abbrev pub shaped_by : S → List Call → Shaper S
  shaped_by = session plan_truncate tokens cells bound ambiguous

  -- After any calls of push and finish on a new shaper, in any order: the open line and the cursor are
  -- those of a screen that was given the text and the controls of the scanner's tokens one byte at a
  -- time and then, at the first finish, the end of its line; the ring holds the last of the lines that
  -- this screen has committed, at most max_lines of them, each cut to its planned prefix; and the two
  -- counters count the committed lines that left the ring and those that were cut.
  pub shaper_refined :
      (scanner : S) (calls : List Call)
      → let s = shaped_by scanner calls in
        let t = shown_by tokens scanner calls in
        ((s.line ≡ t.line) × (s.cursor ≡ t.cursor))
        × (s.ring ≡ map (clipped plan_truncate cells ambiguous) (drop (length t.log - bound) t.log))
        × (length s.ring ≤ bound)
        × (s.dropped_lines ≡ length t.log - bound)
        × (s.truncated_lines ≡ count (is_clipped plan_truncate cells ambiguous) t.log)
  shaper_refined scanner calls =
      let (next, done, r) =
        session-Represents plan_truncate tokens cells bound ambiguous scanner calls in
      let t = shown_by tokens scanner calls in
      let recent = drop (length t.log - bound) t.log in
      (
        (r.line, r.cursor),
        r.kept.held,
        omega (
          arith,
          ap length r.kept.held,
          length-map (clipped plan_truncate cells ambiguous) recent,
          length-drop (length t.log - bound) t.log,
        ),
        r.kept.counted,
        r.cut,
      )

  -- Two sequences of calls on new shapers whose tokens carry the same text bytes and controls in the
  -- same order, however the text is cut into tokens and the stream into chunks, give the same
  -- transcript, the same number of lines that were dropped and the same number of lines that were cut.
  pub shaped_by_content :
      (scanner : S) (calls : List Call) (other : S) (others : List Call)
      → marks_of tokens scanner calls ≡ marks_of tokens other others
      → let s = shaped_by scanner calls in
        let s' = shaped_by other others in
        (render s ≡ render s')
        × (s.dropped_lines ≡ s'.dropped_lines)
        × (s.truncated_lines ≡ s'.truncated_lines)
  unfolding render
  shaped_by_content scanner calls other others same =
      let (next, done, r) =
        session-Represents plan_truncate tokens cells bound ambiguous scanner calls in
      let (next', done', r') =
        session-Represents plan_truncate tokens cells bound ambiguous other others in
      let screens : shown_by tokens scanner calls ≡ shown_by tokens other others =
        ap (draw_all blank) same in
      let log : (shown_by tokens scanner calls).log ≡ (shown_by tokens other others).log =
        ap (λ t. t.log) screens in
      let line : (shaped_by scanner calls).line ≡ (shaped_by other others).line =
        r.line ∙ ap (λ t. t.line) screens ∙ sym r'.line in
      let ring : (shaped_by scanner calls).ring ≡ (shaped_by other others).ring =
        r.kept.held
        ∙ ap (λ l. map (clipped plan_truncate cells ambiguous) (drop (length l - bound) l)) log
        ∙ sym r'.kept.held in
      (
        rw (line, ring) refl,
        r.kept.counted ∙ ap (λ l. length l - bound) log ∙ sym r'.kept.counted,
        r.cut ∙ ap (count (is_clipped plan_truncate cells ambiguous)) log ∙ sym r'.cut,
      )
