-- ===== src/Shell/Represents.antt =====
-- What it is for the shaper of crates/supra_shell/src/shaping.rs to show what a screen shows, and that
-- committing a line and writing a piece of one keep it so.
use supra_harness.Prelude.{
  ℕ, ◌+◌, ◌≤◌, ◌≡◌, refl, sym, ap, ◌∙◌, Bool, true, List, [], ◌∷◌, ◌++◌, map, length, length-append,
  take, drop, count, all, ==_iff, ◌==◌, if◌then◌else◌, if-elim, arith,
}
use supra_harness.Canonical.{Bytes}
use supra_harness.Shell.Tokens.{Ambiguous, Truncation}
use supra_harness.Shell.{Shaper, write_at_cursor, push_line, commit_open_line}
use supra_harness.Shell.Screens.{typed, Screen, logged, new_line, draw_all}
use supra_harness.Shell.Writing.{
  take-drop, length-take, written, drawn, at_line, cut_at, is_inline, draw_all-inline,
  write_at_cursor_lem,
}
use supra_harness.Shell.Committing.{
  count-append_one, IsRecent, without_ring, full_ring, roomy_ring, clipped, is_clipped,
}

abbrev pub logging : List Bytes → Bytes → Screen
logging log line = record { log = log ++ line ∷ []; line = []; cursor = 0 }

module _ {S : Type 0} (plan_truncate : Bytes → ℕ → Ambiguous → Truncation) (cells : ℕ) (bound : ℕ)
    (ambiguous : Ambiguous) (scanner : S) (done : Bool) where
  -- A shaper with these settings shows what the screen shows, as far as it keeps it.
  pub record Represents (s : Shaper S) (t : Screen) : Type 0 where
    pub line : s.line ≡ t.line
    pub cursor : s.cursor ≡ t.cursor
    pub within : t.cursor ≤ length t.line
    pub kept : IsRecent (clipped plan_truncate cells ambiguous) bound s.ring s.dropped_lines t.log
    pub cut : s.truncated_lines ≡ count (is_clipped plan_truncate cells ambiguous) t.log
    pub cells_set : s.max_line_cells ≡ cells
    pub bound_set : s.max_lines ≡ bound
    pub ambiguous_set : s.ambiguous ≡ ambiguous
    pub scanner_set : s.scanner ≡ scanner
    pub finished_set : s.finished ≡ done

  push_line-Represents :
      (s : Shaper S) (log : List Bytes) (line : Bytes)
      → s.line ≡ []
      → s.cursor ≡ 0
      → IsRecent (clipped plan_truncate cells ambiguous) bound s.ring s.dropped_lines log
      → s.truncated_lines ≡ count (is_clipped plan_truncate cells ambiguous) (log ++ line ∷ [])
      → s.max_line_cells ≡ cells
      → s.max_lines ≡ bound
      → s.ambiguous ≡ ambiguous
      → s.scanner ≡ scanner
      → s.finished ≡ done
      → Represents (push_line s (clipped plan_truncate cells ambiguous line)) (logging log line)
  push_line-Represents s log line no_line start r cut c b a n d =
      let clip = clipped plan_truncate cells ambiguous in
      if-elim (λ u. Represents u (logging log line)) (s.max_lines == 0)
        (λ e. record {
          line = no_line;
          cursor = start;
          within = omega arith;
          kept = without_ring clip bound line r (sym b ∙ (==_iff s.max_lines 0).0 e);
          cut = cut;
          cells_set = c;
          bound_set = b;
          ambiguous_set = a;
          scanner_set = n;
          finished_set = d;
        })
        (λ e.
          if-elim (λ u. Represents u (logging log line)) (length s.ring == s.max_lines)
            (λ full. record {
              line = no_line;
              cursor = start;
              within = omega arith;
              kept =
                  full_ring clip bound line r (λ h. ground (arith, h, b, e))
                    ((==_iff (length s.ring) s.max_lines).0 full ∙ b);
              cut = cut;
              cells_set = c;
              bound_set = b;
              ambiguous_set = a;
              scanner_set = n;
              finished_set = d;
            })
            (λ room. record {
              line = no_line;
              cursor = start;
              within = omega arith;
              kept = roomy_ring clip bound line r (λ h. ground (arith, h, b, room));
              cut = cut;
              cells_set = c;
              bound_set = b;
              ambiguous_set = a;
              scanner_set = n;
              finished_set = d;
            }))

  commit-full :
      (s : Shaper S) (t : Screen) (x : ℕ) (line : Bytes)
      → s.line ≡ x ∷ line
      → Represents s t
      → Represents (commit_open_line plan_truncate s) (logging t.log (x ∷ line))
  unfolding commit_open_line
  commit-full s t x line h r =
      rw (h, r.cells_set, r.ambiguous_set)
        (push_line-Represents
          (record s {
            line = [];
            cursor = 0;
            truncated_lines =
                if is_clipped plan_truncate cells ambiguous (x ∷ line)
                then s.truncated_lines + 1
                else s.truncated_lines;
            max_line_cells = cells;
            ambiguous = ambiguous;
          })
          t.log (x ∷ line) refl refl r.kept
          (rw r.cut
            (sym (count-append_one (is_clipped plan_truncate cells ambiguous) t.log (x ∷ line))))
          refl r.bound_set refl r.scanner_set r.finished_set)

  commit-empty :
      (s : Shaper S) (t : Screen)
      → s.line ≡ []
      → Represents s t
      → Represents (commit_open_line plan_truncate s) (record t { line = []; cursor = 0 })
  unfolding commit_open_line
  commit-empty s t h r = rw h (record {
    line = refl;
    cursor = refl;
    within = omega arith;
    kept = r.kept;
    cut = r.cut;
    cells_set = r.cells_set;
    bound_set = r.bound_set;
    ambiguous_set = r.ambiguous_set;
    scanner_set = r.scanner_set;
    finished_set = r.finished_set;
  })

  commit_cases :
      (s : Shaper S) (t : Screen) (line : Bytes)
      → t.line ≡ line
      → Represents s t
      → Represents
          (commit_open_line plan_truncate s)
          (record { log = logged t.log line; line = []; cursor = 0 })
  commit_cases s t [] h r = commit-empty s t (r.line ∙ h) r
  commit_cases s t (x ∷ line) h r = commit-full s t x line (r.line ∙ h) r

  pub commit-Represents :
      (s : Shaper S) (t : Screen)
      → Represents s t
      → Represents (commit_open_line plan_truncate s) (new_line t)
  commit-Represents s t r = commit_cases s t t.line refl r

  written-Represents :
      (s : Shaper S) (t : Screen) (before run after : Bytes)
      → Represents s t
      → Represents
          (at_line s (before ++ (run ++ drop (length run) after)) (length before + length run))
          (written t.log before run after)
  written-Represents s t before run after r = record {
    line = refl;
    cursor = refl;
    within = omega (
      arith,
      length-append before (run ++ drop (length run) after),
      length-append run (drop (length run) after),
    );
    kept = r.kept;
    cut = r.cut;
    cells_set = r.cells_set;
    bound_set = r.bound_set;
    ambiguous_set = r.ambiguous_set;
    scanner_set = r.scanner_set;
    finished_set = r.finished_set;
  }

  pub write-Represents :
      (s : Shaper S) (t : Screen) (run : Bytes)
      → all is_inline run ≡ true
      → Represents s t
      → Represents (write_at_cursor s run) (draw_all t (map typed run))
  write-Represents s t run inline r =
      let before = take t.cursor t.line in
      let after = drop t.cursor t.line in
      let front : length before ≡ t.cursor = length-take t.cursor t.line r.within in
      let whole : before ++ after ≡ t.line = take-drop t.cursor t.line in
      let same : cut_at t.log before after ≡ t =
        ap (λ n. drawn t.log (before ++ after) n) front ∙ ap (λ l. drawn t.log l t.cursor) whole in
      rw
        (
          write_at_cursor_lem s before run after (r.line ∙ sym whole) (r.cursor ∙ sym front),
          ap (λ u. draw_all u (map typed run)) (sym same)
              ∙ draw_all-inline t.log before run after inline,
        )
        (written-Represents s t before run after r)
