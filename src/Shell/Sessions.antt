-- ===== src/Shell/Sessions.antt =====
-- The calls of push and finish that a session makes of the shaper of crates/supra_shell/src/shaping.rs.
use supra_harness.Prelude.{
  ℕ, ◌-◌, ◌≡◌, refl, sym, ap, ◌∙◌, Bool, true, false, if◌then◌else◌, List, [], ◌∷◌, ◌++◌, map,
  arith, subst,
}
use supra_harness.Canonical.{Bytes}
use supra_harness.Shell.Tokens.{Token, Eof, more, final, Ambiguous, Truncation}
use supra_harness.Shell.{Shaper, new_shaper, commit_open_line, apply_all, push, finish}
use supra_harness.Shell.Screens.{
  Mark, controlled, Screen, blank, new_line, draw, draw_all, content, Call, pushed, ended, marks_of,
  shown_by,
}
use supra_harness.Shell.Committing.{clipped}
use supra_harness.Shell.Writing.{drop_all}
use supra_harness.Shell.Represents.{Represents, commit-Represents}
use supra_harness.Shell.Showing.{draw_all-append, apply_all-Represents}

if-true : {A : Type 0} {b : Bool} {x : A} (y : A) → b ≡ true → (if b then x else y) ≡ x
if-true y h = rw h refl

if-false : {A : Type 0} {b : Bool} (x : A) {y : A} → b ≡ false → (if b then x else y) ≡ y
if-false x h = rw h refl

draw_all-ended :
    (t : Screen) (marks : List Mark)
    → draw_all t (marks ++ controlled 10 ∷ []) ≡ new_line (draw_all t marks)
unfolding draw_all draw
draw_all-ended t marks = draw_all-append t marks (controlled 10 ∷ [])

module _ {S : Type 0} (plan_truncate : Bytes → ℕ → Ambiguous → Truncation)
    (tokens : S → Bytes → Eof → S × List Token) (cells : ℕ) (bound : ℕ)
    (ambiguous : Ambiguous) where
  unfoldable pub run : Shaper S → List Call → Shaper S
  run s [] = s
  run s (pushed bytes ∷ calls) = run (push plan_truncate tokens s bytes) calls
  run s (ended ∷ calls) = run (finish plan_truncate tokens s) calls

  abbrev pub Shows : S → Bool → Shaper S → Screen → Type 0
  Shows = Represents plan_truncate cells bound ambiguous

  hand_over :
      (scanner next : S) (done : Bool) (s : Shaper S) (t : Screen)
      → Shows scanner done s t
      → Shows next done (record s { scanner = next }) t
  hand_over scanner next done s t r = record {
    line = r.line;
    cursor = r.cursor;
    within = r.within;
    kept = r.kept;
    cut = r.cut;
    cells_set = r.cells_set;
    bound_set = r.bound_set;
    ambiguous_set = r.ambiguous_set;
    scanner_set = refl;
    finished_set = r.finished_set;
  }

  close_down :
      (scanner : S) (s : Shaper S) (t : Screen)
      → Shows scanner false s t
      → Shows scanner true (record s { finished = true }) t
  close_down scanner s t r = record {
    line = r.line;
    cursor = r.cursor;
    within = r.within;
    kept = r.kept;
    cut = r.cut;
    cells_set = r.cells_set;
    bound_set = r.bound_set;
    ambiguous_set = r.ambiguous_set;
    scanner_set = r.scanner_set;
    finished_set = refl;
  }

  push_ended :
      (s : Shaper S) (bytes : Bytes) → s.finished ≡ true → push plan_truncate tokens s bytes ≡ s
  unfolding push
  push_ended s bytes h = if-true _ h

  finish_ended :
      (s : Shaper S)
      → s.finished ≡ true
      → finish plan_truncate tokens s ≡ commit_open_line plan_truncate s
  unfolding finish
  finish_ended s h = ap (commit_open_line plan_truncate) (if-true _ h)

  push_open :
      (s : Shaper S) (bytes : Bytes) (scanner : S)
      → s.finished ≡ false
      → s.scanner ≡ scanner
      → push plan_truncate tokens s bytes
        ≡ apply_all plan_truncate
            (record s { scanner = (tokens scanner bytes more).0 })
            (tokens scanner bytes more).1
  unfolding push
  push_open s bytes scanner h same =
      if-false _ h
      ∙ ap
          (λ u.
            apply_all plan_truncate (record s { scanner = (tokens u bytes more).0 })
              (tokens u bytes more).1)
          same

  finish_open :
      (s : Shaper S) (scanner : S)
      → s.finished ≡ false
      → s.scanner ≡ scanner
      → finish plan_truncate tokens s
        ≡ commit_open_line plan_truncate
            (record (apply_all plan_truncate
              (record s { scanner = (tokens scanner [] final).0 })
              (tokens scanner [] final).1) { finished = true })
  unfolding finish
  finish_open s scanner h same = ap (commit_open_line plan_truncate) (
      if-false _ h
      ∙ ap
          (λ u.
            record (apply_all plan_truncate (record s { scanner = (tokens u [] final).0 })
              (tokens u [] final).1) { finished = true })
          same)

  -- After the end no call changes what is shown.
  run-ended :
      (scanner : S) (s : Shaper S) (t : Screen) (calls : List Call)
      → Shows scanner true s (new_line t)
      → Shows scanner true (run s calls) (new_line t)
  unfolding run
  run-ended scanner s t [] r = r
  run-ended scanner s t (pushed bytes ∷ calls) r =
      subst (λ u. Shows scanner true (run u calls) (new_line t))
        (sym (push_ended s bytes r.finished_set)) (run-ended scanner s t calls r)
  run-ended scanner s t (ended ∷ calls) r =
      subst (λ u. Shows scanner true (run u calls) (new_line t))
        (sym (finish_ended s r.finished_set))
        (run-ended scanner (commit_open_line plan_truncate s) t calls
          (commit-Represents plan_truncate cells bound ambiguous scanner true s (new_line t) r))

  show-read :
      (scanner next : S) (s : Shaper S) (t : Screen) (read : List Token)
      → Shows scanner false s t
      → Shows next false
          (apply_all plan_truncate (record s { scanner = next }) read)
          (draw_all t (content read))
  show-read scanner next s t read r =
      apply_all-Represents plan_truncate cells bound ambiguous next false
        (record s { scanner = next }) t read (hand_over scanner next false s t r)

  run-open :
      (scanner : S) (s : Shaper S) (t : Screen) (calls : List Call)
      → Shows scanner false s t
      → (next : S) × (done : Bool) × (Shows next done
          (run s calls)
          (draw_all t (marks_of tokens scanner calls)))
  unfolding run marks_of draw_all
  run-open scanner s t [] r = (scanner, false, r)
  run-open scanner s t (pushed bytes ∷ calls) r =
      let (next, read) = tokens scanner bytes more in
      let step = push_open s bytes scanner r.finished_set r.scanner_set in
      let (last, done, shows) =
        run-open next (apply_all plan_truncate (record s { scanner = next }) read)
          (draw_all t (content read)) calls (show-read scanner next s t read r) in
      (
        last,
        done,
        subst
            (λ u.
              Shows last done (run u calls)
                (draw_all t (content read ++ marks_of tokens next calls)))
            (sym step)
            (subst
              (λ u.
                Shows last done
                  (run (apply_all plan_truncate (record s { scanner = next }) read) calls) u)
              (sym (draw_all-append t (content read) (marks_of tokens next calls))) shows),
      )
  run-open scanner s t (ended ∷ calls) r =
      let (next, read) = tokens scanner [] final in
      let after = record (apply_all plan_truncate (record s { scanner = next }) read) {
        finished = true;
      } in
      let shows : Shows next true (commit_open_line plan_truncate after)
          (new_line (draw_all t (content read))) =
        commit-Represents plan_truncate cells bound ambiguous next true after
          (draw_all t (content read))
          (close_down next (apply_all plan_truncate (record s { scanner = next }) read)
            (draw_all t (content read)) (show-read scanner next s t read r)) in
      (
        next,
        true,
        subst (λ u. Shows next true (run u calls) (draw_all t (content read ++ controlled 10 ∷ [])))
            (sym (finish_open s scanner r.finished_set r.scanner_set))
            (subst (λ u. Shows next true (run (commit_open_line plan_truncate after) calls) u)
              (sym (draw_all-ended t (content read)))
              (run-ended next (commit_open_line plan_truncate after) (draw_all t (content read))
                calls shows)),
      )

  abbrev pub session : S → List Call → Shaper S
  session scanner calls = run (new_shaper scanner cells bound ambiguous) calls

  pub session-Represents :
      (scanner : S) (calls : List Call)
      → (next : S) × (done : Bool) × Shows next done
          (session scanner calls)
          (shown_by tokens scanner calls)
  unfolding new_shaper
  session-Represents scanner calls =
      run-open scanner (new_shaper scanner cells bound ambiguous) blank calls (record {
        line = refl;
        cursor = refl;
        within = omega arith;
        kept = record {
          held = sym (
              ap (map (clipped plan_truncate cells ambiguous))
                (drop_all (0 - bound) [] (omega arith)));
          counted = omega arith;
        };
        cut = refl;
        cells_set = refl;
        bound_set = refl;
        ambiguous_set = refl;
        scanner_set = refl;
        finished_set = refl;
      })
