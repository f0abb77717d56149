-- ===== src/Shell/Writing.antt =====
-- Writing at the cursor, `write_at_cursor` of crates/supra_shell/src/shaping.rs: a text that is written at
-- once and the same text byte by byte.
use mathlib.Core.List.{append_assoc, append-nil}
use supra_harness.Prelude.{
  ℕ, zero, suc, ◌+◌, ◌-◌, ◌≤◌, ◌≡◌, refl, sym, ap, ◌∙◌, inl, inr, Bool, true, Bool-cases, List, [],
  ◌∷◌, ◌++◌, map, length, length-append, take, drop, ltb, ltb→lt, ==_iff, ◌==◌, ◌&&◌, all, not,
  arith,
}
use supra_harness.Canonical.{Bytes}
use supra_harness.Shell.{spaces, resized, Shaper, write_at_cursor}
use supra_harness.Shell.Screens.{Screen, typed, overwrite, draw, draw_all}

no_first : (n : ℕ) → 0 + n ≡ n
no_first n = omega arith

suc_plus : (m n : ℕ) → suc m + n ≡ suc (m + n)
suc_plus m n = omega arith

module _ {ℓ} {A : Type ℓ} where
  pub take-length-append : (xs ys : List A) → take (length xs) (xs ++ ys) ≡ xs
  take-length-append [] ys = refl
  take-length-append (x ∷ xs) ys = ap (λ t. x ∷ t) (take-length-append xs ys)

  pub drop-length-append : (n : ℕ) (xs ys : List A) → drop (length xs + n) (xs ++ ys) ≡ drop n ys
  drop-length-append n [] ys = ap (λ m. drop m ys) (no_first n)
  drop-length-append n (x ∷ xs) ys =
      ap (λ m. drop m (x ∷ (xs ++ ys))) (suc_plus (length xs) n) ∙ drop-length-append n xs ys

  pub take-drop : (n : ℕ) (xs : List A) → take n xs ++ drop n xs ≡ xs
  take-drop zero xs = refl
  take-drop (suc n) [] = refl
  take-drop (suc n) (x ∷ xs) = ap (λ t. x ∷ t) (take-drop n xs)

  pub length-take : (n : ℕ) (xs : List A) → n ≤ length xs → length (take n xs) ≡ n
  length-take zero xs h = refl
  length-take (suc n) [] h = ground (arith, h)
  length-take (suc n) (x ∷ xs) h = ap suc (length-take n xs (omega (arith, h)))

  pub drop-drop_one : (n : ℕ) (xs : List A) → drop n (drop 1 xs) ≡ drop (suc n) xs
  drop-drop_one zero xs = refl
  drop-drop_one (suc n) [] = refl
  drop-drop_one (suc n) (x ∷ xs) = refl

  pub drop_all : (n : ℕ) (xs : List A) → length xs ≤ n → drop n xs ≡ []
  drop_all zero [] h = refl
  drop_all zero (x ∷ xs) h = ground (arith, h)
  drop_all (suc n) [] h = refl
  drop_all (suc n) (x ∷ xs) h = drop_all n xs (omega (arith, h))

overwrite-append :
    (before after : Bytes) (b : ℕ)
    → overwrite (before ++ after) (length before) b ≡ before ++ b ∷ drop 1 after
overwrite-append [] [] b = refl
overwrite-append [] (x ∷ after) b = refl
overwrite-append (x ∷ before) after b = ap (λ t. x ∷ t) (overwrite-append before after b)

-- The line and the cursor after a text without newlines, for a line that is cut at the cursor.
length-spaces : (n : ℕ) → length (spaces n) ≡ n
length-spaces zero = refl
length-spaces (suc n) = ap suc (length-spaces n)

abbrev pub written : List Bytes → Bytes → Bytes → Bytes → Screen
written log before run after = record {
  log = log;
  line = before ++ (run ++ drop (length run) after);
  cursor = length before + length run;
}

abbrev pub cut_at : List Bytes → Bytes → Bytes → Screen
cut_at log before after = record { log = log; line = before ++ after; cursor = length before }

abbrev pub is_inline : ℕ → Bool
is_inline b = not (b == 10)

abbrev pub drawn : List Bytes → Bytes → ℕ → Screen
drawn log line cursor = record { log = log; line = line; cursor = cursor }

draw-inline :
    (log : List Bytes) (before after : Bytes) (b : ℕ)
    → is_inline b ≡ true
    → draw (cut_at log before after) (typed b) ≡ cut_at log (before ++ b ∷ []) (drop 1 after)
unfolding draw
draw-inline log before after b h = elim (Bool-cases (b == 10)) [
  | inl e ↦ ground (arith, e, h)
  | inr e ↦ rw e (
      ap (λ l. drawn log l (length before + 1))
        (overwrite-append before after b ∙ sym (append_assoc before (b ∷ []) (drop 1 after)))
      ∙ ap (λ n. drawn log ((before ++ b ∷ []) ++ drop 1 after) n)
          (sym (length-append before (b ∷ []))))
]

both : (a b : Bool) → (a && b) ≡ true → (a ≡ true) × (b ≡ true)
both a b h = (ground (arith, h), ground (arith, h))

length_plus_none : (before : Bytes) → length before ≡ length before + 0
length_plus_none before = omega arith

pub draw_all-inline :
    (log : List Bytes) (before run after : Bytes)
    → all is_inline run ≡ true
    → draw_all (cut_at log before after) (map typed run) ≡ written log before run after
unfolding draw_all
draw_all-inline log before [] after h = ap (drawn log (before ++ after)) (length_plus_none before)
draw_all-inline log before (b ∷ run) after h =
    let (here, rest) = both (is_inline b) (all is_inline run) h in
    ap (λ t. draw_all t (map typed run)) (draw-inline log before after b here)
    ∙ draw_all-inline log (before ++ b ∷ []) run (drop 1 after) rest
    ∙ ap (λ l. drawn log l (length (before ++ b ∷ []) + length run))
        (append_assoc before (b ∷ []) (run ++ drop (length run) (drop 1 after))
          ∙ ap (λ xs. before ++ b ∷ (run ++ xs)) (drop-drop_one (length run) after))
    ∙ ap (λ n. drawn log (before ++ b ∷ (run ++ drop (suc (length run)) after)) n)
        (omega (arith, length-append before (b ∷ [])))

padded :
    (before run after : Bytes)
    → ltb (length (before ++ after)) (length before + length run) ≡ true
    → length ((before ++ after) ++ spaces (length before + length run - length (before ++ after)))
      ≤ length before + length run
padded before run after h =
    let size = length before + length run - length (before ++ after) in
    omega (
      arith,
      ltb→lt (length (before ++ after)) (length before + length run) h,
      length-append (before ++ after) (spaces size),
      length-spaces size,
    )

-- `resize` leaves what stands in front of the cursor and what stands behind the text.
resized-append :
    (before run after : Bytes)
    → let end = length before + length run in
      (take (length before) (resized (before ++ after) end) ≡ before)
      × (drop end (resized (before ++ after) end) ≡ drop (length run) after)
resized-append before run after =
    let end = length before + length run in
    elim (Bool-cases (ltb (length (before ++ after)) end)) [
      | inl e ↦ rw e (
          let extra = spaces (end - length (before ++ after)) in
          (
            ap (take (length before)) (append_assoc before after extra)
                ∙ take-length-append before (after ++ extra),
            drop_all end ((before ++ after) ++ extra) (padded before run after e)
                ∙ sym (
                    drop_all (length run) after (
                      omega (
                        arith,
                        ltb→lt (length (before ++ after)) end e,
                        length-append before after,
                      ))),
          ))
      | inr e ↦ rw e (take-length-append before after, drop-length-append (length run) before after)
    ]

module _ {S : Type 0} where
  abbrev pub at_line : Shaper S → Bytes → ℕ → Shaper S
  at_line s line cursor = record s { line = line; cursor = cursor }

  written_at_end :
      (s : Shaper S) (before run after : Bytes)
      → s.line ≡ before ++ after
      → s.cursor ≡ length before
      → (s.cursor == length s.line) ≡ true
      → at_line s (s.line ++ run) (length (s.line ++ run))
        ≡ at_line s (before ++ (run ++ drop (length run) after)) (length before + length run)
  written_at_end s before run [] line cursor e =
      let end_line = before ++ (run ++ drop (length run) []) in
      let same : s.line ++ run ≡ end_line =
        ap (λ l. l ++ run) (line ∙ append-nil before)
        ∙ ap (λ l. before ++ l)
            (sym (append-nil run)
              ∙ ap (λ xs. run ++ xs) (sym (drop_all (length run) [] (omega arith)))) in
      let long : length (s.line ++ run) ≡ length before + length run =
        omega (arith, length-append s.line run, ap length line, length-append before []) in
      ap (λ l. at_line s l (length (s.line ++ run))) same ∙ ap (at_line s end_line) long
  written_at_end s before run (x ∷ after) line cursor e = ground (
    arith,
    cursor,
    (==_iff s.cursor (length s.line)).0 e,
    ap length line,
    length-append before (x ∷ after),
  )

  -- The routine of the source writes what the bytes one by one would write.
  pub write_at_cursor_lem :
      (s : Shaper S) (before run after : Bytes)
      → s.line ≡ before ++ after
      → s.cursor ≡ length before
      → write_at_cursor s run
        ≡ at_line s (before ++ (run ++ drop (length run) after)) (length before + length run)
  unfolding write_at_cursor
  write_at_cursor_lem s before run after line cursor =
      elim (Bool-cases (s.cursor == length s.line)) [
        | inl e ↦ rw e (written_at_end s before run after line cursor e)
        | inr e ↦ rw e (
            rw (line, cursor)
              (let end = length before + length run in
                let (front, back) = resized-append before run after in
                ap (λ l. at_line s (l ++ (run ++ drop end (resized (before ++ after) end))) end)
                  front
                ∙ ap (λ l. at_line s (before ++ (run ++ l)) end) back))
      ]
