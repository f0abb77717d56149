-- ===== src/Shell/Committing.antt =====
-- The ring of committed lines of crates/supra_shell/src/shaping.rs as the end of the log of all lines.
use supra_harness.Prelude.{
  ℕ, zero, suc, ◌+◌, ◌-◌, ◌≤◌, ◌≡◌, ◌≢◌, refl, sym, ap, ◌∙◌, Bool, List, [], ◌∷◌, ◌++◌, map, length,
  length-append, length-map, take, drop, count, if◌then◌else◌, arith,
}
use supra_harness.Canonical.{Bytes}
use supra_harness.Shell.Tokens.{Ambiguous, Truncation}
use supra_harness.Shell.Writing.{drop_all}

module _ {ℓ} {A : Type ℓ} where
  pub recent : ℕ → List A → List A
  recent bound log = drop (length log - bound) log

  pub length-drop : (n : ℕ) (xs : List A) → length (drop n xs) ≡ length xs - n
  length-drop zero xs = omega arith
  length-drop (suc n) [] = omega arith
  length-drop (suc n) (x ∷ xs) = omega (arith, length-drop n xs)

  drop-append : (n : ℕ) (xs ys : List A) → n ≤ length xs → drop n (xs ++ ys) ≡ drop n xs ++ ys
  drop-append zero xs ys h = refl
  drop-append (suc n) [] ys h = ground (arith, h)
  drop-append (suc n) (x ∷ xs) ys h = drop-append n xs ys (omega (arith, h))

  drop_one-drop : (n : ℕ) (xs : List A) → drop 1 (drop n xs) ≡ drop (suc n) xs
  drop_one-drop zero xs = refl
  drop_one-drop (suc n) [] = refl
  drop_one-drop (suc n) (x ∷ xs) = drop_one-drop n xs

module _ {A : Type 0} {B : Type 0} (f : A → B) where
  map-append : (xs ys : List A) → map f (xs ++ ys) ≡ map f xs ++ map f ys
  map-append [] ys = refl
  map-append (x ∷ xs) ys = ap (λ t. f x ∷ t) (map-append xs ys)

  map-drop_one : (xs : List A) → map f (drop 1 xs) ≡ drop 1 (map f xs)
  map-drop_one [] = refl
  map-drop_one (x ∷ xs) = refl

extended :
    (clip : Bytes → Bytes) (n : ℕ) (log : List Bytes) (line : Bytes)
    → n ≤ length log
    → map clip (drop n (log ++ line ∷ [])) ≡ map clip (drop n log) ++ clip line ∷ []
extended clip n log line h =
    ap (map clip) (drop-append n log (line ∷ []) h) ∙ map-append clip (drop n log) (line ∷ [])

shifted :
    (clip : Bytes → Bytes) (n : ℕ) (log : List Bytes) (line : Bytes)
    → suc n ≤ length log
    → map clip (drop (suc n) (log ++ line ∷ [])) ≡ drop 1 (map clip (drop n log)) ++ clip line ∷ []
shifted clip n log line h =
    extended clip (suc n) log line h
    ∙ ap (λ ls. ls ++ clip line ∷ [])
        (ap (map clip) (sym (drop_one-drop n log)) ∙ map-drop_one clip (drop n log))

pub count-append_one :
    (p : Bytes → Bool) (log : List Bytes) (line : Bytes)
    → count p (log ++ line ∷ []) ≡ (if p line then count p log + 1 else count p log)
count-append_one p [] line = ground arith
count-append_one p (x ∷ log) line = ground (arith, count-append_one p log line)

-- A ring that holds the last lines of a log, with the number of those before them.
pub record IsRecent (clip : Bytes → Bytes) (bound : ℕ) (ring : List Bytes) (dropped : ℕ)
    (log : List Bytes) : Type 0 where
  pub held : ring ≡ map clip (drop (length log - bound) log)
  pub counted : dropped ≡ length log - bound

module _ (clip : Bytes → Bytes) (bound : ℕ) {ring : List Bytes} {dropped : ℕ} {log : List Bytes}
    (line : Bytes) (r : IsRecent clip bound ring dropped log) where
  longer : length (log ++ line ∷ []) ≡ length log + 1
  longer = length-append log (line ∷ [])

  ring_length : length ring ≡ length log - (length log - bound)
  ring_length =
      ap length r.held
      ∙ length-map clip (drop (length log - bound) log)
      ∙ length-drop (length log - bound) log

  next_start :
      bound ≢ 0 → length ring ≡ bound → suc (length log - bound) ≡ length (log ++ line ∷ []) - bound
  next_start h full = omega (arith, longer, h, full, ring_length)

  same_start : length ring ≢ bound → length log - bound ≡ length (log ++ line ∷ []) - bound
  same_start room = omega (arith, longer, room, ring_length)

  pub without_ring : bound ≡ 0 → IsRecent clip bound ring (dropped + 1) (log ++ line ∷ [])
  without_ring h = record {
    held =
        (r.held
          ∙ ap (map clip) (drop_all (length log - bound) log (omega (arith, h)))
          ∙ sym (
              ap (map clip) (
                drop_all (length (log ++ line ∷ []) - bound) (log ++ line ∷ [])
                  (omega (arith, h)))));
    counted = omega (arith, r.counted, longer, h);
  }

  pub full_ring :
      bound ≢ 0
      → length ring ≡ bound
      → IsRecent clip bound (drop 1 ring ++ clip line ∷ []) (dropped + 1) (log ++ line ∷ [])
  full_ring h full = record {
    held =
        (ap (λ ls. drop 1 ls ++ clip line ∷ []) r.held
          ∙ sym (shifted clip (length log - bound) log line (omega (arith, h, full, ring_length)))
          ∙ ap (λ n. map clip (drop n (log ++ line ∷ []))) (next_start h full));
    counted = omega (arith, r.counted, longer, h, full, ring_length);
  }

  pub roomy_ring :
      length ring ≢ bound → IsRecent clip bound (ring ++ clip line ∷ []) dropped (log ++ line ∷ [])
  roomy_ring room = record {
    held =
        (ap (λ ls. ls ++ clip line ∷ []) r.held
          ∙ sym (extended clip (length log - bound) log line (omega arith))
          ∙ ap (λ n. map clip (drop n (log ++ line ∷ []))) (same_start room));
    counted = omega (arith, r.counted, longer, room, ring_length);
  }

module _ (plan_truncate : Bytes → ℕ → Ambiguous → Truncation) where
  -- What the budgets of a shaper make of a line.
  abbrev pub clipped : ℕ → Ambiguous → Bytes → Bytes
  clipped cells ambiguous line = take (plan_truncate line cells ambiguous).prefix_len line

  abbrev pub is_clipped : ℕ → Ambiguous → Bytes → Bool
  is_clipped cells ambiguous line = (plan_truncate line cells ambiguous).was_truncated
