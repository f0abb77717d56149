-- ===== src/Hooks/Quoting.antt =====
-- What `shell_words` of crates/supra_hook/src/registry.rs makes of plain words and of quotes.
use mathlib.Core.List.{append_assoc, append-nil}
use supra_harness.Prelude.{
  ℕ, ◌<◌, ◌≡◌, ◌⊎◌, refl, sym, ap, ◌∙◌, inl, inr, Bool, true, false, ◌&&◌, none, some, List, [],
  ◌∷◌, ◌++◌, all, length, length-append, arith,
}
use supra_harness.Hooks.Words.{
  Text, single_quote, double_quote, is_whitespace, Splitting, splitting, finish_word, split_char,
  split_all, shell_words, is_plain, is_literal,
}

split_all-append :
    (s : Splitting) (xs ys : Text) → split_all s (xs ++ ys) ≡ split_all (split_all s xs) ys
unfolding split_all
split_all-append s [] ys = refl
split_all-append s (x ∷ xs) ys = split_all-append (split_char s x) xs ys

split_char-plain :
    (words : List Text) (current : Text) (c : ℕ)
    → is_plain c ≡ true
    → split_char (splitting words current none false) c
      ≡ splitting words (current ++ c ∷ []) none false
unfolding split_char
split_char-plain words current c h = ground (arith, h)

split_char-literal :
    (q : ℕ)
    → (q ≡ double_quote) ⊎ (q ≡ single_quote)
    → (words : List Text) (current : Text) (c : ℕ) → is_literal c ≡ true
    → split_char (splitting words current (some q) false) c
      ≡ splitting words (current ++ c ∷ []) (some q) false
unfolding split_char
split_char-literal q known words current c h = ground (arith, known, h)

both : (a b : Bool) → (a && b) ≡ true → (a ≡ true) × (b ≡ true)
both a b h = (ground (arith, h), ground (arith, h))

split_all-plain :
    (words : List Text) (current w : Text)
    → all is_plain w ≡ true
    → split_all (splitting words current none false) w ≡ splitting words (current ++ w) none false
unfolding split_all
split_all-plain words current [] h =
    ap (λ t. splitting words t none false) (sym (append-nil current))
split_all-plain words current (c ∷ w) h =
    let (here, rest) = both (is_plain c) (all is_plain w) h in
    ap (λ s. split_all s w) (split_char-plain words current c here)
    ∙ split_all-plain words (current ++ c ∷ []) w rest
    ∙ ap (λ t. splitting words t none false) (append_assoc current (c ∷ []) w)

split_all-literal :
    (q : ℕ)
    → (q ≡ double_quote) ⊎ (q ≡ single_quote)
    → (words : List Text) (current w : Text) → all is_literal w ≡ true
    → split_all (splitting words current (some q) false) w
      ≡ splitting words (current ++ w) (some q) false
unfolding split_all
split_all-literal q known words current [] h =
    ap (λ t. splitting words t (some q) false) (sym (append-nil current))
split_all-literal q known words current (c ∷ w) h =
    let (here, rest) = both (is_literal c) (all is_literal w) h in
    ap (λ s. split_all s w) (split_char-literal q known words current c here)
    ∙ split_all-literal q known words (current ++ c ∷ []) w rest
    ∙ ap (λ t. splitting words t (some q) false) (append_assoc current (c ∷ []) w)

finish_word-some :
    (words : List Text) (w : Text) → 0 < length w → finish_word words w ≡ words ++ w ∷ []
finish_word-some words [] h = absurd (omega arith)
finish_word-some words (c ∷ w) h = refl

abbrev words_of : Splitting → List Text
words_of s = finish_word s.words s.current

close_quote :
    (w : Text)
    → split_all (splitting [] w (some double_quote) false) (double_quote ∷ [])
      ≡ splitting [] w none false
unfolding split_all split_char
close_quote w = refl

switch_quote :
    (v : Text)
    → split_char (splitting [] v (some double_quote) false) single_quote
      ≡ splitting [] v (some single_quote) false
unfolding split_char
switch_quote v = refl

keep_quote :
    (v : Text)
    → split_all (splitting [] v (some single_quote) false) (double_quote ∷ [])
      ≡ splitting [] (v ++ double_quote ∷ []) (some single_quote) false
unfolding split_all split_char is_whitespace
keep_quote v = refl

-- A text in double quotes, spaces and all, is one word.
pub quoted_word :
    (w : Text)
    → all is_literal w ≡ true
    → 0 < length w
    → shell_words (double_quote ∷ (w ++ double_quote ∷ [])) ≡ w ∷ []
unfolding shell_words
quoted_word w h full =
    ap words_of (
      split_all-append (splitting [] [] (some double_quote) false) w (double_quote ∷ [])
      ∙ ap (λ s. split_all s (double_quote ∷ []))
          (split_all-literal double_quote (inl refl) [] [] w h)
      ∙ close_quote w)
    ∙ finish_word-some [] w full

-- An apostrophe in a text in double quotes is lost and takes the closing quote into the word: the
-- quote that is open becomes the apostrophe, and it is never closed.
pub apostrophe_lost :
    (v w : Text)
    → all is_literal v ≡ true
    → all is_literal w ≡ true
    → shell_words (double_quote ∷ (v ++ single_quote ∷ (w ++ double_quote ∷ [])))
      ≡ (v ++ w ++ double_quote ∷ []) ∷ []
unfolding shell_words
apostrophe_lost v w hv hw =
    ap words_of (
      split_all-append (splitting [] [] (some double_quote) false) v
        (single_quote ∷ (w ++ double_quote ∷ []))
      ∙ ap (λ s. split_all s (single_quote ∷ (w ++ double_quote ∷ [])))
          (split_all-literal double_quote (inl refl) [] [] v hv)
      ∙ ap (λ s. split_all s (w ++ double_quote ∷ [])) (switch_quote v)
      ∙ split_all-append (splitting [] v (some single_quote) false) w (double_quote ∷ [])
      ∙ ap (λ s. split_all s (double_quote ∷ []))
          (split_all-literal single_quote (inr refl) [] v w hw)
      ∙ keep_quote (v ++ w))
    ∙ finish_word-some [] ((v ++ w) ++ double_quote ∷ [])
        (omega (arith, length-append (v ++ w) (double_quote ∷ [])))

unfoldable pub join_words : List Text → Text
join_words [] = []
join_words (w ∷ []) = w
join_words (w ∷ v ∷ ws) = w ++ 32 ∷ join_words (v ∷ ws)

abbrev pub AllPlain : List Text → Type 0
AllPlain [] = Unit {0}
AllPlain (w ∷ ws) = (all is_plain w ≡ true) × (0 < length w) × AllPlain ws

space_ends :
    (words : List Text) (w : Text)
    → 0 < length w
    → split_char (splitting words w none false) 32 ≡ splitting (words ++ w ∷ []) [] none false
unfolding split_char is_whitespace
space_ends words w full = ap (λ ws. splitting ws [] none false) (finish_word-some words w full)

words_joined_after :
    (words : List Text) (ws : List Text)
    → AllPlain ws
    → words_of (split_all (splitting words [] none false) (join_words ws)) ≡ words ++ ws
unfolding join_words split_all
words_joined_after words [] h = sym (append-nil words)
words_joined_after words (w ∷ []) (plain, full, _) =
    ap words_of (split_all-plain words [] w plain) ∙ finish_word-some words w full
words_joined_after words (w ∷ v ∷ ws) (plain, full, rest) =
    ap words_of (
      split_all-append (splitting words [] none false) w (32 ∷ join_words (v ∷ ws))
      ∙ ap (λ s. split_all s (32 ∷ join_words (v ∷ ws))) (split_all-plain words [] w plain)
      ∙ ap (λ s. split_all s (join_words (v ∷ ws))) (space_ends words w full))
    ∙ words_joined_after (words ++ w ∷ []) (v ∷ ws) rest
    ∙ append_assoc words (w ∷ []) (v ∷ ws)

-- Words without quotes, backslashes and white space, joined by spaces, are split into those words again.
pub words_joined : (ws : List Text) → AllPlain ws → shell_words (join_words ws) ≡ ws
unfolding shell_words
words_joined ws h = words_joined_after [] ws h
