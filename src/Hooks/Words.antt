-- ===== src/Hooks/Words.antt =====
-- `shell_words` of crates/supra_hook/src/registry.rs.
use supra_harness.Prelude.{
  ℕ, Bool, true, false, not, ◌&&◌, ◌||◌, Option, none, some, List, [], ◌∷◌, ◌++◌, leb, ◌==◌,
  if◌then◌else◌, all,
}

abbrev pub Text : Type 0
Text = List ℕ

abbrev pub backslash : ℕ
backslash = 92

abbrev pub single_quote : ℕ
single_quote = 39

abbrev pub double_quote : ℕ
double_quote = 34

-- `char::is_whitespace`: the code points with the property White_Space.
unfoldable pub is_whitespace : ℕ → Bool
is_whitespace c =
    (leb 9 c && leb c 13)
    || c == 32
    || c == 133
    || c == 160
    || c == 5760
    || (leb 8192 c && leb c 8202)
    || c == 8232
    || c == 8233
    || c == 8239
    || c == 8287
    || c == 12288

-- `trim().is_empty()`
unfoldable pub is_blank : Text → Bool
unfolding is_whitespace
is_blank line = all is_whitespace line

-- The variables of the loop.
pub record Splitting : Type 0 where
  pub words : List Text
  pub current : Text
  pub quote : Option ℕ
  pub escaped : Bool

abbrev pub is_quote : Option ℕ → ℕ → Bool
is_quote none c = false
is_quote (some q) c = c == q

abbrev pub unquoted : Option ℕ → Bool
unquoted none = true
unquoted (some q) = false

-- The word so far is done, if there is one.
abbrev pub finish_word : List Text → Text → List Text
finish_word words [] = words
finish_word words (c ∷ current) = words ++ (c ∷ current) ∷ []

unfoldable pub split_char : Splitting → ℕ → Splitting
unfolding is_whitespace
split_char s c =
    if s.escaped
    then record s { current = s.current ++ c ∷ []; escaped = false }
    else if c == backslash && not (is_quote s.quote single_quote)
    then record s { escaped = true }
    else if is_quote s.quote c
    then record s { quote = none }
    else if c == single_quote || (c == double_quote && unquoted s.quote)
    then record s { quote = some c }
    else if is_whitespace c && unquoted s.quote
    then record s { words = finish_word s.words s.current; current = [] }
    else record s { current = s.current ++ c ∷ [] }

unfoldable pub split_all : Splitting → Text → Splitting
unfolding split_char
split_all s [] = s
split_all s (c ∷ cs) = split_all (split_char s c) cs

abbrev pub splitting : List Text → Text → Option ℕ → Bool → Splitting
splitting words current quote escaped = record {
  words = words;
  current = current;
  quote = quote;
  escaped = escaped;
}

unfoldable pub shell_words : Text → List Text
unfolding split_all
shell_words line =
    let s = split_all (splitting [] [] none false) line in finish_word s.words s.current

-- A character that stands for itself outside quotes, and one that does inside double quotes.
abbrev pub is_plain : ℕ → Bool
is_plain c =
    not (c == backslash)
    && not (c == single_quote)
    && not (c == double_quote)
    && not (is_whitespace c)

abbrev pub is_literal : ℕ → Bool
is_literal c = not (c == backslash) && not (c == single_quote) && not (c == double_quote)
