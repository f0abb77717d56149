-- ===== src/Shell/Screens.antt =====
-- The specification of the shaper of crates/supra_shell/src/shaping.rs: a screen that takes one byte at
-- a time and keeps every line it commits.
use supra_harness.Prelude.{
  ℕ, zero, suc, ◌+◌, ◌-◌, none, some, List, [], ◌∷◌, ◌++◌, map, ◌==◌, if◌then◌else◌,
}
use supra_harness.Canonical.{Bytes}
use supra_harness.Shell.Tokens.{text, control, Token, Eof, more, final}

pub data Mark : Type 0 where
  typed controlled : ℕ → Mark

pub record Screen : Type 0 where
  pub log : List Bytes
  pub line : Bytes
  pub cursor : ℕ

abbrev pub blank : Screen
blank = record { log = []; line = []; cursor = 0 }

abbrev pub overwrite : Bytes → ℕ → ℕ → Bytes
overwrite [] cursor b = b ∷ []
overwrite (x ∷ line) zero b = b ∷ line
overwrite (x ∷ line) (suc cursor) b = x ∷ overwrite line cursor b

abbrev pub logged : List Bytes → Bytes → List Bytes
logged log [] = log
logged log (b ∷ line) = log ++ (b ∷ line) ∷ []

abbrev pub new_line : Screen → Screen
new_line t = record { log = logged t.log t.line; line = []; cursor = 0 }

unfoldable pub draw : Screen → Mark → Screen
draw t (typed b) =
    if b == 10
    then new_line t
    else record t { line = overwrite t.line t.cursor b; cursor = t.cursor + 1 }
draw t (controlled b) =
    if b == 10
    then new_line t
    else if b == 13
    then record t { cursor = 0 }
    else if b == 8
    then record t { cursor = t.cursor - 1 }
    else t

unfoldable pub draw_all : Screen → List Mark → Screen
unfolding draw
draw_all t [] = t
draw_all t (m ∷ marks) = draw_all (draw t m) marks

-- What a token shows: its text byte by byte, a control, or nothing.
abbrev pub shown : Token → List Mark
shown token = elim token.kind [
  | text ↦ elim token.run [ none ↦ [] | some run ↦ map typed run ]
  | control ↦ controlled token.final_byte ∷ []
  | _ ↦ []
]

abbrev pub content : List Token → List Mark
content [] = []
content (token ∷ tokens) = shown token ++ content tokens

-- The calls that a session makes of a shaper.
pub data Call : Type 0 where
  pushed : Bytes → Call
  ended : Call

module _ {S : Type 0} where
  -- What the calls show: the end of the stream ends the line, and nothing comes after it.
  unfoldable pub marks_of : (S → Bytes → Eof → S × List Token) → S → List Call → List Mark
  marks_of tokens scanner [] = []
  marks_of tokens scanner (pushed bytes ∷ calls) =
      let (next, read) = tokens scanner bytes more in content read ++ marks_of tokens next calls
  marks_of tokens scanner (ended ∷ calls) =
      content (tokens scanner [] final).1 ++ controlled 10 ∷ []

  abbrev pub shown_by : (S → Bytes → Eof → S × List Token) → S → List Call → Screen
  shown_by tokens scanner calls = draw_all blank (marks_of tokens scanner calls)
