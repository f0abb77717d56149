-- ===== src/Shell/Tokens.antt =====
-- What crates/supra_shell/src/shaping.rs takes from the scanner, the truncation planner and the
-- width table of crates/supra_ffi, whose work is done by a library in another language.
use supra_harness.Prelude.{ℕ, Bool, Option}
use supra_harness.Canonical.{Bytes}

pub data TokenKind : Type 0 where
  text control csi esc osc dcs apc partial malformed : TokenKind

-- A token with what `text(bytes)` gives for it in the chunk it was read from.
pub record Token : Type 0 where
  pub kind : TokenKind
  pub final_byte : ℕ
  pub run : Option Bytes

pub data Eof : Type 0 where
  more final : Eof

pub data Ambiguous : Type 0 where
  narrow wide : Ambiguous

pub record Truncation : Type 0 where
  pub prefix_len : ℕ
  pub was_truncated : Bool
