-- ===== src/Permission/Authority.antt =====
-- Who may invoke a tool, how reversible an effect is, and what a mode decides: the matrix of
-- crates/supra_types/src/permission.rs.
use supra_harness.Prelude.{ℕ, ◌≤◌, ◌≡◌, Bool, true, not, leb, if◌then◌else◌, List, [], ◌∷◌, arith}

pub data Invoker : Type 0 where
  agent host user : Invoker

pub data ToolClass : Type 0 where
  for_agent for_host for_user : ToolClass

abbrev pub invoker_rank : Invoker → ℕ
invoker_rank agent = 0
invoker_rank host = 1
invoker_rank user = 2

abbrev pub class_rank : ToolClass → ℕ
class_rank for_agent = 0
class_rank for_host = 1
class_rank for_user = 2

unfoldable pub permits : ToolClass → Invoker → Bool
permits class invoker = leb (class_rank class) (invoker_rank invoker)

pub data Reversibility : Type 0 where
  r0 r1 r2 r3 : Reversibility

-- the derived order
abbrev pub rev_rank : Reversibility → ℕ
rev_rank r0 = 0
rev_rank r1 = 1
rev_rank r2 = 2
rev_rank r3 = 3

unfoldable pub damped : Reversibility → Reversibility
damped r0 = r0
damped r1 = r0
damped r2 = r1
damped r3 = r2

pub data Decision : Type 0 where
  run prompt refuse : Decision

pub data Mode : Type 0 where
  plan ask auto yolo : Mode

-- `Mode::ALL`
abbrev pub all_modes : List Mode
all_modes = plan ∷ ask ∷ auto ∷ yolo ∷ []

unfoldable pub mode_decide : Mode → Reversibility → Decision
mode_decide plan r0 = run
mode_decide plan _ = refuse
mode_decide ask r0 = run
mode_decide ask _ = prompt
mode_decide auto r3 = prompt
mode_decide auto _ = run
mode_decide yolo _ = run

unfoldable pub decide : ToolClass → Invoker → Mode → Reversibility → Decision
unfolding permits mode_decide
decide class invoker mode reversibility =
    if not (permits class invoker) then refuse else mode_decide mode reversibility

-- How much a mode lets through.
abbrev pub mode_rank : Mode → ℕ
mode_rank plan = 0
mode_rank ask = 1
mode_rank auto = 2
mode_rank yolo = 3

-- What a decision lets through: refusing is the least.
abbrev pub decision_rank : Decision → ℕ
decision_rank refuse = 0
decision_rank prompt = 1
decision_rank run = 2

permits_mono :
    (class : ToolClass) (i j : Invoker)
    → invoker_rank i ≤ invoker_rank j
    → permits class i ≡ true
    → permits class j ≡ true
unfolding permits
permits_mono class i j h p = ground arith

pub mode_decide_mono :
    (m n : Mode) (r s : Reversibility)
    → mode_rank m ≤ mode_rank n
    → rev_rank s ≤ rev_rank r
    → decision_rank (mode_decide m r) ≤ decision_rank (mode_decide n s)
unfolding mode_decide
mode_decide_mono m n r s hm hr = ground arith

-- The matrix is monotone: a more permissive mode, a more privileged invoker and a more reversible
-- effect never get a stricter decision.
pub decide_mono :
    (class : ToolClass) (i j : Invoker) (m n : Mode) (r s : Reversibility)
    → invoker_rank i ≤ invoker_rank j
    → mode_rank m ≤ mode_rank n
    → rev_rank s ≤ rev_rank r
    → decision_rank (decide class i m r) ≤ decision_rank (decide class j n s)
unfolding decide
decide_mono class i j m n r s hi hm hr =
    ground (arith, permits_mono class i j hi, mode_decide_mono m n r s hm hr)
