-- ===== src/Types/RunStatus/Graph.antt =====
-- The transition graph of crates/looper-types/src/run_status.rs, and the texts of the states.
use looper_rust.Prelude.{ℕ, zero, suc, ◌+◌, ◌≤◌, String, eq_iff, ◌≡◌, ◌↔◌, refl, true, false, arith}
use looper_rust.Types.RunStatus.{
  RunStatus, queued, running, success, failed, cancelled, interrupted, parse_failed, ok,
  is_terminal, can_transition_to, transition, as_str, from_str,
}

-- `n` transitions that `transition` accepts
pub data Steps (s : RunStatus) : ℕ → RunStatus → Type 0 where
  here : Steps s zero s
  next : {n : ℕ} {t u : RunStatus} → Steps s n t → transition t u ≡ ok u → Steps s (suc n) u

-- how many transitions may still follow
rank : RunStatus → ℕ
rank queued = 2
rank running = 1
rank _ = 0

rank-transition : (t u : RunStatus) → transition t u ≡ ok u → rank u + 1 ≤ rank t
unfolding transition rank
rank-transition t u h = ground arith

rank-Steps : {s t : RunStatus} {n : ℕ} → Steps s n t → rank t + n ≤ rank s
rank-Steps here = omega arith
rank-Steps (next {n} {t} {u} r h) = omega (arith, rank-Steps r, rank-transition t u h)

rank-le-two : (s : RunStatus) → rank s ≤ 2
unfolding rank
rank-le-two s = ground arith

-- A run is at its end after at most two transitions.
pub Steps-le-two : {s t : RunStatus} {n : ℕ} → Steps s n t → n ≤ 2
Steps-le-two {s} r = omega (arith, rank-Steps r, rank-le-two s)

-- A status accepts no transition at all exactly when it is terminal.
pub terminal_iff_stuck :
    (s : RunStatus) → (is_terminal s ≡ true) ↔ ((t : RunStatus) → can_transition_to s t ≡ false)
unfolding is_terminal can_transition_to
terminal_iff_stuck s = (λ h t. ground arith, λ all. ground (arith, all running, all failed))

from_str-as_str : (s : RunStatus) → from_str (as_str s) ≡ ok s
unfolding from_str as_str
from_str-as_str queued = refl
from_str-as_str running = refl
from_str-as_str success = refl
from_str-as_str failed = refl
from_str-as_str cancelled = refl
from_str-as_str interrupted = refl
from_str-as_str parse_failed = refl

as_str-from_str : (t : String) (s : RunStatus) → from_str t ≡ ok s → as_str s ≡ t
unfolding from_str as_str
as_str-from_str t s h = ground (
  arith,
  eq_iff t "queued",
  eq_iff t "running",
  eq_iff t "success",
  eq_iff t "failed",
  eq_iff t "cancelled",
  eq_iff t "interrupted",
  eq_iff t "parse_failed",
)

-- A text is read as a status exactly when it is the text of that status.
pub run_text_exact : (t : String) (s : RunStatus) → (from_str t ≡ ok s) ↔ (as_str s ≡ t)
run_text_exact t s = (as_str-from_str t s, λ e. rw (← e) (from_str-as_str s))
