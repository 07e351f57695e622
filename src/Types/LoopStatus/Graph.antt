-- ===== src/Types/LoopStatus/Graph.antt =====
-- The transition graph of crates/looper-types/src/loop_status.rs, and the texts of the states.
use looper_rust.Prelude.{
  String, ◌==◌, eq_iff, ◌≡◌, ◌↔◌, ◌⊎◌, refl, true, false, arith, if◌then◌else◌,
}
use looper_rust.Types.LoopStatus.{
  LoopStatus, idle, queued, running, paused, waiting, stopped, terminated, completed, failed,
  interrupted, Outcome, ok, is_terminal, is_active_running, transition, as_str, from_str,
}

-- Any sequence of transitions that `transition` accepts.
pub data Reach (s : LoopStatus) : LoopStatus → Type 0 where
  here : Reach s s
  next : {t u : LoopStatus} → Reach s t → transition t u ≡ ok u → Reach s u

go : {s : LoopStatus} (t u : LoopStatus) → transition t u ≡ ok u → Reach s t → Reach s u
go t u h r = next r h

Reach-running : Reach idle running
unfolding transition
Reach-running = go queued running refl (go idle queued refl here)

-- Every state can be reached from `idle`.
pub Reach-all : (s : LoopStatus) → Reach idle s
unfolding transition
Reach-all idle = here
Reach-all queued = go idle queued refl here
Reach-all running = Reach-running
Reach-all paused = go running paused refl Reach-running
Reach-all waiting = go running waiting refl Reach-running
Reach-all stopped = go running stopped refl Reach-running
Reach-all terminated = go running terminated refl Reach-running
Reach-all completed = go running completed refl Reach-running
Reach-all failed = go running failed refl Reach-running
Reach-all interrupted = go running interrupted refl Reach-running

transition_from_sink :
    (s t : LoopStatus) → (s ≡ completed) ⊎ (s ≡ terminated) → transition s t ≡ ok t → ⊥
unfolding transition
transition_from_sink s t h e = ground arith

-- A completed or terminated loop stays where it is, whatever transitions are tried.
pub sink_stays : (s t : LoopStatus) → (s ≡ completed) ⊎ (s ≡ terminated) → Reach s t → t ≡ s
sink_stays s s' h here = refl
sink_stays s u h (next {t} r e) = absurd (transition_from_sink s u h (rw (sink_stays s t h r) at e))

-- By an accepted transition only a failed loop leaves the terminal states, and only to `queued`;
-- and a loop that was not active becomes active only from `queued` to `running`.
pub gates :
    (s t : LoopStatus)
    → transition s t ≡ ok t
    → (is_terminal s ≡ true → (s ≡ failed) × (t ≡ queued))
      × (is_active_running s ≡ false → is_active_running t ≡ true → (s ≡ queued) × (t ≡ running))
unfolding transition is_terminal is_active_running
gates s t h = (λ k. ground arith, λ k l. ground arith)

-- A state's text is read back as the state.
from_str-as_str : (s : LoopStatus) → from_str (as_str s) ≡ ok s
unfolding from_str as_str
from_str-as_str idle = refl
from_str-as_str queued = refl
from_str-as_str running = refl
from_str-as_str paused = refl
from_str-as_str waiting = refl
from_str-as_str stopped = refl
from_str-as_str terminated = refl
from_str-as_str completed = refl
from_str-as_str failed = refl
from_str-as_str interrupted = refl

-- one arm of the `match` of `from_str`, above the arms `rest`
arm :
    (t : String) (x s : LoopStatus) (rest : Outcome)
    → (rest ≡ ok s → as_str s ≡ t)
    → (if t == as_str x then ok x else rest) ≡ ok s
    → as_str s ≡ t
arm t x s rest later h = ground (arith, eq_iff t (as_str x))

as_str-from_str : (t : String) (s : LoopStatus) → from_str t ≡ ok s → as_str s ≡ t
unfolding from_str as_str
as_str-from_str t s = arm t idle s _ (
    arm t queued s _ (
      arm t running s _ (
        arm t paused s _ (
          arm t waiting s _ (
            arm t stopped s _ (
              arm t terminated s _
                (arm t completed s _ (arm t failed s _ (arm t interrupted s _ (λ h. cc))))))))))

-- A text is read as a state exactly when it is the text of that state.
pub from_str_exact : (t : String) (s : LoopStatus) → (from_str t ≡ ok s) ↔ (as_str s ≡ t)
from_str_exact t s = (as_str-from_str t s, λ e. rw (← e) (from_str-as_str s))
