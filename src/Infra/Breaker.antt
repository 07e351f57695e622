-- ===== src/Infra/Breaker.antt =====
-- crates/looper-infra/src/circuit_breaker.rs. The clock is an argument: `now` is what
-- `Instant::now()` returns. A method that mutates the breaker returns the new one.
pub mod Trips
use looper_rust.Prelude.{
  ℕ, ◌+◌, ◌-◌, ◌^◌, Bool, true, false, Option, none, some, String, leb, min, if◌then◌else◌,
}

pub data State : Type 0 where
  closed tripped half_open : State

pub record CircuitBreaker : Type 0 where
  pub failure_threshold : ℕ
  pub cooldown : ℕ
  pub state : State
  pub failure_count : ℕ
  pub last_failure_time : Option ℕ

-- a `u32` counter
abbrev pub u32_max : ℕ
u32_max = 2 ^ 32 - 1

unfoldable pub new : ℕ → ℕ → CircuitBreaker
new failure_threshold cooldown = record {
  failure_threshold = failure_threshold;
  cooldown = cooldown;
  state = closed;
  failure_count = 0;
  last_failure_time = none;
}

-- `t.elapsed() >= cooldown`; `elapsed` of a later instant is zero
abbrev pub cooled_down : ℕ → ℕ → Option ℕ → Bool
cooled_down now cooldown none = false
cooled_down now cooldown (some t) = leb cooldown (now - t)

abbrev pub availability : State → ℕ → CircuitBreaker → Bool × CircuitBreaker
availability closed now b = (true, b)
availability tripped now b =
    if cooled_down now b.cooldown b.last_failure_time
    then (true, record b { state = half_open })
    else (false, b)
availability half_open now b = (true, b)

unfoldable pub is_available : ℕ → CircuitBreaker → Bool × CircuitBreaker
is_available now b = availability b.state now b

unfoldable pub record_success : CircuitBreaker → CircuitBreaker
record_success b = record b { failure_count = 0; last_failure_time = none; state = closed }

abbrev pub state_after_failure : State → ℕ → ℕ → State
state_after_failure closed failures threshold = if leb threshold failures then tripped else closed
state_after_failure half_open failures threshold = tripped
state_after_failure tripped failures threshold = tripped

unfoldable pub record_failure : ℕ → CircuitBreaker → CircuitBreaker
record_failure now b =
    let failures = min (b.failure_count + 1) u32_max in
    record b {
      failure_count = failures;
      last_failure_time = some now;
      state = state_after_failure b.state failures b.failure_threshold;
    }

unfoldable pub state_name : CircuitBreaker → String
state_name b = elim b.state [ closed ↦ "closed" | tripped ↦ "open" | half_open ↦ "half_open" ]

unfoldable pub reset : CircuitBreaker → CircuitBreaker
reset b = record b { failure_count = 0; last_failure_time = none; state = closed }
