-- ===== src/Infra/Breaker/Trips.antt =====
-- When the breaker of crates/looper-infra/src/circuit_breaker.rs trips, and when it lets a call by.
use looper_rust.Prelude.{
  ℕ, ◌+◌, ◌-◌, ◌≤◌, ◌<◌, ◌≡◌, ◌≢◌, ◌↔◌, refl, ◌∙◌, true, none, some, List, [], ◌∷◌, ◌++◌, map,
  length, arith, min,
}
use looper_rust.Infra.Breaker.{
  closed, half_open, CircuitBreaker, u32_max, new, is_available, record_success, record_failure,
  reset,
}

-- the calls that a client makes, each with the time of the call
pub data Call : Type 0 where
  ask fail : ℕ → Call
  succeed start_over : Call

pub perform : Call → CircuitBreaker → CircuitBreaker
perform (ask now) b = (is_available now b).1
perform (fail now) b = record_failure now b
perform succeed b = record_success b
perform start_over b = reset b

pub perform_all : List Call → CircuitBreaker → CircuitBreaker
perform_all [] b = b
perform_all (c ∷ cs) b = perform_all cs (perform c b)

-- what holds between calls, for a threshold above zero
pub record Inv (b : CircuitBreaker) : Type 0 where
  pub threshold : 0 < b.failure_threshold
  pub fits : b.failure_threshold ≤ u32_max
  pub below : b.state ≡ closed → b.failure_count < b.failure_threshold
  pub reached : b.state ≢ closed → b.failure_threshold ≤ b.failure_count
  pub timed : b.state ≢ closed → b.last_failure_time ≢ none

perform-Inv : (c : Call) (b : CircuitBreaker) → Inv b → Inv (perform c b)
unfolding perform is_available record_failure record_success reset
perform-Inv (ask now) b h = ground arith
perform-Inv (fail now) b h = ground arith
perform-Inv succeed b h = ground arith
perform-Inv start_over b h = ground arith

perform_all-keeps : (calls : List Call) (b : CircuitBreaker) → Inv b → Inv (perform_all calls b)
unfolding perform_all
perform_all-keeps [] b h = h
perform_all-keeps (c ∷ cs) b h = perform_all-keeps cs (perform c b) (perform-Inv c b h)

-- Whatever the calls, a new breaker with a threshold from 1 to 2^32 - 1 is closed only below the
-- threshold and away from `closed` only at or above it, and then it knows when it last failed.
pub perform_all-Inv :
    (threshold cooldown : ℕ) (calls : List Call)
    → 0 < threshold
    → threshold ≤ u32_max
    → Inv (perform_all calls (new threshold cooldown))
perform_all-Inv threshold cooldown calls pos fits =
    perform_all-keeps calls (new threshold cooldown) (unfold new in ground arith)

pub fails : List ℕ → List Call
fails ts = map fail ts

failure_count-fails :
    (ts : List ℕ) (b : CircuitBreaker)
    → b.failure_count ≤ u32_max
    → (perform_all (fails ts) b).failure_count ≡ min (b.failure_count + length ts) u32_max
unfolding perform_all fails
failure_count-fails [] b h = omega arith
failure_count-fails (t ∷ ts) b h =
    rw (failure_count-fails ts (perform (fail t) b) (unfold perform record_failure in omega arith))
      (unfold perform record_failure in omega arith)

threshold-fails :
    (ts : List ℕ) (b : CircuitBreaker)
    → (perform_all (fails ts) b).failure_threshold ≡ b.failure_threshold
unfolding perform_all fails perform record_failure
threshold-fails [] b = refl
threshold-fails (t ∷ ts) b = threshold-fails ts (perform (fail t) b)

-- After failures alone a new breaker, with a threshold from 1 to 2^32 - 1, is closed exactly while
-- they are fewer than the threshold.
pub closed_iff_below :
    (threshold cooldown : ℕ) (times : List ℕ)
    → 0 < threshold
    → threshold ≤ u32_max
    → ((perform_all (fails times) (new threshold cooldown)).state ≡ closed)
      ↔ (length times < threshold)
closed_iff_below threshold cooldown times pos fits =
    let inv = perform_all-Inv threshold cooldown (fails times) pos fits in
    let counted = failure_count-fails times (new threshold cooldown) (unfold new in omega arith) in
    let kept = threshold-fails times (new threshold cooldown) in
    unfold new in ground (arith, inv, counted, kept)

-- A failure away from `closed`, such as that of a probe, shuts the breaker until the cooldown has
-- passed since that failure, and no longer.
pub probe_again :
    (b : CircuitBreaker) (t now : ℕ)
    → b.state ≢ closed
    → ((is_available now (record_failure t b)).0 ≡ true) ↔ (b.cooldown ≤ now - t)
unfolding is_available record_failure
probe_again b t now h = ground arith

pub asks : List ℕ → List Call
asks ts = map ask ts

cooldown-fails :
    (ts : List ℕ) (b : CircuitBreaker) → (perform_all (fails ts) b).cooldown ≡ b.cooldown
unfolding perform_all fails perform record_failure
cooldown-fails [] b = refl
cooldown-fails (t ∷ ts) b = cooldown-fails ts (perform (fail t) b)

perform_all-append :
    (xs ys : List Call) (b : CircuitBreaker)
    → perform_all (xs ++ ys) b ≡ perform_all ys (perform_all xs b)
unfolding perform_all
perform_all-append [] ys b = refl
perform_all-append (x ∷ xs) ys b = perform_all-append xs ys (perform x b)

last-fails :
    (ts : List ℕ) (t : ℕ) (b : CircuitBreaker)
    → (perform_all (fails (ts ++ t ∷ [])) b).last_failure_time ≡ some t
unfolding perform_all fails perform record_failure
last-fails [] t b = refl
last-fails (s ∷ ts) t b = last-fails ts t (perform (fail s) b)

half_open-stays :
    (ts : List ℕ) (b : CircuitBreaker)
    → b.state ≡ half_open
    → (perform_all (asks ts) b).state ≡ half_open
unfolding perform_all asks perform is_available
half_open-stays [] b h = h
half_open-stays (t ∷ ts) b h = half_open-stays ts (perform (ask t) b) (ground arith)

half_opens :
    (t now : ℕ) (b : CircuitBreaker)
    → b.state ≢ closed
    → b.last_failure_time ≡ some t
    → b.cooldown ≤ now - t
    → (perform (ask now) b).state ≡ half_open
unfolding perform is_available
half_opens t now b n l h = ground arith

-- After as many failures as the threshold, from 1 to 2^32 - 1, or more, and a first request when the
-- cooldown has passed since the last of them, every request is let by, whenever it comes and however
-- many came before it.
pub probes_unlimited :
    (threshold cooldown : ℕ) (times : List ℕ) (t first : ℕ) (more : List ℕ) (now : ℕ)
    → 0 < threshold
    → threshold ≤ u32_max
    → threshold ≤ length (times ++ t ∷ [])
    → cooldown ≤ first - t
    → (is_available now
        (perform_all (fails (times ++ t ∷ []) ++ ask first ∷ asks more) (new threshold cooldown))).0
      ≡ true
probes_unlimited threshold cooldown times t first more now pos fits many late =
    let failed = perform_all (fails (times ++ t ∷ [])) (new threshold cooldown) in
    let below = closed_iff_below threshold cooldown (times ++ t ∷ []) pos fits in
    let tripped : failed.state ≢ closed = λ e. absurd (omega (arith, below.0 e)) in
    let same : failed.cooldown ≡ cooldown =
      cooldown-fails (times ++ t ∷ []) (new threshold cooldown) ∙ (unfold new in refl) in
    let probing =
      half_opens t first failed tripped (last-fails times t (new threshold cooldown))
        (rw same late) in
    rw
      (perform_all-append (fails (times ++ t ∷ [])) (ask first ∷ asks more)
        (new threshold cooldown))
      (unfold is_available perform_all in
        ground (arith, half_open-stays more (perform (ask first) failed) probing))
