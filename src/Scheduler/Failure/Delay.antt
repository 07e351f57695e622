-- ===== src/Scheduler/Failure/Delay.antt =====
-- The retry delay of crates/looper-scheduler/src/failure.rs.
use native.Mathlib.Nat.{two-pow-succ, mod-eq_of_lt}
use native.Mathlib.Decide.{dec_le}
use looper_rust.Prelude.{ℕ, zero, suc, ◌+◌, ◌*◌, ◌^◌, ◌≤◌, ◌<◌, ◌≡◌, refl, min, arith}
use looper_rust.Scheduler.Failure.{compute_retry_delay, u64}

two_pow_high : (a : ℕ) → 64 ≤ a → u64 (2 ^ a) ≡ 0
two_pow_high zero h = absurd (omega arith)
two_pow_high (suc b) h = elim (dec_le 64 b) [
  | yes p ↦ omega (arith, two-pow-succ b, two_pow_high b p)
  | no n ↦ let e : b ≡ 63 = omega arith in rw e refl
]

-- no wrap where the product fits
wrap_id : (b p : ℕ) → b * p < 2 ^ 64 → u64 (b * u64 p) ≡ b * p
wrap_id zero p h = omega arith
wrap_id (suc b) p h =
    let le : p ≤ suc b * p = omega arith in
    let small : u64 p ≡ p = mod-eq_of_lt (omega arith) in rw small (mod-eq_of_lt h)

-- Where the base times 2^(attempt + 1) fits 64 bits, the delay is the base doubled once for each attempt, or 300 s if
-- that is less, and one more attempt never shortens it.
pub delay_exact :
    (attempt base : ℕ)
    → base * 2 ^ suc attempt < 2 ^ 64
    → (compute_retry_delay attempt base ≡ min (base * 2 ^ attempt) 300_000)
      × (compute_retry_delay attempt base ≤ compute_retry_delay (suc attempt) base)
unfolding compute_retry_delay
delay_exact attempt base fits =
    let wide : base * (2 ^ attempt + 2 ^ attempt) < 2 ^ 64 = rw (two-pow-succ attempt) at fits in
    let half : base * 2 ^ attempt < 2 ^ 64 = omega (arith, wide) in
    let one = wrap_id base (2 ^ attempt) half in
    let two = wrap_id base (2 ^ suc attempt) fits in
    (rw one, rw (one, two, two-pow-succ attempt) (omega arith))

-- From attempt 64 on the power is zero in 64 bits, and so is the delay.
pub delay_vanishes : (attempt base : ℕ) → 64 ≤ attempt → compute_retry_delay attempt base ≡ 0
unfolding compute_retry_delay
delay_vanishes attempt base h = rw (two_pow_high attempt h) (omega arith)
