-- ===== src/Tests/Breakers.antt =====
-- The circuit breaker.
use looper_rust.Prelude.{◌≡◌, ◌↔◌, ◌<◌, ◌++◌, true, ℕ, List, [], ◌∷◌, length, arith}
use looper_rust.Infra.Breaker.{closed, new, is_available}
use looper_rust.Infra.Breaker.Trips.{
  Inv, ask, fail, succeed, perform_all, asks, fails, perform_all-Inv, closed_iff_below,
  probes_unlimited,
}

perform_all-Inv_example : Inv (perform_all (fail 1 ∷ fail 2 ∷ ask 40 ∷ succeed ∷ []) (new 2 30))
perform_all-Inv_example =
    perform_all-Inv 2 30 (fail 1 ∷ fail 2 ∷ ask 40 ∷ succeed ∷ []) (omega arith) (omega arith)

abbrev two_times : List ℕ
two_times = 4 ∷ 5 ∷ []

closed_iff_below_example :
    ((perform_all (fails two_times) (new 3 30)).state ≡ closed) ↔ (length two_times < 3)
closed_iff_below_example = closed_iff_below 3 30 two_times (omega arith) (omega arith)

-- two failures, a probe after the cooldown, and two more requests before its result
probes_unlimited_example :
    (is_available 42
      (perform_all (fails ((1 ∷ []) ++ 2 ∷ []) ++ ask 40 ∷ asks (41 ∷ 41 ∷ [])) (new 2 30))).0
    ≡ true
probes_unlimited_example =
    probes_unlimited 2 30 (1 ∷ []) 2 40 (41 ∷ 41 ∷ []) 42 (omega arith) (omega arith) (omega arith)
      (omega arith)
