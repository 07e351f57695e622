-- ===== src/Tests/Statuses.antt =====
-- The state machines of loops and runs.
use looper_rust.Prelude.{◌≡◌, ◌↔◌}
use looper_rust.Types.LoopStatus.{idle, ok as loop_ok, from_str, as_str}
use looper_rust.Types.LoopStatus.Graph.{from_str_exact}

from_str_exact_example : (from_str "paused" ≡ loop_ok idle) ↔ (as_str idle ≡ "paused")
from_str_exact_example = from_str_exact "paused" idle
