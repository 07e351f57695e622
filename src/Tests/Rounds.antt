-- ===== src/Tests/Rounds.antt =====
-- Cycles of small graphs.
use looper_rust.Prelude.{String, ◌≡◌, refl, some, List, [], ◌∷◌, Memᴰ, ℤ}
use looper_rust.Storage.Sql.{order_by, insert_ordered}
use looper_rust.Runner.Depgraph.{get_entry, insert_entry, normalize, same}
use looper_rust.Runner.Depgraph.Cycles.{
  Cycle, Edges, detect_cycles, visit_all, visit, follow, found, back_to, canonicalize_cycle,
  least_rotation, but_last, close, drop, take, refs_slice_less, ref_less, cycle_key, display,
  or_insert, reachable,
}
use looper_rust.Runner.Depgraph.Cycles.Walks.{Walk, IsCycle}
use looper_rust.Runner.Depgraph.Cycles.Detected.{
  detect_cycles_ends, reported-IsCycle, none_reported,
}
use looper_rust.Tests.Graphs.{as_is, issue_1, issue_2}

-- numbers are not shown here: the references differ in nothing else that a key would need
abbrev mute : ℤ → String
mute n = "n"

abbrev two_round : Edges
two_round = (issue_1, issue_2 ∷ []) ∷ (issue_2, issue_1 ∷ []) ∷ []

abbrev one_way : Edges
one_way = (issue_1, issue_2 ∷ []) ∷ []

-- entered from the second issue, the cycle is turned to begin with the first
two_round_runs :
    detect_cycles as_is as_is mute (issue_2 ∷ issue_1 ∷ []) two_round
    ≡ some ((issue_1 ∷ issue_2 ∷ issue_1 ∷ []) ∷ [])
unfolding detect_cycles visit_all visit follow found back_to canonicalize_cycle least_rotation
    but_last close drop take refs_slice_less ref_less cycle_key display or_insert reachable
    get_entry insert_entry normalize same order_by insert_ordered
two_round_runs = refl

detect_cycles_ends_example :
    (cycles : List Cycle) × (detect_cycles as_is as_is mute (issue_2 ∷ issue_1 ∷ []) two_round
      ≡ some cycles)
detect_cycles_ends_example = detect_cycles_ends as_is as_is mute (issue_2 ∷ issue_1 ∷ []) two_round

reported-IsCycle_example : IsCycle two_round (issue_1 ∷ issue_2 ∷ issue_1 ∷ [])
reported-IsCycle_example =
    reported-IsCycle as_is as_is mute (issue_2 ∷ issue_1 ∷ []) two_round
      ((issue_1 ∷ issue_2 ∷ issue_1 ∷ []) ∷ []) (issue_1 ∷ issue_2 ∷ issue_1 ∷ []) two_round_runs
      (Memᴰ.head refl)

one_way_runs : detect_cycles as_is as_is mute (issue_1 ∷ issue_2 ∷ []) one_way ≡ some []
unfolding detect_cycles visit_all visit follow found reachable get_entry insert_entry same order_by
one_way_runs = refl

none_reported_example : ¬ Walk one_way issue_1 (issue_2 ∷ []) issue_1
none_reported_example =
    none_reported as_is as_is mute (issue_1 ∷ issue_2 ∷ []) one_way one_way_runs issue_1
      (issue_2 ∷ []) (Memᴰ.head refl)
