-- ===== src/Runner/Depgraph/Cycles.antt =====
-- The search for cycles of crates/looper-runner/src/depgraph.rs. The stack is a list with its top
-- first. Each call of `visit` leaves the stack and its index as it found them, so they are handed
-- down and only the marks and the cycles are threaded through. `show` is the text of a number.
pub mod Walks
pub mod Marks
pub mod Found
pub mod Detected
use looper_rust.Prelude.{
  ℕ, zero, suc, ◌+◌, ◌-◌, String, ◌==◌, Bool, true, false, not, ◌&&◌, ◌||◌, Option, none, some,
  List, [], ◌∷◌, ◌++◌, any, map, length, leb, ltb, ltb_ℤ, leb_ℤ, ℤ, pos, if◌then◌else◌, concat,
  is_less,
}
use looper_rust.Storage.Sql.{order_by}
use looper_rust.Runner.Depgraph.{
  IssueRef, same, get_entry, insert_entry, or_default, normalize, unique_sorted_refs, build,
  Snapshot,
}

abbrev pub Cycle : Type 0
Cycle = List IssueRef

abbrev pub Edges : Type 0
Edges = List (IssueRef × List IssueRef)

-- the marks 1 and 2 of a node; a node without an entry has the mark 0
pub data Mark : Type 0 where
  entered finished : Mark

pub record Search : Type 0 where
  pub state : List (IssueRef × Mark)
  pub seen : List (String × Cycle)

infixl 5 ◌>>=◌
abbrev pub ◌>>=◌ : Option Search → (Search → Option Search) → Option Search
none >>= f = none
some s >>= f = f s

-- lists by positions

unfoldable pub drop : ℕ → Cycle → Cycle
drop zero xs = xs
drop (suc n) [] = []
drop (suc n) (x ∷ xs) = drop n xs

unfoldable pub take : ℕ → Cycle → Cycle
take zero xs = []
take (suc n) [] = []
take (suc n) (x ∷ xs) = x ∷ take n xs

-- `cycle[..cycle.len() - 1]`
unfoldable pub but_last : Cycle → Cycle
but_last [] = []
but_last (x ∷ []) = []
but_last (x ∷ y ∷ ys) = x ∷ but_last (y ∷ ys)

-- `result.push(result[0].clone())`
unfoldable pub close : Cycle → Cycle
close [] = []
close (x ∷ xs) = x ∷ xs ++ x ∷ []

-- `seen.entry(key).or_insert(cycle)`
unfoldable pub or_insert : String → Cycle → List (String × Cycle) → List (String × Cycle)
or_insert key c [] = (key, c) ∷ []
or_insert key c ((k, d) ∷ rows) = if k == key then (k, d) ∷ rows else (k, d) ∷ or_insert key c rows

-- the stack from the node on, in the order of the calls, and then `above`
unfoldable pub back_to : IssueRef → List IssueRef → List IssueRef → Cycle
back_to node [] above = above
back_to node (x ∷ stack) above =
    let rest = back_to node stack (x ∷ above) in if same node x then x ∷ above else rest

abbrev pub is_new : IssueRef → Search → Bool
is_new node s = elim (get_entry node s.state) [ none ↦ true | some mark ↦ false ]

abbrev pub marked : IssueRef → Mark → Search → Search
marked node mark s = record s { state = insert_entry node mark s.state }

-- every node that a visit can reach
unfoldable pub reachable : Edges → List IssueRef
reachable [] = []
reachable ((node, nexts) ∷ edges) = nexts ++ reachable edges

-- the values of `seen` in the order of their keys
abbrev pub sorted_cycles : Search → List Cycle
sorted_cycles s = map (λ e. e.1) (order_by (λ a b. is_less a.0 b.0) s.seen)

module _ (trim to_lowercase : String → String) (show : ℤ → String) where
  unfoldable pub ref_less : IssueRef → IssueRef → Bool
  ref_less left right =
      let l = normalize trim to_lowercase left in
      let r = normalize trim to_lowercase right in
      if not (l.repo == r.repo) then is_less l.repo r.repo else ltb_ℤ l.number r.number

  unfoldable pub refs_slice_less : Cycle → Cycle → Bool
  refs_slice_less [] right = ltb 0 (length right)
  refs_slice_less (x ∷ xs) [] = false
  refs_slice_less (x ∷ xs) (y ∷ ys) =
      let rest = refs_slice_less xs ys in
      if ref_less x y then true else if ref_less y x then false else rest

  -- the rotations from `index` on, `rounds` of them
  unfoldable pub least_rotation : Cycle → ℕ → ℕ → Cycle → Cycle
  least_rotation nodes zero index best = best
  least_rotation nodes (suc rounds) index best =
      let candidate = drop index nodes ++ take index nodes in
      least_rotation nodes rounds (suc index)
        (if refs_slice_less candidate best then candidate else best)

  unfoldable pub canonicalize_cycle : Cycle → Cycle
  canonicalize_cycle cycle =
      if ltb (length cycle) 2
      then []
      else let nodes = but_last cycle in close (least_rotation nodes (length nodes - 1) 1 nodes)

  unfoldable pub display : IssueRef → String
  display ref =
      let r = normalize trim to_lowercase ref in
      if leb_ℤ r.number (pos 0)
      then ""
      else if r.repo == ""
      then concat "#" (show r.number)
      else concat r.repo (concat "#" (show r.number))

  -- `join("->")`
  unfoldable pub cycle_key : Cycle → String
  cycle_key [] = ""
  cycle_key (x ∷ []) = display x
  cycle_key (x ∷ y ∷ ys) = concat (display x) (concat "->" (cycle_key (y ∷ ys)))

  unfoldable pub found : IssueRef → List IssueRef → Search → Search
  found next stack s =
      let normalized = canonicalize_cycle (back_to next stack [] ++ next ∷ []) in
      record s { seen = or_insert (cycle_key normalized) normalized s.seen }

  -- the loop over the targets of the node on top of the stack; `go` visits a node
  unfoldable pub follow :
      (IssueRef → Search → Option Search) → List IssueRef → List IssueRef → Search → Option Search
  follow go stack [] s = some s
  follow go stack (next ∷ nexts) s =
      (if any (same next) stack
        then some (found next stack s)
        else if is_new next s
        then go next s
        else some s)
      >>= follow go stack nexts

  -- `none` means that the fuel ran out
  unfoldable pub visit : Edges → ℕ → IssueRef → List IssueRef → Search → Option Search
  visit edges zero node stack s = none
  visit edges (suc fuel) node stack s =
      follow (λ next. visit edges fuel next (node ∷ stack)) (node ∷ stack)
        (or_default (get_entry node edges)) (marked node entered s)
      >>= λ s'. some (marked node finished s')

  unfoldable pub visit_all : Edges → ℕ → List IssueRef → Search → Option Search
  visit_all edges fuel [] s = some s
  visit_all edges fuel (node ∷ tracked) s =
      (if is_new node s then visit edges fuel node [] s else some s)
      >>= visit_all edges fuel tracked

  unfoldable pub detect_cycles : List IssueRef → Edges → Option (List Cycle)
  detect_cycles tracked edges =
      elim (visit_all edges (length (tracked ++ reachable edges)) tracked
        record { state = []; seen = [] }) [ none ↦ none | some s ↦ some (sorted_cycles s) ]

  -- the cycles of the graph that `build` makes
  unfoldable pub cycles : List IssueRef → Snapshot → Option (List Cycle)
  cycles refs snapshot =
      detect_cycles (unique_sorted_refs trim to_lowercase refs)
        (build trim to_lowercase refs snapshot).edges
