-- ===== src/Runner/Depgraph/Cycles/Walks.antt =====
-- Closed walks, and what crates/looper-runner/src/depgraph.rs makes of one.
use looper_rust.Prelude.{
  ℕ, zero, suc, String, ◌≡◌, refl, ap, true, false, List, [], ◌∷◌, ◌++◌, append-nil, any, length,
  Memᴰ, Bool-cases, inl, inr, arith, ltb, ℤ,
}
use looper_rust.Runner.Depgraph.{IssueRef, same, get_entry, or_default}
use looper_rust.Runner.Depgraph.Ready.{same_eq}
use looper_rust.Runner.Depgraph.Cycles.{
  Cycle, Edges, drop, take, but_last, close, least_rotation, canonicalize_cycle, back_to,
  refs_slice_less,
}

abbrev pub Edge : Edges → IssueRef → IssueRef → Type 0
Edge edges a b = Memᴰ b (or_default (get_entry a edges))

-- a walk along edges from `a` through the nodes to `b`
abbrev pub Walk : Edges → IssueRef → List IssueRef → IssueRef → Type 0
Walk edges a [] b = Edge edges a b
Walk edges a (x ∷ xs) b = Edge edges a x × Walk edges x xs b

-- nodes that can be walked round
abbrev pub IsRound : Edges → List IssueRef → Type 0
IsRound edges [] = ⊥
IsRound edges (x ∷ xs) = Walk edges x xs x

-- a reported cycle: back at its first node, along edges
pub record IsCycle (edges : Edges) (c : Cycle) : Type 0 where
  pub nodes : List IssueRef
  pub round : IsRound edges nodes
  pub closes : c ≡ close nodes

-- a stack, its top first: each node was entered from the one below
abbrev pub IsStack : Edges → List IssueRef → Type 0
IsStack edges [] = Unit
IsStack edges (x ∷ []) = Unit
IsStack edges (x ∷ y ∷ ys) = Edge edges y x × IsStack edges (y ∷ ys)

module _ (edges : Edges) where
  Walk-split :
      (a : IssueRef) (xs : List IssueRef) (b : IssueRef) (ys : List IssueRef) (c : IssueRef)
      → Walk edges a (xs ++ b ∷ ys) c
      → Walk edges a xs b × Walk edges b ys c
  Walk-split a [] b ys c w = w
  Walk-split a (x ∷ xs) b ys c (e, w) = let (u, v) = Walk-split x xs b ys c w in ((e, u), v)

  Walk-join :
      (a : IssueRef) (xs : List IssueRef) (b : IssueRef) (ys : List IssueRef) (c : IssueRef)
      → Walk edges a xs b
      → Walk edges b ys c
      → Walk edges a (xs ++ b ∷ ys) c
  Walk-join a [] b ys c u v = (u, v)
  Walk-join a (x ∷ xs) b ys c (e, u) v = (e, Walk-join x xs b ys c u v)

  rotate-IsRound : (xs ys : List IssueRef) → IsRound edges (xs ++ ys) → IsRound edges (ys ++ xs)
  rotate-IsRound [] ys r = rw (append-nil ys) r
  rotate-IsRound (x ∷ xs) [] r = rw (append-nil xs) at r
  rotate-IsRound (x ∷ xs) (y ∷ ys) r =
      let (u, v) = Walk-split x xs y ys x r in Walk-join y ys x xs y v u

  -- the stack down to a node, and an edge from its top back to that node, make a round
  pub back_to-IsRound :
      (n x : IssueRef) (stack above : List IssueRef)
      → any (same n) (x ∷ stack) ≡ true
      → IsStack edges (x ∷ stack)
      → Walk edges x above n
      → IsRound edges (back_to n (x ∷ stack) above)
  unfolding back_to
  back_to-IsRound n x [] above m st w = elim (Bool-cases (same n x)) [
    | inl e ↦ rw e (rw (same_eq n x e) at w)
    | inr e ↦ absurd (ground (arith, e))
  ]
  back_to-IsRound n x (y ∷ ys) above m (back, st) w = elim (Bool-cases (same n x)) [
    | inl e ↦ rw e (rw (same_eq n x e) at w)
    | inr e ↦ rw e (back_to-IsRound n y ys (x ∷ above) (rw e at m) st (back, w))
  ]

take-drop : (n : ℕ) (xs : List IssueRef) → take n xs ++ drop n xs ≡ xs
unfolding take drop
take-drop zero xs = refl
take-drop (suc n) [] = refl
take-drop (suc n) (x ∷ xs) = ap (λ ys. x ∷ ys) (take-drop n xs)

but_last-append : (xs : List IssueRef) (x : IssueRef) → but_last (xs ++ x ∷ []) ≡ xs
unfolding but_last
but_last-append [] x = refl
but_last-append (y ∷ []) x = refl
but_last-append (y ∷ z ∷ zs) x = ap (λ ys. y ∷ ys) (but_last-append (z ∷ zs) x)

but_last-length : (xs : List IssueRef) (x : IssueRef) → length (xs ++ x ∷ []) ≡ suc (length xs)
but_last-length [] x = refl
but_last-length (y ∷ ys) x = ap suc (but_last-length ys x)

module _ (trim to_lowercase : String → String) (show : ℤ → String) (edges : Edges) where
  least_rotation-IsRound :
      (nodes : List IssueRef) (rounds index : ℕ) (best : List IssueRef)
      → IsRound edges nodes
      → IsRound edges best
      → IsRound edges (least_rotation trim to_lowercase show nodes rounds index best)
  unfolding least_rotation
  least_rotation-IsRound nodes zero index best r b = b
  least_rotation-IsRound nodes (suc rounds) index best r b =
      let turned : IsRound edges (drop index nodes ++ take index nodes) =
        rotate-IsRound edges (take index nodes) (drop index nodes) (rw (take-drop index nodes) r) in
      elim (Bool-cases
        (refs_slice_less trim to_lowercase show (drop index nodes ++ take index nodes) best)) [
          | inl e ↦ rw e (least_rotation-IsRound nodes rounds (suc index) _ r turned)
          | inr e ↦ rw e (least_rotation-IsRound nodes rounds (suc index) best r b)
        ]

  -- a round stays one under `canonicalize_cycle`
  pub canonicalize-IsCycle :
      (nodes : List IssueRef) (n : IssueRef)
      → IsRound edges nodes
      → IsCycle edges (canonicalize_cycle trim to_lowercase show (nodes ++ n ∷ []))
  unfolding canonicalize_cycle
  canonicalize-IsCycle [] n r = absurd r
  canonicalize-IsCycle (x ∷ xs) n r =
      let long : ltb (length (x ∷ xs ++ n ∷ [])) 2 ≡ false =
        rw (but_last-length xs n) (ground arith) in
      rw (long, but_last-append (x ∷ xs) n)
        record {
          nodes = _;
          round = least_rotation-IsRound (x ∷ xs) _ 1 (x ∷ xs) r r;
          closes = refl;
        }
