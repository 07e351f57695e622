-- ===== src/Runner/Depgraph/Cycles/Detected.antt =====
-- The cycles that crates/looper-runner/src/depgraph.rs reports.
use mathlib.Core.List.Memᴰ
use looper_rust.Prelude.{
  ℕ, ◌≤◌, String, ◌≡◌, refl, sym, subst, Bool, some, List, [], ◌∷◌, ◌++◌, map, count, length, All,
  Memᴰ, Memᴰ-nil, Memᴰ-cons, Bool-cases, inl, inr, arith, if◌then◌else◌, ℤ, is_less,
}
use looper_rust.Storage.Sql.{order_by, insert_ordered}
use looper_rust.Runner.Depgraph.{IssueRef, same, get_entry}
use looper_rust.Runner.Depgraph.Cycles.{
  Cycle, Edges, finished, Search, is_new, visit, visit_all, detect_cycles, reachable, sorted_cycles,
}
use looper_rust.Runner.Depgraph.Cycles.Walks.{Edge, Walk, IsCycle}
use looper_rust.Runner.Depgraph.Cycles.Marks.{mark_of, Inv, IsLater-refl, IsLater-trans}
use looper_rust.Runner.Depgraph.Cycles.Found.{Ran, fresh, fresh-IsLater, visit-Ran}

reachable-mem : (edges : Edges) (a b : IssueRef) → Edge edges a b → Memᴰ b (reachable edges)
unfolding get_entry reachable
reachable-mem [] a b m = absurd (Memᴰ-nil b m)
reachable-mem ((k, nexts) ∷ edges) a b m = elim (Bool-cases (same k a)) [
  | inl e ↦ Memᴰ.append_left _ (rw e at m)
  | inr e ↦ Memᴰ.append_right nexts (reachable-mem edges a b (rw e at m))
]

count-le-length : (p : IssueRef → Bool) (xs : List IssueRef) → count p xs ≤ length xs
count-le-length p [] = omega arith
count-le-length p (x ∷ xs) = ground (arith, count-le-length p xs)

start : Search
start = record { state = []; seen = [] }

start-Inv : (edges : Edges) → Inv edges [] start
unfolding start get_entry
start-Inv edges = record {
  on_stack = λ n h. cc;
  off_stack = λ n h. cc;
  sound = tt;
  closed = λ q n m h e. cc;
  acyclic = λ q n h xs w. cc;
}

module _ (trim to_lowercase : String → String) (show : ℤ → String) (edges : Edges)
    (nodes : List IssueRef) (targets : (a b : IssueRef) → Edge edges a b → Memᴰ b nodes)
    (fuel : ℕ) where
  visit_all-Ran :
      (ns : List IssueRef) (s : Search)
      → ((m : IssueRef) → Memᴰ m ns → Memᴰ m nodes)
      → Inv edges [] s
      → fresh nodes s ≤ fuel
      → Ran edges [] s
          (visit_all trim to_lowercase show edges fuel ns s)
          (λ t. (m : IssueRef) → Memᴰ m ns → mark_of t m ≡ some finished)
  unfolding visit_all
  visit_all-Ran [] s sub i f = record {
    result = s;
    ran = refl;
    inv = i;
    later = IsLater-refl s;
    reached = λ m h. absurd (Memᴰ-nil m h);
  }
  visit_all-Ran (n ∷ ns) s sub i f =
      let one : Ran edges [] s
          (if is_new n s then visit trim to_lowercase show edges fuel n [] s else some s)
          (λ t. mark_of t n ≡ some finished) =
        first in
      let le = fresh-IsLater nodes s one.result one.later in
      let rest =
        visit_all-Ran ns one.result (λ m h. sub m (Memᴰ.tail h)) one.inv (omega (arith, le, f)) in
      rw (one.ran) record {
        result = rest.result;
        ran = rest.ran;
        inv = rest.inv;
        later = IsLater-trans one.later rest.later;
        reached = λ m h. elim (Memᴰ-cons m n ns h) [
          | inl e ↦ rw e (rest.later.kept n one.reached)
          | inr k ↦ rest.reached m k
        ];
      }
    where
      first :
          Ran edges [] s
            (if is_new n s then visit trim to_lowercase show edges fuel n [] s else some s)
            (λ t. mark_of t n ≡ some finished)
      first = elim (Bool-cases (is_new n s)) [
        | inl k ↦ rw k (
            visit-Ran trim to_lowercase show edges nodes targets fuel n [] s i k tt
              (sub n (Memᴰ.head refl)) f)
        | inr k ↦ rw k record {
          result = s;
          ran = refl;
          inv = i;
          later = IsLater-refl s;
          reached = ground (arith, i.off_stack n, k);
        }
      ]

-- the entries of `seen` in the order of their keys

insert_ordered-All :
    (P : Cycle → Type 0) (before : String × Cycle → String × Cycle → Bool) (e : String × Cycle)
    (rows : List (String × Cycle))
    → P e.1
    → All (λ (r : String × Cycle). P r.1) rows
    → All (λ (r : String × Cycle). P r.1) (insert_ordered before e rows)
unfolding insert_ordered
insert_ordered-All P before e [] p a = (p, tt)
insert_ordered-All P before e (r ∷ rows) p (q, a) = elim (Bool-cases (before r e)) [
  | inl k ↦ rw k (q, insert_ordered-All P before e rows p a)
  | inr k ↦ rw k (p, (q, a))
]

order_by-All :
    (P : Cycle → Type 0) (before : String × Cycle → String × Cycle → Bool)
    (rows : List (String × Cycle))
    → All (λ (r : String × Cycle). P r.1) rows
    → All (λ (r : String × Cycle). P r.1) (order_by before rows)
unfolding order_by
order_by-All P before [] a = tt
order_by-All P before (r ∷ rows) (p, a) =
    insert_ordered-All P before r (order_by before rows) p (order_by-All P before rows a)

All-values :
    (P : Cycle → Type 0) (rows : List (String × Cycle)) (c : Cycle)
    → All (λ (r : String × Cycle). P r.1) rows
    → Memᴰ c (map (λ (r : String × Cycle). r.1) rows)
    → P c
All-values P [] c a m = absurd (Memᴰ-nil c m)
All-values P (r ∷ rows) c (p, a) (Memᴰ.head e) = subst P (sym e) p
All-values P (r ∷ rows) c (p, a) (Memᴰ.tail m) = All-values P rows c a m

order_by-none :
    (before : String × Cycle → String × Cycle → Bool) (rows : List (String × Cycle))
    → map (λ (r : String × Cycle). r.1) (order_by before rows) ≡ []
    → rows ≡ []
unfolding order_by insert_ordered
order_by-none before [] h = refl
order_by-none before (r ∷ rows) h = absurd (some_row (order_by before rows) h)
  where
    some_row :
        (others : List (String × Cycle))
        → map (λ (e : String × Cycle). e.1) (insert_ordered before r others) ≡ []
        → ⊥
    some_row [] h = cc
    some_row (o ∷ others) h = ground arith

module _ (trim to_lowercase : String → String) (show : ℤ → String) (tracked : List IssueRef)
    (edges : Edges) where
  whole :
      Ran edges [] start
        (visit_all trim to_lowercase show edges (length (tracked ++ reachable edges)) tracked start)
        (λ t. (m : IssueRef) → Memᴰ m tracked → mark_of t m ≡ some finished)
  whole =
      visit_all-Ran trim to_lowercase show edges (tracked ++ reachable edges)
        (λ a b e. Memᴰ.append_right tracked (reachable-mem edges a b e))
        (length (tracked ++ reachable edges)) tracked start (λ m h. Memᴰ.append_left _ h)
        (start-Inv edges) (count-le-length (λ n. is_new n start) (tracked ++ reachable edges))

  detected : detect_cycles trim to_lowercase show tracked edges ≡ some (sorted_cycles whole.result)
  unfolding detect_cycles start
  detected = rw (whole.ran, detect_cycles)

  -- Whatever is tracked and whatever the edges are, the search for cycles runs to its end: a fuel of
  -- as many steps as there are tracked nodes and targets of edges is enough.
  pub detect_cycles_ends :
      (cycles : List Cycle) × (detect_cycles trim to_lowercase show tracked edges ≡ some cycles)
  detect_cycles_ends = (sorted_cycles whole.result, detected)

  -- Every reported cycle is a walk along edges, through at least one node, that ends where it began.
  pub reported-IsCycle :
      (cycles : List Cycle) (c : Cycle)
      → detect_cycles trim to_lowercase show tracked edges ≡ some cycles
      → Memᴰ c cycles
      → IsCycle edges c
  reported-IsCycle cycles c h m =
      let e : sorted_cycles whole.result ≡ cycles = cc (detected) in
      All-values (IsCycle edges) _ c
        (order_by-All (IsCycle edges) (λ a b. is_less a.0 b.0) whole.result.seen whole.inv.sound)
        (rw (← e) at m)

  -- When no cycle is reported, no tracked node lies on one.
  pub none_reported :
      detect_cycles trim to_lowercase show tracked edges ≡ some []
      → (n : IssueRef) (xs : List IssueRef) → Memᴰ n tracked
      → ¬ Walk edges n xs n
  none_reported h n xs m =
      let e : sorted_cycles whole.result ≡ [] = cc (detected) in
      whole.inv.acyclic (order_by-none (λ a b. is_less a.0 b.0) whole.result.seen e) n
        (whole.reached n m) xs
