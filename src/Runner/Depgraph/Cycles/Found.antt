-- ===== src/Runner/Depgraph/Cycles/Found.antt =====
-- The search of crates/looper-runner/src/depgraph.rs runs to its end and finds what there is.
use looper_rust.Prelude.{
  ℕ, zero, suc, ◌≤◌, ◌<◌, String, ◌==◌, ◌≡◌, ◌≢◌, refl, Bool, true, false, Option, some, List, [],
  ◌∷◌, ◌++◌, any, count, All, Memᴰ, Memᴰ-nil, Memᴰ-cons, Bool-cases, inl, inr, arith, if◌then◌else◌,
  ℤ,
}
use looper_rust.Runner.Depgraph.{IssueRef, same, get_entry, or_default}
use looper_rust.Runner.Depgraph.Cycles.{
  Cycle, Edges, entered, finished, Search, is_new, marked, or_insert, found, follow, visit, back_to,
  canonicalize_cycle, cycle_key,
}
use looper_rust.Runner.Depgraph.Cycles.Walks.{
  Edge, IsCycle, IsStack, back_to-IsRound, canonicalize-IsCycle,
}
use looper_rust.Runner.Depgraph.Cycles.Marks.{
  mark_of, Inv, IsLater, IsLater-refl, IsLater-trans, mark-here, new-off_stack, enter-Inv,
  enter-IsLater, leave-Inv, leave-IsLater,
}

or_insert-some :
    (key : String) (c : Cycle) (rows : List (String × Cycle)) → or_insert key c rows ≢ []
unfolding or_insert
or_insert-some key c [] h = cc
or_insert-some key c ((k, d) ∷ rows) h = ground arith

or_insert-All :
    (edges : Edges) (key : String) (c : Cycle) (rows : List (String × Cycle))
    → IsCycle edges c
    → All (λ (e : String × Cycle). IsCycle edges e.1) rows
    → All (λ (e : String × Cycle). IsCycle edges e.1) (or_insert key c rows)
unfolding or_insert
or_insert-All edges key c [] i a = (i, tt)
or_insert-All edges key c ((k, d) ∷ rows) i (j, a) = elim (Bool-cases (k == key)) [
  | inl e ↦ rw e (j, a)
  | inr e ↦ rw e (j, or_insert-All edges key c rows i a)
]

module _ {A : Type 0} (p p' : A → Bool) (fewer : (x : A) → p' x ≡ true → p x ≡ true) where
  count-le : (xs : List A) → count p' xs ≤ count p xs
  count-le [] = omega arith
  count-le (x ∷ xs) = ground (arith, fewer x, count-le xs)

  count-lt :
      (xs : List A) (a : A) → Memᴰ a xs → p a ≡ true → p' a ≡ false → count p' xs < count p xs
  count-lt [] a m h k = absurd (Memᴰ-nil a m)
  count-lt (x ∷ xs) a (Memᴰ.head e) h k =
      let h' : p x ≡ true = rw e at h in
      let k' : p' x ≡ false = rw e at k in ground (arith, h', k', count-le xs)
  count-lt (x ∷ xs) a (Memᴰ.tail m) h k = ground (arith, fewer x, count-lt xs a m h k)

-- how many of the nodes have no mark yet
abbrev pub fresh : List IssueRef → Search → ℕ
fresh nodes s = count (λ n. is_new n s) nodes

pub fresh-IsLater :
    (nodes : List IssueRef) (s t : Search) → IsLater s t → fresh nodes t ≤ fresh nodes s
fresh-IsLater nodes s t l = count-le (λ n. is_new n s) (λ n. is_new n t) l.grown nodes

-- a visit takes its node from those without a mark
enter-fewer :
    (edges : Edges) (nodes : List IssueRef) (node : IssueRef) (stack : List IssueRef) (s : Search)
    → Inv edges stack s
    → is_new node s ≡ true
    → Memᴰ node nodes
    → fresh nodes (marked node entered s) < fresh nodes s
enter-fewer edges nodes node stack s i new m =
    count-lt (λ n. is_new n s) (λ n. is_new n (marked node entered s))
      (enter-IsLater edges node stack s i new).grown nodes node m new
      (ground (arith, mark-here node entered s))

-- what a part of the search comes to: it has fuel enough, and keeps the meaning of the marks
pub record Ran (edges : Edges) (stack : List IssueRef) (s : Search) (r : Option Search)
    (P : Search → Type 0) : Type 0 where
  pub result : Search
  pub ran : r ≡ some result
  pub inv : Inv edges stack result
  pub later : IsLater s result
  pub reached : P result

module _ (trim to_lowercase : String → String) (show : ℤ → String) (edges : Edges)
    (nodes : List IssueRef) where
  module _ (node : IssueRef) (stack : List IssueRef) (st : IsStack edges (node ∷ stack)) where
    found-Ran :
        (n : IssueRef) (s : Search)
        → Inv edges (node ∷ stack) s
        → Edge edges node n
        → any (same n) (node ∷ stack) ≡ true
        → Ran edges
            (node ∷ stack)
            s
            (some (found trim to_lowercase show n (node ∷ stack) s))
            (λ t. t.seen ≡ [] → mark_of t n ≡ some finished)
    unfolding found
    found-Ran n s i e m =
        let cycle = back_to n (node ∷ stack) [] in
        let c = canonicalize_cycle trim to_lowercase show (cycle ++ n ∷ []) in
        let full = or_insert-some (cycle_key trim to_lowercase show c) c s.seen in
        record {
          result = found trim to_lowercase show n (node ∷ stack) s;
          ran = refl;
          inv = record {
            on_stack = i.on_stack;
            off_stack = i.off_stack;
            sound =
                or_insert-All edges _ c s.seen
                  (canonicalize-IsCycle trim to_lowercase show edges cycle n
                    (back_to-IsRound edges n node stack [] m st e))
                  i.sound;
            closed = λ q. absurd (full q);
            acyclic = λ q. absurd (full q);
          };
          later = record { kept = λ n h. h; grown = λ n h. h; quiet = λ q. absurd (full q) };
          reached = λ q. absurd (full q);
        }

    module _ (fuel : ℕ) (go : IssueRef → Search → Option Search)
        (go-Ran : (n : IssueRef) (s : Search)
          → Inv edges (node ∷ stack) s
          → is_new n s ≡ true
          → Edge edges node n
          → fresh nodes s ≤ fuel
          → Ran edges (node ∷ stack) s (go n s) (λ t. mark_of t n ≡ some finished)) where
      -- the body of the loop over the targets
      abbrev step : IssueRef → Search → Option Search
      step n s =
          if any (same n) (node ∷ stack)
          then some (found trim to_lowercase show n (node ∷ stack) s)
          else if is_new n s
          then go n s
          else some s

      step-Ran :
          (n : IssueRef) (s : Search)
          → Inv edges (node ∷ stack) s
          → Edge edges node n
          → fresh nodes s ≤ fuel
          → Ran edges (node ∷ stack) s (step n s) (λ t. t.seen ≡ [] → mark_of t n ≡ some finished)
      step-Ran n s i e f = elim (Bool-cases (any (same n) (node ∷ stack))) [
        | inl m ↦ rw m (found-Ran n s i e m)
        | inr m ↦ elim (Bool-cases (is_new n s)) [
          | inl k ↦
              rw (m, k)
                (let r = go-Ran n s i k e f in
                  record {
                    result = r.result;
                    ran = r.ran;
                    inv = r.inv;
                    later = r.later;
                    reached = λ q. r.reached;
                  })
          | inr k ↦
              rw (m, k)
                record {
                  result = s;
                  ran = refl;
                  inv = i;
                  later = IsLater-refl s;
                  reached = λ q. old n s i m k;
                }
        ]
      ]
        where
          old :
              (n : IssueRef) (s : Search)
              → Inv edges (node ∷ stack) s
              → any (same n) (node ∷ stack) ≡ false
              → is_new n s ≡ false
              → mark_of s n ≡ some finished
          old n s i m k = ground (arith, i.off_stack n, m, k)

      follow-Ran :
          (ns : List IssueRef) (s : Search)
          → ((m : IssueRef) → Memᴰ m ns → Edge edges node m)
          → Inv edges (node ∷ stack) s
          → fresh nodes s ≤ fuel
          → Ran edges
              (node ∷ stack)
              s
              (follow trim to_lowercase show go (node ∷ stack) ns s)
              (λ t. t.seen ≡ [] → (m : IssueRef) → Memᴰ m ns → mark_of t m ≡ some finished)
      unfolding follow
      follow-Ran [] s sub i f = record {
        result = s;
        ran = refl;
        inv = i;
        later = IsLater-refl s;
        reached = λ q m h. absurd (Memᴰ-nil m h);
      }
      follow-Ran (n ∷ ns) s sub i f =
          let one = step-Ran n s i (sub n (Memᴰ.head refl)) f in
          let le = fresh-IsLater nodes s one.result one.later in
          let rest =
            follow-Ran ns one.result (λ m h. sub m (Memᴰ.tail h)) one.inv (omega (arith, le, f)) in
          rw (one.ran) record {
            result = rest.result;
            ran = rest.ran;
            inv = rest.inv;
            later = IsLater-trans one.later rest.later;
            reached = λ q m h. elim (Memᴰ-cons m n ns h) [
              | inl e ↦ rw e (rest.later.kept n (one.reached (rest.later.quiet q)))
              | inr k ↦ rest.reached q m k
            ];
          }

  module _ (targets : (a b : IssueRef) → Edge edges a b → Memᴰ b nodes) where
    -- With as much fuel as there are nodes without a mark, a visit runs to its end.
    pub visit-Ran :
        (fuel : ℕ) (node : IssueRef) (stack : List IssueRef) (s : Search)
        → Inv edges stack s
        → is_new node s ≡ true
        → IsStack edges (node ∷ stack)
        → Memᴰ node nodes
        → fresh nodes s ≤ fuel
        → Ran edges stack s
            (visit trim to_lowercase show edges fuel node stack s)
            (λ t. mark_of t node ≡ some finished)
    unfolding visit
    visit-Ran zero node stack s i new st m f =
        absurd (omega (arith, f, enter-fewer edges nodes node stack s i new m))
    visit-Ran (suc fuel) node stack s i new st m f =
        let fewer : fresh nodes (marked node entered s) < fresh nodes s =
          enter-fewer edges nodes node stack s i new m in
        let body =
          follow-Ran node stack st fuel
            (λ next. visit trim to_lowercase show edges fuel next (node ∷ stack))
            (λ n t j k e g. visit-Ran fuel n (node ∷ stack) t j k (e, st) (targets node n e) g)
            (or_default (get_entry node edges)) (marked node entered s) (λ n h. h)
            (enter-Inv edges node stack s i new) (omega (arith, fewer, f)) in
        let off = new-off_stack edges node stack s i new in
        rw (body.ran) record {
          result = marked node finished body.result;
          ran = refl;
          inv = leave-Inv edges node stack body.result body.inv off body.reached;
          later = IsLater-trans (enter-IsLater edges node stack s i new) (
              IsLater-trans body.later
                (leave-IsLater edges node stack body.result body.inv off body.reached));
          reached = mark-here node finished body.result;
        }
