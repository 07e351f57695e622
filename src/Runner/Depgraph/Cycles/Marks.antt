-- ===== src/Runner/Depgraph/Cycles/Marks.antt =====
-- What the marks of the search of crates/looper-runner/src/depgraph.rs mean.
use looper_rust.Prelude.{
  ◌≡◌, sym, ◌∙◌, subst, true, false, Option, none, some, List, [], ◌∷◌, any, All, Bool-cases, inl,
  inr, arith, if◌then◌else◌,
}
use looper_rust.Runner.Depgraph.{IssueRef, same, get_entry}
use looper_rust.Runner.Depgraph.Ready.{same_eq, same_refl, other_way, get-insert}
use looper_rust.Runner.Depgraph.Cycles.{Edges, Mark, entered, finished, Search, is_new, marked}
use looper_rust.Runner.Depgraph.Cycles.Walks.{Edge, Walk, IsCycle}

abbrev pub mark_of : Search → IssueRef → Option Mark
mark_of s n = get_entry n s.state

-- the entered nodes are those of the stack; and while no cycle has been seen, the finished nodes
-- are closed under edges and on no cycle
pub record Inv (edges : Edges) (stack : List IssueRef) (s : Search) : Type 0 where
  pub on_stack : (n : IssueRef) → any (same n) stack ≡ true → mark_of s n ≡ some entered
  pub off_stack : (n : IssueRef) → mark_of s n ≡ some entered → any (same n) stack ≡ true
  pub sound : All (λ e. IsCycle edges e.1) s.seen
  pub closed :
      s.seen ≡ []
      → (n m : IssueRef) → mark_of s n ≡ some finished
      → Edge edges n m
      → mark_of s m ≡ some finished
  pub acyclic :
      s.seen ≡ []
      → (n : IssueRef) → mark_of s n ≡ some finished
      → (xs : List IssueRef) → ¬ Walk edges n xs n

-- what a search never takes back
pub record IsLater (s t : Search) : Type 0 where
  pub kept : (n : IssueRef) → mark_of s n ≡ some finished → mark_of t n ≡ some finished
  pub grown : (n : IssueRef) → is_new n t ≡ true → is_new n s ≡ true
  pub quiet : t.seen ≡ [] → s.seen ≡ []

pub IsLater-refl : (s : Search) → IsLater s s
IsLater-refl s = record { kept = λ n h. h; grown = λ n h. h; quiet = λ h. h }

pub IsLater-trans : {s t u : Search} → IsLater s t → IsLater t u → IsLater s u
IsLater-trans a b = record {
  kept = λ n h. b.kept n (a.kept n h);
  grown = λ n h. a.grown n (b.grown n h);
  quiet = λ h. a.quiet (b.quiet h);
}

mark-marked :
    (k : IssueRef) (m : Mark) (s : Search) (r : IssueRef)
    → mark_of (marked k m s) r ≡ (if same k r then some m else mark_of s r)
mark-marked k m s r = get-insert r k m s.state

pub new-none : (n : IssueRef) (s : Search) → is_new n s ≡ true → mark_of s n ≡ none
new-none n s h = ground arith

module _ (node : IssueRef) (m : Mark) (s : Search) where
  pub mark-here : mark_of (marked node m s) node ≡ some m
  mark-here = mark-marked node m s node ∙ rw (same_refl node)

  pub mark-other : (r : IssueRef) → same node r ≡ false → mark_of (marked node m s) r ≡ mark_of s r
  mark-other r h = mark-marked node m s r ∙ rw h

  marked-grown : (n : IssueRef) → is_new n (marked node m s) ≡ true → is_new n s ≡ true
  marked-grown n h = ground (arith, mark-marked node m s n)

module _ (edges : Edges) (node : IssueRef) (stack : List IssueRef) (s : Search)
    (i : Inv edges stack s) (new : is_new node s ≡ true) where
  -- a new node is none of the nodes with a mark
  not_node : (n : IssueRef) (m : Mark) → mark_of s n ≡ some m → same node n ≡ false
  not_node n m h = elim (Bool-cases (same node n)) [
    | inr f ↦ f
    | inl t ↦
        let e : mark_of s node ≡ some m = rw (same_eq node n t) h in
        let f = new-none node s new in cc
  ]

  pub new-off_stack : any (same node) stack ≡ false
  new-off_stack = elim (Bool-cases (any (same node) stack)) [
    | inr f ↦ f
    | inl t ↦ let e = i.on_stack node t in let f = new-none node s new in cc
  ]

  pub enter-Inv : Inv edges (node ∷ stack) (marked node entered s)
  enter-Inv = record {
    on_stack = λ n h. elim (Bool-cases (same node n)) [
      | inl t ↦ mark-marked node entered s n ∙ rw t
      | inr f ↦ mark-other node entered s n f ∙ i.on_stack n (ground (arith, other_way node n f))
    ];
    off_stack = λ n h. elim (Bool-cases (same node n)) [
      | inl t ↦ let e = same_eq node n t in rw e (rw (same_refl n))
      | inr f ↦ let k = i.off_stack n (sym (mark-other node entered s n f) ∙ h) in ground arith
    ];
    sound = i.sound;
    closed = λ q n m h e.
        let k = old n h in
        let l = i.closed q n m k e in mark-other node entered s m (not_node m finished l) ∙ l;
    acyclic = λ q n h xs. i.acyclic q n (old n h) xs;
  }
    where
      old :
          (n : IssueRef)
          → mark_of (marked node entered s) n ≡ some finished
          → mark_of s n ≡ some finished
      old n h = elim (Bool-cases (same node n)) [
        | inl t ↦
            let e : some entered ≡ some finished = sym (mark-marked node entered s n ∙ rw t) ∙ h in
            cc
        | inr f ↦ sym (mark-other node entered s n f) ∙ h
      ]

  pub enter-IsLater : IsLater s (marked node entered s)
  enter-IsLater = record {
    kept = λ n h. mark-other node entered s n (not_node n finished h) ∙ h;
    grown = marked-grown node entered s;
    quiet = λ h. h;
  }

-- walks from a finished node meet finished nodes only
pub Walk-finished :
    (edges : Edges) (s : Search)
    → ((n m : IssueRef)
        → mark_of s n ≡ some finished
        → Edge edges n m
        → mark_of s m ≡ some finished)
    → (n : IssueRef) (xs : List IssueRef) (m : IssueRef) → mark_of s n ≡ some finished
    → Walk edges n xs m
    → mark_of s m ≡ some finished
Walk-finished edges s closed n [] m h e = closed n m h e
Walk-finished edges s closed n (x ∷ xs) m h (e, w) =
    Walk-finished edges s closed x xs m (closed n x h e) w

module _ (edges : Edges) (node : IssueRef) (stack : List IssueRef) (s : Search)
    (i : Inv edges (node ∷ stack) s) (off : any (same node) stack ≡ false)
    (all : s.seen ≡ [] → (m : IssueRef) → Edge edges node m → mark_of s m ≡ some finished) where
  finished_up :
      (n : IssueRef)
      → mark_of s n ≡ some finished
      → mark_of (marked node finished s) n ≡ some finished
  finished_up n h = elim (Bool-cases (same node n)) [
    | inl t ↦ mark-marked node finished s n ∙ rw t
    | inr f ↦ mark-other node finished s n f ∙ h
  ]

  -- a walk from the node meets finished nodes only, so not the node, which is entered
  never_back : s.seen ≡ [] → (xs : List IssueRef) → ¬ Walk edges node xs node
  never_back q xs w = clash (from xs w)
    where
      from : (xs : List IssueRef) → Walk edges node xs node → mark_of s node ≡ some finished
      from [] e = all q node e
      from (x ∷ xs) (e, w) = Walk-finished edges s (i.closed q) x xs node (all q x e) w

      clash : mark_of s node ≡ some finished → ⊥
      clash h =
          let e : mark_of s node ≡ some entered = i.on_stack node (rw (same_refl node)) in
          let c : some entered ≡ some finished = sym e ∙ h in cc

  pub leave-Inv : Inv edges stack (marked node finished s)
  leave-Inv = record {
    on_stack = λ n h. elim (Bool-cases (same node n)) [
      | inl t ↦ let k : any (same n) stack ≡ false = rw (← same_eq node n t) off in cc
      | inr f ↦ mark-other node finished s n f ∙ i.on_stack n (ground arith)
    ];
    off_stack = λ n h. elim (Bool-cases (same node n)) [
      | inl t ↦
          let c : some finished ≡ some entered = sym (mark-marked node finished s n ∙ rw t) ∙ h in
          cc
      | inr f ↦
          let k = i.off_stack n (sym (mark-other node finished s n f) ∙ h) in
          ground (arith, other_way node n f)
    ];
    sound = i.sound;
    closed = λ q n m h e. elim (Bool-cases (same node n)) [
      | inl t ↦ finished_up m (all q m (rw (← same_eq node n t) at e))
      | inr f ↦ finished_up m (i.closed q n m (sym (mark-other node finished s n f) ∙ h) e)
    ];
    acyclic = λ q n h xs w. elim (Bool-cases (same node n)) [
      | inl t ↦ never_back q xs (subst (λ x. Walk edges x xs x) (sym (same_eq node n t)) w)
      | inr f ↦ i.acyclic q n (sym (mark-other node finished s n f) ∙ h) xs w
    ];
  }

  pub leave-IsLater : IsLater s (marked node finished s)
  leave-IsLater = record {
    kept = finished_up;
    grown = marked-grown node finished s;
    quiet = λ h. h;
  }
