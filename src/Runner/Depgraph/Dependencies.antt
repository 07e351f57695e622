-- ===== src/Runner/Depgraph/Dependencies.antt =====
-- What crates/looper-runner/src/depgraph.rs keeps of the dependencies of a snapshot.
use looper_rust.Prelude.{
  any-append, String, ◌≡◌, refl, ap, ◌∙◌, Bool, true, false, ◌&&◌, ◌||◌, List, [], ◌∷◌, any,
  Bool-cases, inl, inr, arith,
}
use looper_rust.Storage.Sql.{insert_ordered, order_by}
use looper_rust.Runner.Depgraph.{
  IssueRef, same, get_entry, push_entry, insert_ref, or_default, is_positive, refs_from_set,
  normalize, add_positive, unique_sorted_refs, push_deps, normalize_blocked_by, dependencies, clean,
}
use looper_rust.Runner.Depgraph.Ready.{same_eq, other_way}

Bool-or_false : (b : Bool) → (b || false) ≡ b
Bool-or_false true = refl
Bool-or_false false = refl

module _ {ℓ} {A : Type ℓ} (p : A → Bool) (before : A → A → Bool) where
  any-insert_ordered :
      (a : A) (xs : List A) → any p (insert_ordered before a xs) ≡ (p a || any p xs)
  unfolding insert_ordered
  any-insert_ordered a [] = refl
  any-insert_ordered a (x ∷ xs) = ground (arith, any-insert_ordered a xs)

  any-order_by : (xs : List A) → any p (order_by before xs) ≡ any p xs
  unfolding order_by
  any-order_by [] = refl
  any-order_by (x ∷ xs) =
      any-insert_ordered x (order_by before xs) ∙ ap (λ b. p x || b) (any-order_by xs)

any-ext {ℓ} :
    {A : Type ℓ} (p p' : A → Bool) → ((a : A) → p a ≡ p' a) → (xs : List A) → any p xs ≡ any p' xs
any-ext p p' h [] = refl
any-ext p p' h (x ∷ xs) = rw (h x, any-ext p p' h xs)

same_through : (x r y : IssueRef) → same r y ≡ true → same x r ≡ same x y
same_through x r y h = rw (same_eq r y h)

any-insert_ref :
    (x r : IssueRef) (set : List IssueRef)
    → any (same x) (insert_ref r set) ≡ (same x r || any (same x) set)
any-insert_ref x r set = elim (Bool-cases (any (same r) set)) [
  | inl e ↦
      rw e (elim (Bool-cases (same x r)) [ inl k ↦ rw k (rw (same_eq x r k) e) | inr k ↦ rw k ])
  | inr e ↦ rw e
]

-- a reference among the dependencies of an issue, as the map has them
abbrev listed : (IssueRef → Bool) → IssueRef → List (IssueRef × List IssueRef) → Bool
listed q i rows = any q (or_default (get_entry i rows))

listed-push :
    (q : IssueRef → Bool) (i k d : IssueRef) (rows : List (IssueRef × List IssueRef))
    → listed q i (push_entry k d rows) ≡ ((same k i && q d) || listed q i rows)
unfolding get_entry push_entry
listed-push q i k d [] = ground arith
listed-push q i k d ((j, deps) ∷ rows) = elim (Bool-cases (same j k)) [
  | inl e ↦ rw e (rw (same_eq j k e) (ground (arith, any-append q deps (d ∷ []))))
  | inr e ↦ rw e (elim (Bool-cases (same j i)) [
    | inl t ↦ let f : same k i ≡ false = other_way i k (rw (same_eq j i t) at e) in rw (t, f)
    | inr t ↦ rw t (listed-push q i k d rows)
  ])
]

module _ (trim to_lowercase : String → String) where
  any-add_positive :
      (x : IssueRef) (refs set : List IssueRef)
      → any (same x) (add_positive trim to_lowercase refs set) ≡ (
          any (λ r. is_positive r && same x (normalize trim to_lowercase r)) refs
          || any (same x) set)
  unfolding add_positive normalize
  any-add_positive x [] set = refl
  any-add_positive x (r ∷ refs) set = elim (Bool-cases (is_positive r)) [
    | inl e ↦ rw e (
        any-add_positive x refs _
        ∙ rw (any-insert_ref x (normalize trim to_lowercase r) set) (ground arith))
    | inr e ↦ rw e (any-add_positive x refs set)
  ]

  -- exactly the positive references, normalized
  any-unique_sorted_refs :
      (x : IssueRef) (refs : List IssueRef)
      → any (same x) (unique_sorted_refs trim to_lowercase refs)
        ≡ any (λ r. is_positive r && same x (normalize trim to_lowercase r)) refs
  unfolding unique_sorted_refs refs_from_set
  any-unique_sorted_refs x refs =
      any-order_by (same x) _ (add_positive trim to_lowercase refs [])
      ∙ (any-add_positive x refs [] ∙ Bool-or_false _)

  -- the dependencies that an entry names, when they pass `q`
  abbrev named : (IssueRef → Bool) → List IssueRef → Bool
  named q deps = any (λ d. is_positive d && q (normalize trim to_lowercase d)) deps

  abbrev entry_names : (IssueRef → Bool) → IssueRef → IssueRef × List IssueRef → Bool
  entry_names q i e = is_positive e.0 && (same (normalize trim to_lowercase e.0) i && named q e.1)

  listed-push_deps :
      (q : IssueRef → Bool) (i k : IssueRef) (deps : List IssueRef)
      (rows : List (IssueRef × List IssueRef))
      → listed q i (push_deps trim to_lowercase k deps rows)
        ≡ ((same k i && named q deps) || listed q i rows)
  unfolding push_deps normalize
  listed-push_deps q i k [] rows = ground arith
  listed-push_deps q i k (d ∷ deps) rows = elim (Bool-cases (is_positive d)) [
    | inl e ↦ rw e (
        listed-push_deps q i k deps _
        ∙ rw (listed-push q i k (normalize trim to_lowercase d) rows) (ground arith))
    | inr e ↦ rw e (listed-push_deps q i k deps rows)
  ]

  listed-normalize_blocked_by :
      (q : IssueRef → Bool) (i : IssueRef) (input out : List (IssueRef × List IssueRef))
      → listed q i (normalize_blocked_by trim to_lowercase input out)
        ≡ (any (entry_names q i) input || listed q i out)
  unfolding normalize_blocked_by normalize
  listed-normalize_blocked_by q i [] out = refl
  listed-normalize_blocked_by q i ((issue, deps) ∷ input) out =
      elim (Bool-cases (is_positive issue)) [
        | inl e ↦ rw e (
            listed-normalize_blocked_by q i input _
            ∙ rw (listed-push_deps q i (normalize trim to_lowercase issue) deps out) (ground arith))
        | inr e ↦ rw e (listed-normalize_blocked_by q i input out)
      ]

  once :
      ((s : String)
        → clean trim to_lowercase (clean trim to_lowercase s) ≡ clean trim to_lowercase s)
      → (x d : IssueRef)
      → (is_positive d
          && (is_positive (normalize trim to_lowercase d)
              && same x (normalize trim to_lowercase (normalize trim to_lowercase d))))
        ≡ (is_positive d && same x (normalize trim to_lowercase d))
  unfolding normalize
  once twice x d = rw (twice d.repo) (ground arith)

  -- If cleaning a text twice is cleaning it once, the dependencies that an issue is given are exactly
  -- the positive references, normalized, of the entries of the snapshot that name the issue, in
  -- whatever spelling of the repository, and by a positive number.
  pub dependencies_exact :
      ((s : String)
        → clean trim to_lowercase (clean trim to_lowercase s) ≡ clean trim to_lowercase s)
      → (input : List (IssueRef × List IssueRef)) (i x : IssueRef)
      → any
          (same x)
          (dependencies trim to_lowercase (normalize_blocked_by trim to_lowercase input []) i)
        ≡ any
            (λ e.
              is_positive e.0
              && (same (normalize trim to_lowercase e.0) i
                  && any (λ d. is_positive d && same x (normalize trim to_lowercase d)) e.1))
            input
  unfolding get_entry normalize
  dependencies_exact twice input i x =
      any-unique_sorted_refs x _
      ∙ (listed-normalize_blocked_by (λ r. is_positive r && same x (normalize trim to_lowercase r))
            i input []
          ∙ (Bool-or_false _ ∙ any-ext _ _ (λ e. rw (any-ext _ _ (once twice x) e.1)) input))
