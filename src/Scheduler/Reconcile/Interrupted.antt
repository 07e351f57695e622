-- ===== src/Scheduler/Reconcile/Interrupted.antt =====
-- The table of the runs after the interruptions of crates/looper-scheduler/src/recovery.rs.
use looper_rust.Prelude.{
  ◌==◌, eq_iff, Bool, true, false, not, ◌&&◌, ◌≡◌, refl, sym, ◌∙◌, ap, some, List, [], ◌∷◌, ◌++◌,
  any, any-keep, keep, map, arith, append_assoc,
}
use looper_rust.Storage.Schema.{Timestamp}
use looper_rust.Storage.Sql.{order_by, insert_ordered}
use looper_rust.Storage.Sql.Listed.{any-insert, any-order_by}
use looper_rust.Storage.Runs.{RunRecord}

-- the run as the reconciliation writes it
abbrev pub ended_run : Timestamp → RunRecord → RunRecord
ended_run t run = record run { status = "interrupted"; ended_at = some t }

abbrev pub is_listed : List RunRecord → RunRecord → Bool
is_listed rs x = any (λ (r : RunRecord). x.id == r.id) rs

-- no two runs have one id
abbrev pub run_ids_ok : List RunRecord → Bool
run_ids_ok [] = true
run_ids_ok (r ∷ rs) = not (any (λ (x : RunRecord). x.id == r.id) rs) && run_ids_ok rs

pub run_ids_ok-keep :
    (p : RunRecord → Bool) (rs : List RunRecord)
    → run_ids_ok rs ≡ true
    → run_ids_ok (keep p rs) ≡ true
run_ids_ok-keep p [] h = refl
run_ids_ok-keep p (r ∷ rs) h =
    ground (arith, run_ids_ok-keep p rs, any-keep (λ (x : RunRecord). x.id == r.id) p rs)

module _ (before : RunRecord → RunRecord → Bool) where
  run_ids_ok-insert :
      (r : RunRecord) (rs : List RunRecord)
      → any (λ (x : RunRecord). x.id == r.id) rs ≡ false
      → run_ids_ok rs ≡ true
      → run_ids_ok (insert_ordered before r rs) ≡ true
  unfolding insert_ordered
  run_ids_ok-insert r [] n h = refl
  run_ids_ok-insert r (y ∷ rs) n h = ground (
    arith,
    run_ids_ok-insert r rs,
    any-insert before (λ (x : RunRecord). x.id == y.id) r rs,
    eq_iff r.id y.id,
    eq_iff y.id r.id,
  )

  pub run_ids_ok-order_by :
      (rs : List RunRecord) → run_ids_ok rs ≡ true → run_ids_ok (order_by before rs) ≡ true
  unfolding order_by
  run_ids_ok-order_by [] h = refl
  run_ids_ok-order_by (r ∷ rs) h =
      run_ids_ok-insert r (order_by before rs)
        (any-order_by before (λ (x : RunRecord). x.id == r.id) rs ∙ ground arith)
        (run_ids_ok-order_by rs (ground arith))

-- each run in turn is taken out and put at the end
abbrev pub rewritten : Timestamp → List RunRecord → List RunRecord → List RunRecord
rewritten t [] rows = rows
rewritten t (r ∷ rs) rows =
    rewritten t rs (keep (λ x. not (x.id == r.id)) rows ++ ended_run t r ∷ [])

keep-append {ℓ} :
    {A : Type ℓ} (p : A → Bool) (xs ys : List A) → keep p (xs ++ ys) ≡ keep p xs ++ keep p ys
keep-append p [] ys = refl
keep-append p (x ∷ xs) ys = ground (arith, keep-append p xs ys)

keep-twice :
    (r : RunRecord) (rs rows : List RunRecord)
    → keep (λ x. not (is_listed rs x)) (keep (λ x. not (x.id == r.id)) rows)
      ≡ keep (λ x. not (is_listed (r ∷ rs) x)) rows
keep-twice r rs [] = refl
keep-twice r rs (x ∷ rows) = ground (arith, keep-twice r rs rows)

keep-others : (rows : List RunRecord) → keep (λ x. not (is_listed [] x)) rows ≡ rows
keep-others [] = refl
keep-others (x ∷ rows) = ap (λ ys. x ∷ ys) (keep-others rows)

append-nil_map : (t : Timestamp) (rows : List RunRecord) → rows ≡ rows ++ map (ended_run t) []
append-nil_map t [] = refl
append-nil_map t (x ∷ rows) = ap (λ ys. x ∷ ys) (append-nil_map t rows)

unlisted :
    (r : RunRecord) (rs : List RunRecord)
    → any (λ (x : RunRecord). x.id == r.id) rs ≡ false
    → is_listed rs r ≡ false
unlisted r [] h = refl
unlisted r (x ∷ rs) h = ground (arith, unlisted r rs, eq_iff r.id x.id, eq_iff x.id r.id)

-- the rows of other ids as they were, then the interrupted runs
pub rewritten-exact :
    (t : Timestamp) (rs rows : List RunRecord)
    → run_ids_ok rs ≡ true
    → rewritten t rs rows ≡ keep (λ x. not (is_listed rs x)) rows ++ map (ended_run t) rs
rewritten-exact t [] rows h = sym (keep-others rows) ∙ append-nil_map t _
rewritten-exact t (r ∷ rs) rows h =
    let n : is_listed rs r ≡ false = unlisted r rs (ground arith) in
    rewritten-exact t rs _ (ground arith)
    ∙ rw
        (
          keep-append (λ x. not (is_listed rs x)) (keep (λ x. not (x.id == r.id)) rows)
              (ended_run t r ∷ []),
          n,
          keep-twice r rs rows,
        )
        (append_assoc _ (ended_run t r ∷ []) (map (ended_run t) rs))
