-- ===== src/Storage/Sql/Heads.antt =====
-- The first row of an `ORDER BY`, and the row of `LIMIT 1`.
use looper_rust.Prelude.{
  ◌≡◌, refl, sym, ◌∙◌, ap, Bool, Option, none, some, List, [], ◌∷◌, arith, if◌then◌else◌,
}
use looper_rust.Storage.Sql.{best_from, best, insert_ordered, order_by}
use looper_rust.Storage.Sql.Order.{IsWeakOrder}

module _ {ℓ} {A : Type ℓ} where
  abbrev pub head : List A → Option A
  head [] = none
  head (a ∷ xs) = some a

module _ {ℓ} {A : Type ℓ} (before : A → A → Bool) (order : IsWeakOrder before) where
  abbrev better : A → A → A
  better a b = if before b a then b else a

  better_assoc : (a b c : A) → better (better a b) c ≡ better a (better b c)
  better_assoc a b c =
      ground (arith, order.trans c b a, order.gap c b a, order.trans a b c, order.gap a b c)

  best_from-cons :
      (a b : A) (xs : List A) → best_from before a (b ∷ xs) ≡ better a (best_from before b xs)
  unfolding best_from
  best_from-cons a b [] = refl
  best_from-cons a b (c ∷ xs) =
      best_from-cons (better a b) c xs
      ∙ better_assoc a b (best_from before c xs)
      ∙ ap (better a) (sym (best_from-cons b c xs))

  head-insert :
      (a h : A) (xs : List A)
      → head xs ≡ some h
      → head (insert_ordered before a xs) ≡ some (better a h)
  unfolding insert_ordered
  head-insert a h [] e = absurd (ground arith)
  head-insert a h (b ∷ xs) e = let same : b ≡ h = ground arith in rw (← same) (ground arith)

  -- the first of the ordered rows is the best of the rows
  pub head-order_by : (xs : List A) → head (order_by before xs) ≡ best before xs
  unfolding order_by best best_from insert_ordered
  head-order_by [] = refl
  head-order_by (a ∷ []) = refl
  head-order_by (a ∷ b ∷ xs) =
      head-insert a (best_from before b xs) (order_by before (b ∷ xs)) (head-order_by (b ∷ xs))
      ∙ ap some (sym (best_from-cons a b xs))
