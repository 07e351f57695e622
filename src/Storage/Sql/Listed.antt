-- ===== src/Storage/Sql/Listed.antt =====
-- The rows that an `ORDER BY` lists, and their number.
use looper_rust.Prelude.{suc, Bool, ◌≡◌, refl, List, [], ◌∷◌, any, all, length, arith}
use looper_rust.Storage.Sql.{insert_ordered, order_by}

module _ {ℓ} {A : Type ℓ} (before : A → A → Bool) (p : A → Bool) where
  pub any-insert : (a : A) (xs : List A) → any p (insert_ordered before a xs) ≡ any p (a ∷ xs)
  unfolding insert_ordered
  any-insert a [] = refl
  any-insert a (x ∷ xs) = ground (arith, any-insert a xs)

  pub any-order_by : (xs : List A) → any p (order_by before xs) ≡ any p xs
  unfolding order_by
  any-order_by [] = refl
  any-order_by (x ∷ xs) = ground (arith, any-insert x (order_by before xs), any-order_by xs)

  all-insert : (a : A) (xs : List A) → all p (insert_ordered before a xs) ≡ all p (a ∷ xs)
  unfolding insert_ordered
  all-insert a [] = refl
  all-insert a (x ∷ xs) = ground (arith, all-insert a xs)

  pub all-order_by : (xs : List A) → all p (order_by before xs) ≡ all p xs
  unfolding order_by
  all-order_by [] = refl
  all-order_by (x ∷ xs) = ground (arith, all-insert x (order_by before xs), all-order_by xs)

module _ {ℓ} {A : Type ℓ} (before : A → A → Bool) where
  length-insert : (a : A) (xs : List A) → length (insert_ordered before a xs) ≡ suc (length xs)
  unfolding insert_ordered
  length-insert a [] = refl
  length-insert a (x ∷ xs) = ground (arith, length-insert a xs)

  pub length-order_by : (xs : List A) → length (order_by before xs) ≡ length xs
  unfolding order_by
  length-order_by [] = refl
  length-order_by (x ∷ xs) =
      ground (arith, length-insert x (order_by before xs), length-order_by xs)
