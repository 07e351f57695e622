-- ===== src/Storage/Sql.antt =====
-- The statement forms that the repository methods are built from.
pub mod Order
pub mod Listed
pub mod Heads
use looper_rust.Prelude.{
  ℕ, zero, suc, String, ◌==◌, Bool, false, Option, none, some, List, [], ◌∷◌, map, all, keep,
  if◌then◌else◌,
}
use looper_rust.Storage.Schema.{
  QueueItemRecord, Db, Result, ok, err, constraint_violation, unique_violation, row_ok, index_ok,
}

-- `column = ?` where the column may be NULL: not true on NULL
abbrev pub sql_eq : Option String → String → Bool
sql_eq none s = false
sql_eq (some t) s = t == s

-- `a.column = b.column`, both nullable
abbrev pub sql_eq_columns : Option String → Option String → Bool
sql_eq_columns a none = false
sql_eq_columns a (some s) = sql_eq a s

-- `ORDER BY … LIMIT 1`: a row that no other row comes before. Among rows that tie, SQL leaves the
-- choice open, and this takes the first.
unfoldable pub best_from {ℓ} : {A : Type ℓ} → (A → A → Bool) → A → List A → A
best_from before a [] = a
best_from before a (b ∷ bs) = best_from before (if before b a then b else a) bs

unfoldable pub best {ℓ} : {A : Type ℓ} → (A → A → Bool) → List A → Option A
best before [] = none
best before (a ∷ as') = some (best_from before a as')

-- `UPDATE … SET f WHERE p RETURNING *`. The rows are in order before the statement, so to test all
-- of them is to test those that it writes. An error leaves the database as it was.
unfoldable pub update_where :
    (QueueItemRecord → Bool)
    → (QueueItemRecord → QueueItemRecord)
    → Db
    → Result (List QueueItemRecord × Db)
update_where p f db =
    let rows = map (λ q. if p q then f q else q) db.queue_items in
    if all (row_ok db) rows
    then (if index_ok rows
        then ok (map f (keep p db.queue_items), record db { queue_items = rows })
        else err unique_violation)
    else err constraint_violation

-- `ORDER BY …`
unfoldable pub insert_ordered {ℓ} : {A : Type ℓ} → (A → A → Bool) → A → List A → List A
insert_ordered before a [] = a ∷ []
insert_ordered before a (b ∷ bs) = if before b a then b ∷ insert_ordered before a bs else a ∷ b ∷ bs

unfoldable pub order_by {ℓ} : {A : Type ℓ} → (A → A → Bool) → List A → List A
unfolding insert_ordered
order_by before [] = []
order_by before (a ∷ bs) = insert_ordered before a (order_by before bs)

-- `LIMIT n`
unfoldable pub limit {ℓ} : {A : Type ℓ} → ℕ → List A → List A
limit zero rows = []
limit (suc n) [] = []
limit (suc n) (a ∷ rows) = a ∷ limit n rows
