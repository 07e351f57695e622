-- ===== src/Storage/Sql/Order.antt =====
-- The row of `ORDER BY … LIMIT 1`.
use looper_rust.Prelude.{
  ◌≡◌, refl, Bool, true, false, none, some, List, [], ◌∷◌, Memᴰ, All, arith, Bool-cases, inl, inr,
  subst, sym,
}
use looper_rust.Storage.Sql.{best_from, best}

-- the laws of a strict order with ties
pub record IsWeakOrder {ℓ} {A : Type ℓ} (before : A → A → Bool) : Type ℓ where
  pub irrefl : (a : A) → before a a ≡ false
  pub trans : (a b c : A) → before a b ≡ true → before b c ≡ true → before a c ≡ true
  pub gap : (a b c : A) → before a b ≡ false → before b c ≡ false → before a c ≡ false

abbrev pub IsFirst {ℓ} : {A : Type ℓ} → (A → A → Bool) → A → List A → Type ℓ
IsFirst before b rows = Memᴰ b rows × All (λ r. before r b ≡ false) rows

module _ {ℓ} {A : Type ℓ} (before : A → A → Bool) (order : IsWeakOrder before) where
  -- if `a` beats `b`, then `c` that beats `a` beats `b`
  before-trans_false : (a b c : A) → before b a ≡ true → before b c ≡ false → before a c ≡ false
  before-trans_false a b c h k = elim (Bool-cases (before a c)) [
    | inl e ↦ ground (arith, order.trans b a c h e)
    | inr e ↦ e
  ]

  best_from-win :
      (a b : A) (rows : List A)
      → before b a ≡ true
      → best_from before a (b ∷ rows) ≡ best_from before b rows
  unfolding best_from
  best_from-win a b rows e = rw e

  best_from-stay :
      (a b : A) (rows : List A)
      → before b a ≡ false
      → best_from before a (b ∷ rows) ≡ best_from before a rows
  unfolding best_from
  best_from-stay a b rows e = rw e

  skip : (x a b : A) (rows : List A) → Memᴰ x (a ∷ rows) → Memᴰ x (a ∷ b ∷ rows)
  skip x a b rows (Memᴰ.head p) = Memᴰ.head p
  skip x a b rows (Memᴰ.tail m) = Memᴰ.tail (Memᴰ.tail m)

  best_from-IsFirst : (a : A) (rows : List A) → IsFirst before (best_from before a rows) (a ∷ rows)
  best_from-IsFirst a [] = unfold best_from in (Memᴰ.head refl, (order.irrefl a, tt))
  best_from-IsFirst a (b ∷ rows) = elim (Bool-cases (before b a)) [
    | inl e ↦
        subst (λ x. IsFirst before x (a ∷ b ∷ rows)) (sym (best_from-win a b rows e))
          (let (m, (f, rest)) = best_from-IsFirst b rows in
            (Memᴰ.tail m, (before-trans_false a b _ e f, (f, rest))))
    | inr e ↦
        subst (λ x. IsFirst before x (a ∷ b ∷ rows)) (sym (best_from-stay a b rows e))
          (let (m, (f, rest)) = best_from-IsFirst a rows in
            (skip _ a b rows m, (f, (order.gap b a _ e f, rest))))
  ]

  -- the chosen row is one of the rows, and none comes before it
  pub best-IsFirst : (rows : List A) (b : A) → best before rows ≡ some b → IsFirst before b rows
  unfolding best
  best-IsFirst [] b h = absurd (ground arith)
  best-IsFirst (a ∷ rows) b h =
      let e : best_from before a rows ≡ b = cc in
      subst (λ x. IsFirst before x (a ∷ rows)) e (best_from-IsFirst a rows)

pub best-none {ℓ} :
    {A : Type ℓ} (before : A → A → Bool) (rows : List A) → best before rows ≡ none → rows ≡ []
unfolding best
best-none before [] h = refl
best-none before (a ∷ rows) h = absurd (ground arith)
