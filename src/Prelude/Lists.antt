-- ===== src/Prelude/Lists.antt =====
-- Lists measured by native numbers, with Boolean search and counting.
use Prim.Native.Nat.{ℕ, suc, ◌+◌}
use mathlib.Core.Path.{◌≡◌, refl}
use mathlib.Core.Logic.{◌⊎◌, inl, inr}
use mathlib.Core.Bool.{Bool, true, false, ◌&&◌, ◌||◌}
use mathlib.Core.Option.{Option, none, some}
use mathlib.Core.List.{List, [], ◌∷◌, ◌++◌, map, Memᴰ}
use mathlib.Core.List.Memᴰ
use native.Mathlib.Omega.{arith}
use looper_rust.Prelude.Tests.{Bool-cases, if◌then◌else◌}

module _ {ℓ} {A : Type ℓ} where
  abbrev pub length : List A → ℕ
  length [] = 0
  length (x ∷ xs) = suc (length xs)

  -- `iter().any(p)`, `EXISTS (SELECT 1 … WHERE p)`
  abbrev pub any : (A → Bool) → List A → Bool
  any p [] = false
  any p (x ∷ xs) = p x || any p xs

  abbrev pub all : (A → Bool) → List A → Bool
  all p [] = true
  all p (x ∷ xs) = p x && all p xs

  -- `COUNT(*) … WHERE p`
  abbrev pub count : (A → Bool) → List A → ℕ
  count p [] = 0
  count p (x ∷ xs) = let rest = count p xs in if p x then suc rest else rest

  abbrev pub keep : (A → Bool) → List A → List A
  keep p [] = []
  keep p (x ∷ xs) = let rest = keep p xs in if p x then x ∷ rest else rest

  abbrev pub All {κ} : (A → Type κ) → List A → Type κ
  All P [] = Unit
  All P (x ∷ xs) = P x × All P xs

module _ {ℓ} {A : Type ℓ} where
  pub length-append : (xs ys : List A) → length (xs ++ ys) ≡ length xs + length ys
  length-append [] ys = omega arith
  length-append (x ∷ xs) ys = omega (arith, length-append xs ys)

  pub Memᴰ-cons : (a x : A) (xs : List A) → Memᴰ a (x ∷ xs) → (a ≡ x) ⊎ Memᴰ a xs
  Memᴰ-cons a x xs m = Memᴰ.cases_cons m

  pub Memᴰ-nil : (a : A) → ¬ Memᴰ a []
  Memᴰ-nil a m = Memᴰ.not-nil m

  pub All-mem {κ} : (P : A → Type κ) (xs : List A) (a : A) → All P xs → Memᴰ a xs → P a
  All-mem P [] a h m = absurd (Memᴰ-nil a m)
  All-mem P (x ∷ xs) a h (Memᴰ.head e) = rw e h.0
  All-mem P (x ∷ xs) a h (Memᴰ.tail m) = All-mem P xs a h.1 m

pub and-true : (a b : Bool) → (a && b) ≡ true → (a ≡ true) × (b ≡ true)
and-true a b h = ground arith

module _ {ℓ κ} {A : Type ℓ} {B : Type κ} where
  pub any-map-false :
      (p : A → Bool) (p' : B → Bool) (f : A → B)
      → ((a : A) → p' (f a) ≡ true → p a ≡ true)
      → (xs : List A) → any p xs ≡ false
      → any p' (map f xs) ≡ false
  any-map-false p p' f back [] h = refl
  any-map-false p p' f back (x ∷ xs) h = ground (arith, back x, any-map-false p p' f back xs)

  pub all-map-true :
      (p : A → Bool) (p' : B → Bool) (f : A → B)
      → ((a : A) → p a ≡ true → p' (f a) ≡ true)
      → (xs : List A) → all p xs ≡ true
      → all p' (map f xs) ≡ true
  all-map-true p p' f forth [] h = refl
  all-map-true p p' f forth (x ∷ xs) h = ground (arith, forth x, all-map-true p p' f forth xs)

module _ {ℓ} {A : Type ℓ} where
  -- a test that fails nowhere in the list
  pub any-false : (p : A → Bool) (xs : List A) (a : A) → any p xs ≡ false → Memᴰ a xs → p a ≡ false
  any-false p [] a h m = absurd (Memᴰ-nil a m)
  any-false p (x ∷ xs) a h (Memᴰ.head e) = rw e (ground arith)
  any-false p (x ∷ xs) a h (Memᴰ.tail m) = any-false p xs a (ground arith) m

  pub any-true : (p : A → Bool) (xs : List A) (a : A) → Memᴰ a xs → p a ≡ true → any p xs ≡ true
  any-true p [] a m h = absurd (Memᴰ-nil a m)
  any-true p (x ∷ xs) a (Memᴰ.head e) h = let k : p x ≡ true = rw (← e) h in ground arith
  any-true p (x ∷ xs) a (Memᴰ.tail m) h = ground (arith, any-true p xs a m)

  pub all-true : (p : A → Bool) (xs : List A) (a : A) → all p xs ≡ true → Memᴰ a xs → p a ≡ true
  all-true p [] a h m = absurd (Memᴰ-nil a m)
  all-true p (x ∷ xs) a h (Memᴰ.head e) = rw e (ground arith)
  all-true p (x ∷ xs) a h (Memᴰ.tail m) = all-true p xs a (ground arith) m

  pub mem-keep :
      (p : A → Bool) (xs : List A) (a : A) → Memᴰ a (keep p xs) → Memᴰ a xs × (p a ≡ true)
  mem-keep p [] a m = absurd (Memᴰ-nil a m)
  mem-keep p (x ∷ xs) a m = elim (Bool-cases (p x)) [
    | inl k ↦ first (mem-keep p xs a) k (Memᴰ-cons a x (keep p xs) (rw k at m))
    | inr k ↦ later (mem-keep p xs a (rw k at m))
  ]
    where
      later : Memᴰ a xs × (p a ≡ true) → Memᴰ a (x ∷ xs) × (p a ≡ true)
      later (m', h) = (Memᴰ.tail m', h)

      first :
          (Memᴰ a (keep p xs) → Memᴰ a xs × (p a ≡ true))
          → p x ≡ true
          → (a ≡ x) ⊎ Memᴰ a (keep p xs)
          → Memᴰ a (x ∷ xs) × (p a ≡ true)
      first ih k (inl e) = (Memᴰ.head e, rw e k)
      first ih k (inr m') = later (ih m')

  pub keep-mem : (p : A → Bool) (xs : List A) (a : A) → Memᴰ a xs → p a ≡ true → Memᴰ a (keep p xs)
  keep-mem p [] a m h = absurd (Memᴰ-nil a m)
  keep-mem p (x ∷ xs) a (Memᴰ.head e) h = let k : p x ≡ true = rw (← e) h in rw k (Memᴰ.head e)
  keep-mem p (x ∷ xs) a (Memᴰ.tail m) h = elim (Bool-cases (p x)) [
    | inl k ↦ rw k (Memᴰ.tail (keep-mem p xs a m h))
    | inr k ↦ rw k (keep-mem p xs a m h)
  ]

  pub any-false_imp :
      (p p' : A → Bool) (xs : List A)
      → ((a : A) → p' a ≡ true → p a ≡ true)
      → any p xs ≡ false
      → any p' xs ≡ false
  any-false_imp p p' [] imp h = refl
  any-false_imp p p' (x ∷ xs) imp h = ground (arith, imp x, any-false_imp p p' xs imp)

  pub keep-none :
      (p p' : A → Bool) (xs : List A)
      → ((a : A) → p' a ≡ true → p a ≡ true)
      → any p xs ≡ false
      → keep p' xs ≡ []
  keep-none p p' [] imp h = refl
  keep-none p p' (x ∷ xs) imp h = ground (arith, imp x, keep-none p p' xs imp)

  -- rewriting some elements, each of which comes to pass a test, adds their number to the count
  pub count-map_add :
      (p t : A → Bool) (f : A → A)
      → ((a : A) → t a ≡ true → (p a ≡ false) × (p (f a) ≡ true))
      → (xs : List A)
      → count p (map (λ a. if t a then f a else a) xs) ≡ count p xs + length (keep t xs)
  count-map_add p t f turn [] = omega arith
  count-map_add p t f turn (x ∷ xs) = ground (arith, turn x, count-map_add p t f turn xs)

module _ {ℓ κ} {A : Type ℓ} {B : Type κ} where
  abbrev pub filter_map : (A → Option B) → List A → List B
  filter_map f [] = []
  filter_map f (x ∷ xs) =
      let rest = filter_map f xs in elim (f x) [ none ↦ rest | some y ↦ y ∷ rest ]

  pub filter_map-none :
      (f : A → Option B) (x : A) (xs : List A)
      → f x ≡ none
      → filter_map f (x ∷ xs) ≡ filter_map f xs
  filter_map-none f x xs e = rw (e, filter_map)

  pub filter_map-some :
      (f : A → Option B) (x : A) (y : B) (xs : List A)
      → f x ≡ some y
      → filter_map f (x ∷ xs) ≡ y ∷ filter_map f xs
  filter_map-some f x y xs e = rw (e, filter_map)

pub any-tail {ℓ} :
    {A : Type ℓ} (p : A → Bool) (x : A) (xs : List A) → any p xs ≡ true → any p (x ∷ xs) ≡ true
any-tail p x xs h = ground arith

module _ {ℓ} {A : Type ℓ} where
  pub all_imp :
      (p p' : A → Bool) (xs : List A)
      → ((a : A) → p a ≡ true → p' a ≡ true)
      → all p xs ≡ true
      → all p' xs ≡ true
  all_imp p p' [] f h = refl
  all_imp p p' (x ∷ xs) f h = ground (arith, f x, all_imp p p' xs f)

  pub any-append : (p : A → Bool) (xs ys : List A) → any p (xs ++ ys) ≡ (any p xs || any p ys)
  any-append p [] ys = refl
  any-append p (x ∷ xs) ys = ground (arith, any-append p xs ys)

  pub all-append :
      (p : A → Bool) (xs : List A) (y : A)
      → all p xs ≡ true
      → p y ≡ true
      → all p (xs ++ y ∷ []) ≡ true
  all-append p [] y h k = ground arith
  all-append p (x ∷ xs) y h k = ground (arith, all-append p xs y)

  pub any-keep : (p k : A → Bool) (xs : List A) → any p xs ≡ false → any p (keep k xs) ≡ false
  any-keep p k [] h = refl
  any-keep p k (x ∷ xs) h = ground (arith, any-keep p k xs)

  pub all-keep : (p k : A → Bool) (xs : List A) → all p xs ≡ true → all p (keep k xs) ≡ true
  all-keep p k [] h = refl
  all-keep p k (x ∷ xs) h = ground (arith, all-keep p k xs)

  -- no kept element passes a test that none of them may
  pub keep-none_any :
      (p k : A → Bool)
      → ((x : A) → k x ≡ true → p x ≡ false)
      → (xs : List A) → any p (keep k xs) ≡ false
  keep-none_any p k h [] = refl
  keep-none_any p k h (x ∷ xs) = ground (arith, h x, keep-none_any p k h xs)
