-- ===== src/Prelude/Texts.antt =====
-- Two tests on one text.
use Prim.Native.String.{String, compare, ◌++◌, len, slice}
use Prim.Native.Nat.{Ordering}
use mathlib.Core.Path.{◌≡◌}
use mathlib.Core.Bool.{Bool, true, false}
use mathlib.Core.Path.{ap, sym, ◌∙◌}
use mathlib.Core.Logic.{inl, inr}
use native.Mathlib.Omega.{arith}
use mathlib.Core.Option.{Option, none, some}
use text.Mathlib.Text.{◌==◌, starts_with, find?}
use looper_rust.Prelude.Tests.{Bool-cases, if◌then◌else◌}
use text.Mathlib.TextEquality.{eq_iff, starts_with_iff}
use text.Mathlib.TextPositions.{slice-append_right, len-append, starts_with-append}

-- a text that is `a` is no other text
pub eq_other : (s a b : String) → (s == a) ≡ true → (a == b) ≡ false → (s == b) ≡ false
eq_other s a b h k = rw ((eq_iff s a).0 h) k

abbrev pub is_lt : Ordering → Bool
is_lt Ordering.lt = true
is_lt Ordering.eq = false
is_lt Ordering.gt = false

-- `<` on texts. The order of code points is the order of their UTF-8 bytes.
abbrev pub is_less : String → String → Bool
is_less a b = is_lt (compare a b)

abbrev pub concat : String → String → String
concat a b = a ++ b

-- `str::contains`
abbrev pub contains : String → String → Bool
contains s t = elim (find? s t) [ none ↦ false | some i ↦ true ]

-- `str::strip_prefix`
unfoldable pub strip_prefix : String → String → Option String
strip_prefix s p = if starts_with s p then some (slice s (len p) (len s)) else none

pub strip_prefix-concat : (p t : String) → strip_prefix (concat p t) p ≡ some t
unfolding strip_prefix
strip_prefix-concat p t =
    rw (starts_with-append p t, len-append p t) (ap some (slice-append_right p t))

pub strip_prefix-none : (s p : String) → starts_with s p ≡ false → strip_prefix s p ≡ none
unfolding strip_prefix
strip_prefix-none s p h = rw h

pub strip_prefix-some : (s p t : String) → strip_prefix s p ≡ some t → concat p t ≡ s
unfolding strip_prefix
strip_prefix-some s p t h = elim (Bool-cases (starts_with s p)) [
  | inl e ↦ found ((starts_with_iff s p).0 e)
  | inr e ↦ absurd (ground arith)
]
  where
    found : (u : String) × (concat p u ≡ s) → concat p t ≡ s
    found (u, e) =
        let k : some u ≡ some t =
          sym (strip_prefix-concat p u) ∙ (ap (λ x. strip_prefix x p) e ∙ h) in
        let f : u ≡ t = cc in rw (← f) e
