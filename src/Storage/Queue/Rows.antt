-- ===== src/Storage/Queue/Rows.antt =====
-- Counting and finding rows of `queue_items` under the primary key.
use looper_rust.Prelude.{
  ◌+◌, ◌==◌, eq_iff, eq_refl, ◌≡◌, refl, sym, ap, subst, Bool, true, false, not, some, List, [],
  ◌∷◌, ◌++◌, any, any-false, count, keep, Memᴰ, Memᴰ-nil, arith, Bool-cases, inl, inr,
  if◌then◌else◌,
}
use looper_rust.Storage.Schema.{QueueItemRecord, ids_ok}
use looper_rust.Storage.Queue.{find_by}

pub find_by-some :
    (p : QueueItemRecord → Bool) (rows : List QueueItemRecord) (q : QueueItemRecord)
    → find_by p rows ≡ some q
    → Memᴰ q rows × (p q ≡ true)
unfolding find_by
find_by-some p [] q h = absurd (ground arith)
find_by-some p (x ∷ rows) q h = elim (Bool-cases (p x)) [
  | inl e ↦ let k : x ≡ q = ground arith in (Memᴰ.head (sym k), rw (← k) e)
  | inr e ↦ let (m, k) = find_by-some p rows q (rw e at h) in (Memᴰ.tail m, k)
]

pub keep-all :
    (t k : QueueItemRecord → Bool) (rows : List QueueItemRecord)
    → ((r : QueueItemRecord) → k r ≡ false → t r ≡ true)
    → any t rows ≡ false
    → keep k rows ≡ rows
keep-all t k [] h n = refl
keep-all t k (x ∷ rows) h n = elim (Bool-cases (k x)) [
  | inl e ↦ rw e (ap (λ r. x ∷ r) (keep-all t k rows h (ground arith)))
  | inr e ↦ absurd (ground (arith, h x e))
]

pub count-append :
    (p : QueueItemRecord → Bool) (xs : List QueueItemRecord) (y : QueueItemRecord)
    → count p (xs ++ y ∷ []) ≡ count p xs + (if p y then 1 else 0)
count-append p [] y = ground arith
count-append p (x ∷ xs) y = ground (arith, count-append p xs y)

-- taking the row of an id away takes at most one from a count
pub count-without :
    (p : QueueItemRecord → Bool) (c : QueueItemRecord) (rows : List QueueItemRecord)
    → ids_ok rows ≡ true
    → Memᴰ c rows
    → count p rows ≡ count p (keep (λ r. not (r.id == c.id)) rows) + (if p c then 1 else 0)
unfolding ids_ok
count-without p c [] u m = absurd (Memᴰ-nil c m)
count-without p c (q ∷ rows) u (Memᴰ.head e) =
    let others : any (λ (r : QueueItemRecord). r.id == q.id) rows ≡ false = ground arith in
    let none_left : any (λ (r : QueueItemRecord). r.id == c.id) rows ≡ false =
      subst (λ (x : QueueItemRecord). any (λ (r : QueueItemRecord). r.id == x.id) rows ≡ false)
        (sym e) others in
    let rest : keep (λ r. not (r.id == c.id)) rows ≡ rows =
      keep-all (λ (r : QueueItemRecord). r.id == c.id) (λ r. not (r.id == c.id)) rows
        (λ r k. ground arith) none_left in
    rw (← e) (rw (eq_refl c.id) (rw rest (ground arith)))
count-without p c (q ∷ rows) u (Memᴰ.tail m) =
    let others : any (λ (r : QueueItemRecord). r.id == q.id) rows ≡ false = ground arith in
    let other : (c.id == q.id) ≡ false = any-false (λ r. r.id == q.id) rows c others m in
    let apart : (q.id == c.id) ≡ false = ground (arith, eq_iff c.id q.id, eq_iff q.id c.id) in
    rw apart (ground (arith, count-without p c rows (ground arith) m))

pub keep-ext :
    (p p' : QueueItemRecord → Bool)
    → ((r : QueueItemRecord) → p r ≡ p' r)
    → (rows : List QueueItemRecord) → keep p rows ≡ keep p' rows
keep-ext p p' h [] = refl
keep-ext p p' h (x ∷ rows) = rw (h x, keep-ext p p' h rows)

pub find_by-last :
    (p : QueueItemRecord → Bool) (rows : List QueueItemRecord) (q : QueueItemRecord)
    → any p rows ≡ false
    → p q ≡ true
    → find_by p (rows ++ q ∷ []) ≡ some q
unfolding find_by
find_by-last p [] q h k = rw k
find_by-last p (x ∷ rows) q h k = ground (arith, find_by-last p rows q)
