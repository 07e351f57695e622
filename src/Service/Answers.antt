-- ===== src/Service/Answers.antt =====
-- The answers of the services of crates/looper-service, and the reads of the store that they go by.
use looper_rust.Prelude.{Bool, ◌≡◌, refl, ap, ◌⊎◌, inl, inr, any}
use looper_rust.Storage.Schema.{LoopRecord, Db}
use looper_rust.Storage.Loops
use looper_rust.Storage.Loops.{find_loop}
use looper_rust.Service.Outcome.{Result, ok, err, ServiceError}

pub Result-cases :
    {A : Type 0} (r : Result A) → ((a : A) × (r ≡ ok a)) ⊎ ((e : ServiceError) × (r ≡ err e))
Result-cases (ok a) = inl (a, refl)
Result-cases (err e) = inr (e, refl)

pub not_both :
    {A : Type 0} (e : ServiceError) (a : A) (d d' : Db)
    → ¬ (◌≡◌ {A = Result A × Db} (err e, d) (ok a, d'))
not_both e a d d' h = let k : err e ≡ ok a = ap (λ r. r.0) h in cc

pub same_value :
    {A : Type 0} (a a' : A) (d d' : Db) → ◌≡◌ {A = Result A × Db} (ok a, d) (ok a', d') → a ≡ a'
same_value a a' d d' h = let k : ok a ≡ ok a' = ap (λ r. r.0) h in cc

pub same_store :
    {A : Type 0} (a a' : A) (d d' : Db) → ◌≡◌ {A = Result A × Db} (ok a, d) (ok a', d') → d ≡ d'
same_store a a' d d' h = ap (λ r. r.1) h

pub allocate-list :
    (p : LoopRecord → Bool) (db : Db)
    → find_loop p (Loops.list (Loops.allocate_seq db).1) ≡ find_loop p (Loops.list db)
unfolding Loops.list Loops.allocate_seq
allocate-list p db = refl

pub allocate-any :
    (p : LoopRecord → Bool) (db : Db) → any p (Loops.allocate_seq db).1.loops ≡ any p db.loops
unfolding Loops.allocate_seq
allocate-any p db = refl

pub Answer-cases :
    {A : Type 0} (r : Result A × Db)
    → ((a : A) × (d : Db) × (r ≡ (ok a, d))) ⊎ ((e : ServiceError) × (d : Db) × (r ≡ (err e, d)))
Answer-cases (ok a, d) = inl (a, d, refl)
Answer-cases (err e, d) = inr (e, d, refl)

pub list-loops :
    (p : LoopRecord → Bool) (a b : Db)
    → a.loops ≡ b.loops
    → find_loop p (Loops.list a) ≡ find_loop p (Loops.list b)
unfolding Loops.list
list-loops p a b e = rw e refl
