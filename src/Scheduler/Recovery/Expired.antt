-- ===== src/Scheduler/Recovery/Expired.antt =====
-- `phase_expired_lock_release` of crates/looper-scheduler/src/recovery.rs on the table of locks.
use looper_rust.Prelude.{
  ◌==◌, eq_iff, eq_refl, Bool, true, not, ◌≡◌, refl, sym, ap, ◌∙◌, List, [], ◌∷◌, any, any-false,
  any-keep, any-false_imp, Memᴰ, Memᴰ-nil, subst, ◌||◌, keep, length, count, leb, arith,
}
use looper_rust.Storage.Schema.{Timestamp, LockRecord, Db}
use looper_rust.Storage.Sql.Listed.{any-order_by, length-order_by}
use looper_rust.Storage.Locks.{release, list_expired, by_expiry}
use looper_rust.Storage.Locks.Leases.{keys_ok}
use looper_rust.Scheduler.Recovery.{release_all, phase_expired_lock_release}

abbrev pub is_expired : Timestamp → LockRecord → Bool
is_expired now l = leb l.expires_at now

abbrev has_key : List LockRecord → LockRecord → Bool
has_key locks l = any (λ (x : LockRecord). l.key == x.key) locks

module _ {ℓ} {A : Type ℓ} where
  keep-keep :
      (p q : A → Bool) (xs : List A)
      → keep p (keep q xs) ≡ keep (λ x. not (not (q x) || not (p x))) xs
  keep-keep p q [] = refl
  keep-keep p q (x ∷ xs) = ground (arith, keep-keep p q xs)

  keep_on :
      (p q : A → Bool) (xs : List A) → ((a : A) → Memᴰ a xs → p a ≡ q a) → keep p xs ≡ keep q xs
  keep_on p q [] h = refl
  keep_on p q (x ∷ xs) h = rw (h x (Memᴰ.head refl), keep_on p q xs (λ a m. h a (Memᴰ.tail m))) refl

  keep_everything : (xs : List A) → keep (λ x. true) xs ≡ xs
  keep_everything [] = refl
  keep_everything (x ∷ xs) = ap (λ ys. x ∷ ys) (keep_everything xs)

  length-keep : (p : A → Bool) (xs : List A) → length (keep p xs) ≡ count p xs
  length-keep p [] = refl
  length-keep p (x ∷ xs) = ground (arith, length-keep p xs)

-- the rows that are left, whatever the order of the deletions
left :
    (locks : List LockRecord) (db : Db)
    → (release_all locks db).locks ≡ keep (λ l. not (has_key locks l)) db.locks
unfolding release_all release
left [] db = sym (keep_everything db.locks)
left (l ∷ locks) db =
    left locks (release l.key db)
    ∙ keep-keep (λ x. not (has_key locks x)) (λ x. not (x.key == l.key)) db.locks
    ∙ keep_on _ (λ x. not (has_key (l ∷ locks) x)) db.locks (λ a m. ground arith)

-- with the primary key, the expired rows are those whose key an expired row has
has_key-expired :
    (now : Timestamp) (rows : List LockRecord) (a : LockRecord)
    → keys_ok rows ≡ true
    → Memᴰ a rows
    → has_key (keep (is_expired now) rows) a ≡ is_expired now a
unfolding keys_ok
has_key-expired now [] a h m = absurd (Memᴰ-nil a m)
has_key-expired now (r ∷ rows) a h (Memᴰ.head e) =
    subst (λ x. has_key (keep (is_expired now) (r ∷ rows)) x ≡ is_expired now x) (sym e)
      (ground (
        arith,
        eq_refl r.key,
        any-keep (λ x. r.key == x.key) (is_expired now) rows,
        any-false_imp (λ (x : LockRecord). x.key == r.key) (λ x. r.key == x.key) rows
            (λ x. ground (arith, eq_iff x.key r.key, eq_iff r.key x.key)),
      ))
has_key-expired now (r ∷ rows) a h (Memᴰ.tail m) =
    ground
      (arith, has_key-expired now rows a, any-false (λ (x : LockRecord). x.key == r.key) rows a)

-- On a table that has its primary key, the phase deletes exactly the locks whose time has come,
-- and returns how many they were.
pub phase_expired_lock_release-exact :
    (now : Timestamp) (db : Db)
    → keys_ok db.locks ≡ true
    → ((phase_expired_lock_release now db).0 ≡ count (is_expired now) db.locks)
      × ((phase_expired_lock_release now db).1.locks ≡ keep (λ l. not (is_expired now l)) db.locks)
unfolding phase_expired_lock_release list_expired
phase_expired_lock_release-exact now db h = (
  length-order_by by_expiry (keep (is_expired now) db.locks)
      ∙ length-keep (is_expired now) db.locks,
  left (list_expired now db) db
      ∙ keep_on _ (λ l. not (is_expired now l)) db.locks
          (λ a m. ap not (
            any-order_by by_expiry (λ x. a.key == x.key) (keep (is_expired now) db.locks)
            ∙ has_key-expired now db.locks a h m)),
)
