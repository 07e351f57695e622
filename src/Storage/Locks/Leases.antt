-- ===== src/Storage/Locks/Leases.antt =====
-- The lease table of crates/looper-storage/src/repos/locks.rs as a map from keys to leases.
use looper_rust.Prelude.{
  String, ◌==◌, eq_iff, eq_refl, ◌≡◌, refl, ap, ◌∙◌, inl, inr, Bool-cases, Option-cases, and-true,
  any-false_imp, Bool, true, false, not, ◌&&◌, ◌||◌, Option, none, some, List, [], ◌∷◌, ◌++◌, any,
  map, leb, arith, if◌then◌else◌,
}
use looper_rust.Storage.Schema.{LockRecord, Db}
use looper_rust.Storage.Locks.{find_lock, get, taken_over, gives_way, acquire}

-- the primary key
unfoldable pub keys_ok : List LockRecord → Bool
keys_ok [] = true
keys_ok (l ∷ rows) = not (any (λ r. r.key == l.key) rows) && keys_ok rows

-- what `acquire` makes of the lease of its key, and whether it says that the lock was taken
abbrev pub acquired : LockRecord → Option LockRecord → Bool × LockRecord
acquired new none = (true, new)
acquired new (some l) =
    if leb l.expires_at new.expires_at then (true, taken_over new l) else (false, l)

-- the lease of a key after an acquisition
abbrev pub lease_after : LockRecord → Db → String → Option LockRecord
lease_after new db k = if k == new.key then some (acquired new (get db k)).1 else get db k

find-map :
    (new : LockRecord) (k : String) (rows : List LockRecord)
    → find_lock k (map (λ l. if gives_way new l then taken_over new l else l) rows)
      ≡ (elim (find_lock k rows) [
        | none ↦ none
        | some l ↦ some (if gives_way new l then taken_over new l else l)
      ])
unfolding find_lock
find-map new k [] = refl
find-map new k (l ∷ rows) = ground (arith, find-map new k rows)

find-key :
    (k : String) (rows : List LockRecord) (l : LockRecord)
    → find_lock k rows ≡ some l
    → (l.key == k) ≡ true
unfolding find_lock
find-key k [] l h = absurd (ground arith)
find-key k (r ∷ rows) l h = ground (arith, find-key k rows l)

find-append :
    (new : LockRecord) (k : String) (rows : List LockRecord)
    → any (λ (l : LockRecord). l.key == new.key) rows ≡ false
    → find_lock k (rows ++ new ∷ []) ≡ (if new.key == k then some new else find_lock k rows)
unfolding find_lock
find-append new k [] h = refl
find-append new k (l ∷ rows) h =
    ground (arith, find-append new k rows, eq_iff l.key k, eq_iff new.key k, eq_iff l.key new.key)

-- with the primary key, the row that gives way is the row of the key
Bool-or_false : (b : Bool) → (b || false) ≡ b
Bool-or_false true = refl
Bool-or_false false = refl

any-gives_way :
    (new : LockRecord) (rows : List LockRecord)
    → keys_ok rows ≡ true
    → any (gives_way new) rows
      ≡ (elim (find_lock new.key rows) [ none ↦ false | some l ↦ leb l.expires_at new.expires_at ])
unfolding find_lock keys_ok
any-gives_way new [] h = refl
any-gives_way new (l ∷ rows) h = elim (Bool-cases (l.key == new.key)) [
  | inl e ↦
      let others : any (λ (r : LockRecord). r.key == l.key) rows ≡ false = ground arith in
      let none_other =
        any-false_imp (λ (r : LockRecord). r.key == l.key) (gives_way new) rows
          (λ r k. rw ((eq_iff l.key new.key).0 e) ((and-true _ _ k).0)) others in
      rw (e, none_other) (Bool-or_false _)
  | inr e ↦ rw e (any-gives_way new rows (ground arith))
]

any-find :
    (k : String) (rows : List LockRecord)
    → any (λ (l : LockRecord). l.key == k) rows
      ≡ (elim (find_lock k rows) [ none ↦ false | some l ↦ true ])
unfolding find_lock
any-find k [] = refl
any-find k (l ∷ rows) = ground (arith, any-find k rows)

module _ (new : LockRecord) (db : Db) where
  other_key :
      (k : String) (l : LockRecord)
      → find_lock k db.locks ≡ some l
      → (k == new.key) ≡ false
      → gives_way new l ≡ false
  other_key k l e h =
      ground (arith, find-key k db.locks l, eq_iff l.key k, eq_iff l.key new.key, eq_iff k new.key)

  acquire_free :
      find_lock new.key db.locks ≡ none
      → ((acquire new db).0 ≡ true)
        × ((k : String) → get (acquire new db).1 k ≡ lease_after new db k)
  unfolding acquire get
  acquire_free e =
      let free : any (λ (l : LockRecord). l.key == new.key) db.locks ≡ false =
        any-find new.key db.locks
        ∙ ap (λ (o : Option LockRecord). elim o [ none ↦ false | some l ↦ true ]) e in
      (
        rw free,
        λ k. rw free (
            rw (find-append new k db.locks free)
              (ground (arith, eq_iff new.key k, eq_iff k new.key))),
      )

  at_key :
      (k : String) (l : LockRecord)
      → find_lock new.key db.locks ≡ some l
      → (elim (find_lock k db.locks) [
        | none ↦ none
        | some l' ↦ some (if gives_way new l' then taken_over new l' else l')
      ])
        ≡ lease_after new db k
  unfolding get
  at_key k l e = elim (Bool-cases (k == new.key)) [
    | inl t ↦
        rw ((eq_iff k new.key).0 t)
          (rw (eq_refl new.key, e, find-key new.key db.locks l e) (ground arith))
    | inr f ↦ elim (Option-cases (find_lock k db.locks)) [
      | inl n ↦ rw (f, n)
      | inr (l', e') ↦ rw (f, e', other_key k l' e' f)
    ]
  ]

  acquire_taken :
      (l : LockRecord)
      → keys_ok db.locks ≡ true
      → find_lock new.key db.locks ≡ some l
      → ((acquire new db).0 ≡ leb l.expires_at new.expires_at)
        × ((k : String) → get (acquire new db).1 k ≡ lease_after new db k)
  unfolding acquire get
  acquire_taken l u e =
      let held : any (λ (r : LockRecord). r.key == new.key) db.locks ≡ true =
        any-find new.key db.locks
        ∙ ap (λ (o : Option LockRecord). elim o [ none ↦ false | some l ↦ true ]) e in
      (
        rw (held, any-gives_way new db.locks u, e),
        λ k. rw held (rw (find-map new k db.locks) (at_key k l e)),
      )

  -- Where no two rows share a key, an acquisition answers, and changes the lease of its key, as
  -- `acquired` says, and leaves every other key alone.
  pub acquire-leases :
      keys_ok db.locks ≡ true
      → ((acquire new db).0 ≡ (acquired new (get db new.key)).0)
        × ((k : String) → get (acquire new db).1 k ≡ lease_after new db k)
  unfolding get
  acquire-leases u = elim (Option-cases (find_lock new.key db.locks)) [
    | inl e ↦ let (f, g) = acquire_free e in (f ∙ rw e (ground arith), g)
    | inr (l, e) ↦ let (f, g) = acquire_taken l u e in (f ∙ rw e (ground arith), g)
  ]
