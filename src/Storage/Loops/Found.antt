-- ===== src/Storage/Loops/Found.antt =====
-- The search of crates/looper-storage/src/repos/loops.rs, `list` and then `find`, after a new loop.
use looper_rust.Prelude.{Bool, true, false, ◌≡◌, refl, none, some, List, [], ◌∷◌, ◌++◌, any, arith}
use looper_rust.Storage.Schema.{LoopRecord, Db, ok}
use looper_rust.Storage.Sql.{insert_ordered, order_by}
use looper_rust.Storage.Sql.Listed.{any-order_by}
use looper_rust.Storage.Loops.{find_loop, by_seq, list, has_id, upsert}
use looper_rust.Storage.Loops.Table.{upsert-loops}

module _ (p : LoopRecord → Bool) where
  pub find-any : (loops : List LoopRecord) → any p loops ≡ false → find_loop p loops ≡ none
  unfolding find_loop
  find-any [] h = refl
  find-any (x ∷ loops) h = ground (arith, find-any loops)

  pub not_found_any : (loops : List LoopRecord) → find_loop p loops ≡ none → any p loops ≡ false
  unfolding find_loop
  not_found_any [] h = refl
  not_found_any (x ∷ loops) h = ground (arith, not_found_any loops)

  find-inserted :
      (l : LoopRecord) (loops : List LoopRecord)
      → p l ≡ true
      → any p loops ≡ false
      → find_loop p (insert_ordered by_seq l loops) ≡ some l
  unfolding find_loop insert_ordered
  find-inserted l [] h k = ground arith
  find-inserted l (x ∷ loops) h k = ground (arith, find-inserted l loops)

  find-passed :
      (x : LoopRecord) (loops : List LoopRecord)
      → p x ≡ false
      → find_loop p (insert_ordered by_seq x loops) ≡ find_loop p loops
  unfolding find_loop insert_ordered
  find-passed x [] h = ground arith
  find-passed x (y ∷ loops) h = ground (arith, find-passed x loops)

  -- the only loop that passes a test is found, wherever the order puts it
  find-last :
      (l : LoopRecord) (loops : List LoopRecord)
      → p l ≡ true
      → any p loops ≡ false
      → find_loop p (order_by by_seq (loops ++ l ∷ [])) ≡ some l
  unfolding order_by
  find-last l [] h k = find-inserted l [] h refl
  find-last l (x ∷ loops) h k =
      let f : p x ≡ false = ground arith in
      let rest = find-last l loops h (ground arith) in
      rw (find-passed x (order_by by_seq (loops ++ l ∷ [])) f) rest

  -- a new loop that passes, where none did, is found after it is written
  pub find-upsert :
      (l : LoopRecord) (db db' : Db)
      → upsert l db ≡ ok db'
      → p l ≡ true
      → find_loop p (list db) ≡ none
      → any (has_id l.id) db.loops ≡ false
      → find_loop p (list db') ≡ some l
  unfolding list
  find-upsert l db db' up h k fresh =
      let n : any p (order_by by_seq db.loops) ≡ false =
        not_found_any (order_by by_seq db.loops) k in
      let m : any p db.loops ≡ false = rw (any-order_by by_seq p db.loops) at n in
      rw (upsert-loops l db db' up, fresh) (find-last l db.loops h m)
