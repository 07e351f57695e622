-- ===== src/Runner/Completion/Slots.antt =====
-- Closing a queue item gives its slot back to the scheduler.
use looper_rust.Prelude.{
  ◌+◌, String, ◌==◌, eq_iff, eq_other, ◌≡◌, refl, ◌∙◌, Bool, true, false, not, ◌&&◌, ◌||◌, Option,
  some, List, [], ◌∷◌, ◌++◌, any, all-true, keep, keep-none_any, Memᴰ, arith, Bool-cases, inl, inr,
  if◌then◌else◌, pos, negsuc, ltb_ℤ, leb_ℤ, eqb_ℤ,
}
use looper_rust.Storage.Schema.{
  QueueItemRecord, Timestamp, Db, row_ok, index_clash, is_indexed, is_active, is_in, null_or,
  ProjectRecord, LoopRecord,
}
use looper_rust.Storage.WellFormed.{IsWellFormed}
use looper_rust.Storage.Queue.{get_by_id, count_by_status}
use looper_rust.Storage.Insert.{upsert}
use looper_rust.Storage.Ops.Inserted.{replaced-IsWellFormed}
use looper_rust.Storage.Queue.Rows.{
  find_by-some, count-append, count-without, keep-ext, find_by-last,
}
use looper_rust.Runner.Completion.{closed, mark_queue_terminal}

-- the statuses with which the runners close an item
abbrev pub is_closing : String → Bool
is_closing s = is_in s ("completed" ∷ "failed" ∷ "cancelled" ∷ [])

-- the CHECK clauses on `status` and `last_error_kind`
abbrev statuses : List String
statuses = "queued" ∷ "running" ∷ "completed" ∷ "failed" ∷ "cancelled" ∷ "manual_intervention" ∷ []

abbrev error_kinds : List String
error_kinds =
    "retryable_transient" ∷ "retryable_after_resume" ∷ "non_retryable" ∷ "manual_intervention" ∷ []

fifth :
    (a b c d e e' f : Bool)
    → (a && (b && (c && (d && (e && f))))) ≡ true
    → e' ≡ true
    → (a && (b && (c && (d && (e' && f))))) ≡ true
fifth a b c d e e' f h k = ground arith

known : (s : String) → is_closing s ≡ true → is_in s statuses ≡ true
known s h = ground arith

closing-ne :
    (other s : String)
    → is_closing s ≡ true
    → ("completed" == other) ≡ false
    → ("failed" == other) ≡ false
    → ("cancelled" == other) ≡ false
    → (s == other) ≡ false
closing-ne other s h a b c = elim (Bool-cases (s == "completed")) [
  | inl e ↦ eq_other s "completed" other e a
  | inr e ↦ elim (Bool-cases (s == "failed")) [
    | inl f ↦ eq_other s "failed" other f b
    | inr f ↦ eq_other s "cancelled" other (ground arith) c
  ]
]

module _ (now : Timestamp) (status : String) (last_error : Option String)
    (closing : is_closing status ≡ true) where
  not_running : (status == "running") ≡ false
  not_running = closing-ne "running" status closing refl refl refl

  not_queued : (status == "queued") ≡ false
  not_queued = closing-ne "queued" status closing refl refl refl

  closed-clash : (q r : QueueItemRecord) → index_clash (closed now status last_error q) r ≡ false
  unfolding index_clash is_indexed is_active
  closed-clash q r = ground (arith, not_running, not_queued)

  closed-row :
      (db : Db) (q : QueueItemRecord)
      → row_ok db q ≡ true
      → row_ok db (closed now status last_error q) ≡ true
  unfolding row_ok
  closed-row db q h =
      fifth (null_or (λ n. ltb_ℤ (pos 0) n) q.pr_number) (ltb_ℤ (pos 0) q.priority)
        (leb_ℤ (pos 0) q.attempts) (eqb_ℤ q.max_attempts (negsuc 0) || ltb_ℤ (pos 0) q.max_attempts)
        (is_in q.status statuses) (is_in status statuses)
        (null_or (λ k. is_in k error_kinds) q.last_error_kind
          && (null_or (λ p. any (λ (r : ProjectRecord). r.id == p) db.projects) q.project_id
              && null_or (λ l. any (λ (r : LoopRecord). r.id == l) db.loops) q.loop_id))
        h (known status closing)

  -- the rows that the write leaves: the other ones, and the closed item
  abbrev others : QueueItemRecord → Db → List QueueItemRecord
  others q db = keep (λ r. not (r.id == q.id)) db.queue_items

  module _ (item_id : String) (db : Db) (q : QueueItemRecord) (w : IsWellFormed db)
      (found : get_by_id db item_id ≡ some q) where
    item : Memᴰ q db.queue_items × ((q.id == item_id) ≡ true)
    unfolding get_by_id
    item = find_by-some (λ r. r.id == item_id) db.queue_items q found

    writable : row_ok db (closed now status last_error q) ≡ true
    writable = closed-row db q (all-true (row_ok db) db.queue_items q w.rows_hold item.0)

    unclashed :
        keep
          (λ r. not (r.id == q.id || index_clash (closed now status last_error q) r))
          db.queue_items
        ≡ others q db
    unclashed =
        keep-ext (λ r. not (r.id == q.id || index_clash (closed now status last_error q) r))
          (λ r. not (r.id == q.id)) (λ r. rw (closed-clash q r) (ground arith)) db.queue_items

    written :
        mark_queue_terminal now item_id status last_error db
        ≡ record db { queue_items = others q db ++ closed now status last_error q ∷ [] }
    unfolding mark_queue_terminal upsert
    written = rw (found, mark_queue_terminal) (rw writable (rw unclashed))

    left-IsWellFormed :
        IsWellFormed
          (record db { queue_items = others q db ++ closed now status last_error q ∷ [] })
    left-IsWellFormed =
        rw unclashed at (replaced-IsWellFormed (closed now status last_error q) w writable)

    no_other : any (λ (r : QueueItemRecord). r.id == item_id) (others q db) ≡ false
    no_other =
        keep-none_any (λ (r : QueueItemRecord). r.id == item_id) (λ r. not (r.id == q.id))
          (λ r h. rw (← (eq_iff q.id item_id).0 item.1) (ground arith)) db.queue_items

  -- On a well-formed table, closing an item with one of the statuses that the runners close items
  -- with leaves the table well-formed, gives the item that status under its id, whatever its status
  -- was, and takes one from the number of running items if it was running, and none otherwise.
  pub mark_queue_terminal-frees :
      (item_id : String) (db : Db) (q : QueueItemRecord)
      → IsWellFormed db
      → get_by_id db item_id ≡ some q
      → IsWellFormed (mark_queue_terminal now item_id status last_error db)
        × (get_by_id (mark_queue_terminal now item_id status last_error db) item_id
            ≡ some (closed now status last_error q))
        × (count_by_status db "running"
            ≡ count_by_status (mark_queue_terminal now item_id status last_error db) "running"
              + (if q.status == "running" then 1 else 0))
  unfolding get_by_id count_by_status
  mark_queue_terminal-frees item_id db q w found =
      let c = closed now status last_error q in
      let (m, i) = item item_id db q w found in
      rw (written item_id db q w found) (
        left-IsWellFormed item_id db q w found,
        find_by-last (λ r. r.id == item_id) (others q db) c (no_other item_id db q w found) i,
        count-without (λ r. r.status == "running") q db.queue_items w.ids_differ m
            ∙ rw (count-append (λ r. r.status == "running") (others q db) c)
                (rw not_running (omega arith)),
      )
