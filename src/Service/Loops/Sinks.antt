-- ===== src/Service/Loops/Sinks.antt =====
-- The statuses of a loop under the calls of crates/looper-service/src/loop_service.rs.
use looper_rust.Prelude.{
  ℤ, String, ◌==◌, eq_iff, Bool, false, ◌≡◌, ◌≢◌, refl, sym, ◌∙◌, ap, subst, ◌⊎◌, inl, inr, some,
  List, [], ◌∷◌, All, arith, Bool-cases,
}
use looper_rust.Storage.Schema.{Timestamp, LoopRecord, Db}
use looper_rust.Storage.Schema
use looper_rust.Storage.Loops
use looper_rust.Storage.Loops.{find_loop, has_id}
use looper_rust.Storage.Loops.Table.{find_loop-id, get_by_id-upsert}
use looper_rust.Types.LoopStatus
use looper_rust.Types.LoopStatus.{LoopStatus, completed, terminated, paused, as_str, from_str}
use looper_rust.Types.LoopStatus.Graph.{from_str_exact}
use looper_rust.Service.Outcome.{cannot_pause, cannot_terminate}
use looper_rust.Service.Loops.{TransitionInput, transition_status, resume, moved, halted}
use looper_rust.Service.Loops.Steps.{
  Writes, refused, wrote, declined, created, may_pause, pause-halt, terminate-halt,
  transition_status-Writes, halt-Writes, create-Creates,
}
use looper_rust.Service.Loops.Calls.{
  LoopCall, creates, transitions, pauses, terminates, resumes, perform, perform_all,
}

-- the loop of an id has this status
abbrev pub HasStatus : String → LoopStatus → Db → Type 0
HasStatus id s db = (l : LoopRecord) × (Loops.get_by_id id db ≡ some l) × (l.status ≡ as_str s)

abbrev pub IsSink : LoopStatus → Type 0
IsSink s = (s ≡ completed) ⊎ (s ≡ terminated)

get_by_id-loops :
    (k : String) (a b : Db) → a.loops ≡ b.loops → Loops.get_by_id k a ≡ Loops.get_by_id k b
unfolding Loops.get_by_id
get_by_id-loops k a b e = ap (find_loop (has_id k)) e

HasStatus-loops :
    (k : String) (s : LoopStatus) (a b : Db) → b.loops ≡ a.loops → HasStatus k s a → HasStatus k s b
HasStatus-loops k s a b e (l, f, g) = (l, get_by_id-loops k b a e ∙ f, g)

found-id : (id : String) (db : Db) (l : LoopRecord) → Loops.get_by_id id db ≡ some l → l.id ≡ id
unfolding Loops.get_by_id
found-id id db l h = find_loop-id id db.loops l h

same_row : (x l : LoopRecord) → some x ≡ some l → x ≡ l
same_row x l h = cc

-- a status text is read as one status
same_status :
    (t : String) (s s' : LoopStatus) → t ≡ as_str s → from_str t ≡ LoopStatus.ok s' → s ≡ s'
same_status t s s' e f = let g : from_str t ≡ LoopStatus.ok s = (from_str_exact t s).1 (sym e) in cc

module _ (k : String) (s : LoopStatus) where
  -- a write of another loop
  HasStatus-upsert :
      (l : LoopRecord) (a b : Db)
      → Loops.upsert l a ≡ Schema.ok b
      → (k == l.id) ≡ false
      → HasStatus k s a
      → HasStatus k s b
  HasStatus-upsert l a b h other (x, f, g) = (x, get_by_id-upsert l a b h k ∙ rw other f, g)

  Writes-HasStatus :
      (id : String) (allowed : LoopStatus → Bool) (change : LoopRecord → LoopRecord) (db r : Db)
      → ((l : LoopRecord) → (change l).id ≡ l.id)
      → allowed s ≡ false
      → Writes id allowed change db r
      → HasStatus k s db
      → HasStatus k s r
  Writes-HasStatus id allowed change db r keep shut (refused e) h = HasStatus-loops k s db r e h
  Writes-HasStatus id allowed change db r keep shut (wrote l s' db' e f g up q) (x, found, status) =
      HasStatus-loops k s db' r q (elim (Bool-cases (k == (change l).id)) [
        | inr other ↦ HasStatus-upsert (change l) db db' up other (x, found, status)
        | inl same ↦
            (let e' : Loops.get_by_id id db ≡ some l = e in
              let k_id : k ≡ id = (eq_iff k (change l).id).0 same ∙ keep l ∙ found-id id db l e' in
              let x_l : some x ≡ some l = sym found ∙ ap (λ i. Loops.get_by_id i db) k_id ∙ e' in
              let s_s' : s ≡ s' =
                same_status l.status s s'
                  (subst (λ (y : LoopRecord). y.status ≡ as_str s) (same_row x l x_l) status) f in
              absurd (ground arith))
      ])

-- a call that does not give the id to a new loop
abbrev pub IsFor : String → LoopCall → Type 0
IsFor k (creates input now id) = k ≢ id
IsFor k _ = Unit {0}

module _ (to_string : ℤ → String) (k : String) (s : LoopStatus) (sink : IsSink s) where
  sink_transition : (t : LoopStatus) → LoopStatus.can_transition_to s t ≡ false
  unfolding LoopStatus.can_transition_to
  sink_transition t = ground arith

  sink_pause : may_pause s ≡ false
  unfolding LoopStatus.can_transition_to as_str
  sink_pause = elim sink [ inl e ↦ rw e refl | inr e ↦ rw e refl ]

  transition-keeps :
      (id : String) (input : TransitionInput) (now : Timestamp) (db : Db)
      → HasStatus k s db
      → HasStatus k s (transition_status id input now db).1
  transition-keeps id input now db h =
      Writes-HasStatus k s id _ (moved input now) db _ (λ l. refl) (sink_transition input.status)
        (transition_status-Writes id input now db) h

  perform-keeps :
      (call : LoopCall) (db : Db)
      → IsFor k call
      → HasStatus k s db
      → HasStatus k s (perform to_string call db)
  unfolding perform resume
  perform-keeps (transitions id input now) db i h = transition-keeps id input now db h
  perform-keeps (resumes id at now) db i h = transition-keeps id _ now db h
  perform-keeps (pauses input now) db i h =
      subst (λ f. HasStatus k s (f db).1) (sym (pause-halt input now))
        (Writes-HasStatus k s input.loop_id may_pause (halted paused now) db _ (λ l. refl)
          sink_pause (halt-Writes may_pause cannot_pause paused input now db) h)
  perform-keeps (terminates input now) db i h =
      subst (λ f. HasStatus k s (f db).1) (sym (terminate-halt input now))
        (Writes-HasStatus k s input.loop_id _ (halted terminated now) db _ (λ l. refl)
          (sink_transition terminated)
          (halt-Writes (λ t. LoopStatus.can_transition_to t terminated) cannot_terminate terminated
            input now db)
          h)
  perform-keeps (creates input now id) db i h = elim (create-Creates to_string input now id db) [
    | declined e ↦ HasStatus-loops k s db _ e h
    | created c up ↦
        HasStatus-upsert k s _ (Loops.allocate_seq db).1 _ up (ground (arith, eq_iff k id))
          (HasStatus-loops k s db (Loops.allocate_seq db).1 (unfold Loops.allocate_seq in refl) h)
  ]

  -- A loop that is completed or terminated keeps that status, whatever calls of the service are
  -- made, unless a new loop is given its id.
  pub sink_stays_in_store :
      (calls : List LoopCall) (db : Db)
      → All (IsFor k) calls
      → HasStatus k s db
      → HasStatus k s (perform_all to_string calls db)
  unfolding perform_all
  sink_stays_in_store [] db a h = h
  sink_stays_in_store (call ∷ calls) db (i, a) h =
      sink_stays_in_store calls (perform to_string call db) a (perform-keeps call db i h)
